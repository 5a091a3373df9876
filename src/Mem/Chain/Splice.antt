-- ===== src/Mem/Chain/Splice.antt =====
-- Taking a node out of a chain: its neighbours are linked to each other.
use mathlib.Core.Option
use mathlib.Core.Path.{fun_ext}
use dynamic_modules_examples.Base.{
  ◌≡◌, ◌∙◌, ap, true, ◌≢◌, inl, inr, refl, [], sym, ◌⊎◌, false, some, [], ◌∷◌, arith, ◌==◌,
  if◌then◌else◌, Bool-cases,
}
use dynamic_modules_examples.Base.Outcome.{ok}
use dynamic_modules_examples.Mem.{Ptr, null, LinkedList, Heap, write, load, set_next, set_prev}
use dynamic_modules_examples.Mem.Chain.{
  Cells, ◌∈◌, ◌∉◌, head_of, erase, IsList, null-not-mem, Chain, nil, cons, frame, not-mem-erase,
}

module _ {T : Type 0} where
  -- `p.next = q`, and nothing at nil.
  abbrev pub link_next : Heap T → Ptr → Ptr → Heap T
  link_next h p q a =
      if p == null
      then h a
      else if p == a
      then Option.map {A = LinkedList T} {B = LinkedList T} (λ n. record n { next = q }) (h a)
      else h a

  -- `p.prev = q`, and nothing at nil.
  abbrev pub link_prev : Heap T → Ptr → Ptr → Heap T
  link_prev h p q a =
      if p == null
      then h a
      else if p == a
      then Option.map {A = LinkedList T} {B = LinkedList T} (λ n. record n { prev = q }) (h a)
      else h a

  abbrev pub splice : Heap T → Ptr → Ptr → Heap T
  splice h p q = link_prev (link_next h p q) q p

  pub set_next-ok :
      (h : Heap T) (p q : Ptr) (n : LinkedList T)
      → p ≢ null
      → h p ≡ some n
      → set_next h p q ≡ ok (link_next h p q)
  unfolding set_next load write
  set_next-ok h p q n ne e =
      let there : (p == null) ≡ false = ground arith in
      rw (there, e) (ap ok (fun_ext (λ a. ground arith)))

  pub set_prev-ok :
      (h : Heap T) (p q : Ptr) (n : LinkedList T)
      → p ≢ null
      → h p ≡ some n
      → set_prev h p q ≡ ok (link_prev h p q)
  unfolding set_prev load write
  set_prev-ok h p q n ne e =
      let there : (p == null) ≡ false = ground arith in
      rw (there, e) (ap ok (fun_ext (λ a. ground arith)))

  -- The guarded write of mem.go, at a pointer that is nil or holds a node.
  pub guarded_prev :
      (h : Heap T) (p q : Ptr)
      → (p ≢ null → (n : LinkedList T) × (h p ≡ some n))
      → (if p == null then ok h else set_prev h p q) ≡ ok (link_prev h p q)
  guarded_prev h p q holds = elim (Bool-cases (p == null)) [
    | inl gone ↦ rw gone (ap ok (fun_ext (λ a. ground arith)))
    | inr there ↦
        let ne : p ≢ null = ground arith in
        rw there
          (set_prev-ok h p q (holds ne).0 ne (holds ne).1 ∙ ap ok (fun_ext (λ a. ground arith)))
  ]

  pub link_next_nil : (h : Heap T) (p q : Ptr) → (p == null) ≡ true → link_next h p q ≡ h
  link_next_nil h p q gone = fun_ext (λ a. ground arith)

  pub link_prev_nil : (h : Heap T) (p q : Ptr) → (p == null) ≡ true → link_prev h p q ≡ h
  link_prev_nil h p q gone = fun_ext (λ a. ground arith)

  -- The neighbours of the node at `p`.
  abbrev pub before_of : Ptr → Ptr → Cells T → Ptr
  before_of before p [] = before
  before_of before p ((a, _) ∷ xs) = if a == p then before else before_of a p xs

  abbrev pub after_of : Ptr → Cells T → Ptr
  after_of p [] = null
  after_of p ((a, _) ∷ xs) = if a == p then head_of xs else after_of p xs

  before_of-ne : (a before p : Ptr) (xs : Cells T) → a ≢ before → a ∉ xs → before_of before p xs ≢ a
  before_of-ne a before p [] ne out = ground arith
  before_of-ne a before p ((b, _) ∷ xs) ne out = ground (arith, before_of-ne a b p xs)

  head_of-ne : (a : Ptr) (xs : Cells T) → a ≢ null → a ∉ xs → head_of xs ≢ a
  head_of-ne a [] ne out = ground arith
  head_of-ne a (x ∷ xs) ne out = ground arith

  after_of-ne : (a p : Ptr) (xs : Cells T) → a ≢ null → a ∉ xs → after_of p xs ≢ a
  after_of-ne a p [] ne out = ground arith
  after_of-ne a p (x ∷ xs) ne out = ground (arith, after_of-ne a p xs, head_of-ne a xs)

  module _ {h : Heap T} where
    -- The node at `p` points to its neighbours.
    pub node_at :
        {before : Ptr} {xs : Cells T} (p : Ptr)
        → Chain h before xs
        → p ∈ xs
        → (o : T) × (h p
            ≡ some (record { obj = o; next = after_of p xs; prev = before_of before p xs }))
    node_at p nil i = cc
    node_at p (cons {a} {o} ne e out c) i = elim (Bool-cases (a == p)) [
      | inl here ↦ (o, ground arith)
      | inr later ↦ let (o', e') = node_at p c (ground arith) in (o', ground arith)
    ]

    first_spliced :
        {before a : Ptr} {xs : Cells T}
        → Chain h a xs
        → before ∉ xs
        → Chain (splice h before (head_of xs)) before xs
    first_spliced nil out = nil
    first_spliced (cons ne e fresh c) out =
        cons ne (ground arith) fresh (frame c (λ x i. ground arith))

    later_spliced :
        {before : Ptr} (p a : Ptr) (o : T) {xs : Cells T}
        → a ≢ null
        → h a ≡ some (record { obj = o; next = head_of xs; prev = before })
        → a ∉ xs
        → Chain h a xs
        → p ∈ xs
        → splice h (before_of a p xs) (after_of p xs) a
          ≡ some (record { obj = o; next = head_of (erase p xs); prev = before })
    later_spliced p a o ne e out nil i = cc
    later_spliced p a o ne e out (cons {a = b} {xs} ne' e' out' c) i = elim (Bool-cases (b == p)) [
      | inl here ↦ ground (arith, head_of-ne a xs)
      | inr later ↦ ground (arith, before_of-ne a b p xs, after_of-ne a p xs)
    ]

    -- With its neighbours linked, a node is out of the chain and the rest is as it was.
    pub splice-Chain :
        {before : Ptr} {xs : Cells T} (p : Ptr)
        → Chain h before xs
        → p ∈ xs
        → before ∉ xs
        → Chain (splice h (before_of before p xs) (after_of p xs)) before (erase p xs)
    splice-Chain p nil i out = cc
    splice-Chain p (cons {a} {o} {xs} ne e fresh c) i out = elim (Bool-cases (a == p)) [
      | inl here ↦ rw here (first_spliced c (ground arith))
      | inr later ↦
          let i' : p ∈ xs = ground arith in
          rw later (
            cons ne (later_spliced p a o ne e fresh c i') (not-mem-erase a p xs fresh)
              (splice-Chain p c i' fresh))
    ]

  pub splice-IsList :
      {h : Heap T} {head : Ptr} {xs : Cells T} (p : Ptr)
      → IsList h head xs
      → p ∈ xs
      → IsList (splice h (before_of null p xs) (after_of p xs)) (head_of (erase p xs)) (erase p xs)
  splice-IsList p is i = record {
    front = refl;
    chain = splice-Chain p is.chain i (null-not-mem is.chain);
  }

  -- The neighbours of a node are nil or in its list.
  pub before_of-mem :
      {h : Heap T} (a before p : Ptr) {xs : Cells T}
      → Chain h before xs
      → before_of before p xs ≡ a
      → (a ≡ before) ⊎ (a ∈ xs)
  before_of-mem a before p nil e = inl (sym e)
  before_of-mem a before p (cons {a = b} ne e' out c) e = ground (arith, before_of-mem a b p c)

  pub after_of-mem :
      {h : Heap T} {before : Ptr} (a p : Ptr) {xs : Cells T}
      → Chain h before xs
      → after_of p xs ≡ a
      → (a ≡ null) ⊎ (a ∈ xs)
  after_of-mem a p nil e = inl (sym e)
  after_of-mem a p (cons {xs = []} ne e' out c) e = ground arith
  after_of-mem a p (cons {xs = x ∷ xs} ne e' out c) e = ground (arith, after_of-mem a p c)
