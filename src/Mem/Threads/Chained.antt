-- ===== src/Mem/Threads/Chained.antt =====
-- The `next` pointers of a shard from its front on: what they lead to while a line of
-- go/gosdk/mem.go changes them.
pub mod Lines
pub mod Traced
use dynamic_modules_examples.Base.{
  ℕ, zero, suc, Bool, true, false, none, some, [], ◌∷◌, ◌≡◌, ◌≢◌, refl, sym, ap, ◌∙◌, ◌==◌, ==_iff,
  arith, Bool-cases, inl, inr, if◌then◌else◌,
}
use dynamic_modules_examples.Base.Outcome.{Outcome, ok, of_bind}
use dynamic_modules_examples.Mem.{Ptr, null, LinkedList, Heap, write, load, set_next, set_prev}
use dynamic_modules_examples.Mem.Chain.{Cells, has, ◌∈◌, ◌∉◌, head_of, Chain, nil, cons, IsList}
use dynamic_modules_examples.Mem.Manager.{find}
use dynamic_modules_examples.Mem.Threads.{
  Line, pin_next, pin_test, pin_back, pin_front, unpin_test, unpin_link, unpin_front,
  unpin_test_next, unpin_back, unlock, line, run_lines,
}

module _ {F : Type 0} where
  -- The nodes that the pointer `from` keeps from the garbage collector by `next` pointers.
  pub data Reached (h : Heap F) : Ptr → Ptr → Type 0 where
    here : {p : Ptr} → p ≢ null → Reached h p p
    next :
        {q p : Ptr} {n : LinkedList F}
        → q ≢ null
        → h q ≡ some n
        → Reached h n.next p
        → Reached h q p

  -- From `from` on, the `next` pointers lead through these nodes and end.
  abbrev pub Nexts : Heap F → Ptr → Cells F → Type 0
  Nexts h from [] = from ≡ null
  Nexts h from ((a, o) ∷ xs) =
      (from ≡ a)
      × (a ≢ null)
      × (n : LinkedList F) × (h a ≡ some n)
      × (n.obj ≡ o)
      × Nexts h n.next xs

  -- The node at `a` keeps its object and its `next`.
  abbrev pub KeepsAt : Heap F → Heap F → Ptr → Type 0
  KeepsAt h g a =
      (n : LinkedList F)
      → h a ≡ some n
      → (m : LinkedList F) × (g a ≡ some m) × (m.obj ≡ n.obj) × (m.next ≡ n.next)

  pub Nexts-KeepsAt :
      (h g : Heap F) (from : Ptr) (xs : Cells F)
      → Nexts h from xs
      → ((a : Ptr) → a ∈ xs → KeepsAt h g a)
      → Nexts g from xs
  Nexts-KeepsAt h g from [] is keeps = is
  Nexts-KeepsAt h g from ((a, o) ∷ xs) (at, ne, n, there, same, rest) keeps =
      let (m, there', same', next') = keeps a (ground arith) n there in
      (
        at,
        ne,
        m,
        there',
        same' ∙ same,
        rw next' (Nexts-KeepsAt h g n.next xs rest (λ b i. keeps b (ground arith))),
      )

  pub KeepsAt-same : (h g : Heap F) (a : Ptr) → g a ≡ h a → KeepsAt h g a
  KeepsAt-same h g a same n there = (n, same ∙ there, refl, refl)

  pub Nexts-Chain :
      {h : Heap F} {before : Ptr} {xs : Cells F} (from : Ptr)
      → Chain h before xs
      → from ≡ head_of xs
      → Nexts h from xs
  Nexts-Chain from nil at = at
  Nexts-Chain from (cons ne e out c) at = (at, ne, _, e, refl, Nexts-Chain _ c refl)

  -- What the front leads to is kept, and it is read through its address.
  pub Nexts-Reached :
      (h : Heap F) (from : Ptr) (xs : Cells F) (p : Ptr) (f : F)
      → Nexts h from xs
      → find p xs ≡ some f
      → Reached h from p × (n : LinkedList F) × (load h p ≡ ok n) × (n.obj ≡ f)
  unfolding load
  Nexts-Reached h from [] p f is found = cc
  Nexts-Reached h from ((a, o) ∷ xs) p f (at, ne, n, there, same, rest) found =
      elim (Bool-cases (a == p)) [
        | inl first ↦
            let e : a ≡ p = (==_iff a p).0 first in
            let there' : h p ≡ some n = rw e at there in
            let ne' : p ≢ null = rw e at ne in
            let object : o ≡ f = ground arith in
            (rw (at ∙ e) (here ne'), n, ground arith, same ∙ object)
        | inr later ↦
            let (reached, m, loaded, same_object) =
              Nexts-Reached h n.next xs p f rest (rw later at found) in
            (rw at (next ne there reached), m, loaded, same_object)
      ]

  write-KeepsAt :
      (h : Heap F) (q : Ptr) (n m : LinkedList F) (a : Ptr)
      → load h q ≡ ok n
      → m.obj ≡ n.obj
      → m.next ≡ n.next
      → KeepsAt h (write h q m) a × KeepsAt (write h q m) h a
  unfolding load write
  write-KeepsAt h q n m a there same same_next = elim (Bool-cases (q == a)) [
    | inl e ↦
        let at : q ≡ a = (==_iff q a).0 e in
        let there' : h a ≡ some n = ground arith in
        rw e (
          λ k e'.
              (let both : n ≡ k = ground arith in
                (
                  m,
                  refl,
                  same ∙ ap (λ (n : LinkedList F). n.obj) both,
                  same_next ∙ ap (λ (n : LinkedList F). n.next) both,
                )),
          λ k e'.
              (let both : m ≡ k = ground arith in
                (
                  n,
                  there',
                  sym same ∙ ap (λ (n : LinkedList F). n.obj) both,
                  sym same_next ∙ ap (λ (n : LinkedList F). n.next) both,
                )),
        )
    | inr e ↦ rw e (λ k e'. (k, e', refl, refl), λ k e'. (k, e', refl, refl))
  ]

  pub set_prev-KeepsAt :
      (h g : Heap F) (q r a : Ptr) → set_prev h q r ≡ ok g → KeepsAt h g a × KeepsAt g h a
  unfolding set_prev
  set_prev-KeepsAt h g q r a ran =
      let (n, e, there) = of_bind (load h q) ran in
      let same : write h q (record n { prev = r }) ≡ g = cc in
      rw (← same) (write-KeepsAt h q n (record n { prev = r }) a there refl refl)

  pub set_next-elsewhere : (h g : Heap F) (q r a : Ptr) → set_next h q r ≡ ok g → q ≢ a → g a ≡ h a
  unfolding set_next write
  set_next-elsewhere h g q r a ran ne =
      let (n, e, there) = of_bind (load h q) ran in
      let same : write h q (record n { next = r }) ≡ g = cc in rw (← same) (ground arith)
