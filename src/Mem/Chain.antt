-- ===== src/Mem/Chain.antt =====
-- Doubly linked chains in a heap: what the lists of mem.go look like between two calls.
pub mod Splice
use dynamic_modules_examples.Base.{
  ◌⊎◌, inl, inr, ◌≡◌, refl, ◌≢◌, Bool, true, false, ◌||◌, ◌∙◌, none, some, List, [], ◌∷◌, arith,
  ◌==◌, if◌then◌else◌,
}
use dynamic_modules_examples.Mem.{Ptr, null, LinkedList, Heap, write}

-- What a list stands for: address and object of each node, in order.
abbrev pub Cells : Type 0 → Type 0
Cells T = List (Ptr × T)

module _ {T : Type 0} where
  abbrev pub has : Ptr → Cells T → Bool
  has p [] = false
  has p ((a, _) ∷ xs) = (a == p) || has p xs

  infix 40 ◌∈◌ ◌∉◌
  abbrev pub ◌∈◌ : Ptr → Cells T → Type 0
  p ∈ xs = has p xs ≡ true

  abbrev pub ◌∉◌ : Ptr → Cells T → Type 0
  p ∉ xs = has p xs ≡ false

  abbrev pub head_of : Cells T → Ptr
  head_of [] = null
  head_of ((a, _) ∷ _) = a

  abbrev pub erase : Ptr → Cells T → Cells T
  erase p [] = []
  erase p ((a, o) ∷ xs) = if a == p then xs else (a, o) ∷ erase p xs

  -- The nodes `xs` follow one another by `next`, each points back by `prev`, and `before` comes
  -- before the first.
  pub data Chain (h : Heap T) : Ptr → Cells T → Type 0 where
    nil : {before : Ptr} → Chain h before []
    cons :
        {before a : Ptr} {o : T} {xs : Cells T}
        → a ≢ null
        → h a ≡ some (record { obj = o; next = head_of xs; prev = before })
        → a ∉ xs
        → Chain h a xs
        → Chain h before ((a, o) ∷ xs)

  pub record IsList (h : Heap T) (head : Ptr) (xs : Cells T) : Type 0 where
    pub front : head ≡ head_of xs
    pub chain : Chain h null xs

  pub not-mem-erase : (a p : Ptr) (xs : Cells T) → a ∉ xs → a ∉ erase p xs
  not-mem-erase a p [] out = refl
  not-mem-erase a p (x ∷ xs) out = ground (arith, not-mem-erase a p xs)

  pub erase_of_not_mem : (p : Ptr) (xs : Cells T) → p ∉ xs → erase p xs ≡ xs
  erase_of_not_mem p [] out = refl
  erase_of_not_mem p (x ∷ xs) out = ground (arith, erase_of_not_mem p xs)

  pub head_of-mem : (xs : Cells T) → (head_of xs ≡ null) ⊎ (head_of xs ∈ xs)
  head_of-mem [] = inl refl
  head_of-mem (x ∷ xs) = inr (ground arith)

  module _ {h : Heap T} where
    -- A chain survives any change that spares its own addresses.
    pub frame :
        {g : Heap T} {before : Ptr} {xs : Cells T}
        → Chain h before xs
        → ((a : Ptr) → a ∈ xs → g a ≡ h a)
        → Chain g before xs
    frame nil same = nil
    frame (cons {a} ne e out c) same =
        cons ne (same a (ground arith) ∙ e) out (frame c (λ b i. same b (ground arith)))

    pub frame-write :
        {before : Ptr} {xs : Cells T} (p : Ptr) (n : LinkedList T)
        → Chain h before xs
        → p ∉ xs
        → Chain (write h p n) before xs
    unfolding write
    frame-write p n c out = frame c (λ a i. ground arith)

    pub ne_null : {before : Ptr} {xs : Cells T} (p : Ptr) → Chain h before xs → p ∈ xs → p ≢ null
    ne_null p nil i = cc
    ne_null p (cons ne e out c) i = ground (arith, ne_null p c)

    -- An address that holds no object is not in a chain.
    pub not-mem_of_none :
        {before : Ptr} {xs : Cells T} (p : Ptr) → Chain h before xs → h p ≡ none → p ∉ xs
    not-mem_of_none p nil unused = refl
    not-mem_of_none p (cons ne e out c) unused = ground (arith, not-mem_of_none p c unused)

    -- The front of a chain is nil or holds a node.
    pub front_node :
        {before : Ptr} {xs : Cells T}
        → Chain h before xs
        → head_of xs ≢ null
        → (n : LinkedList T) × (h (head_of xs) ≡ some n)
    front_node nil ne = absurd (ne refl)
    front_node (cons _ e out c) ne = (_, e)

    pub null-not-mem : {before : Ptr} {xs : Cells T} → Chain h before xs → null ∉ xs
    null-not-mem nil = refl
    null-not-mem (cons ne e out c) = ground (arith, null-not-mem c)
