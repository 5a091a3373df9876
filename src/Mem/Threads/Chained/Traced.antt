-- ===== src/Mem/Threads/Chained/Traced.antt =====
-- What the garbage collector finds behind the front of a shard of go/gosdk/mem.go.
use dynamic_modules_examples.Base.{
  some, ◌≡◌, ◌≢◌, refl, ◌==◌, ==_iff, arith, Bool-cases, inl, inr, ◌⊎◌,
}
use dynamic_modules_examples.Mem.{Ptr, null, LinkedList, Heap}
use dynamic_modules_examples.Mem.Chain.{Cells, ◌∈◌, head_of, head_of-mem, Chain, nil, cons, IsList}

module _ {F : Type 0} where
  -- The nodes that are found from a pointer by `next` and `prev`.
  pub data Traced (h : Heap F) : Ptr → Ptr → Type 0 where
    here : {p : Ptr} → p ≢ null → Traced h p p
    next :
        {q p : Ptr} {n : LinkedList F} → q ≢ null → h q ≡ some n → Traced h n.next p → Traced h q p
    prev :
        {q p : Ptr} {n : LinkedList F} → q ≢ null → h q ≡ some n → Traced h n.prev p → Traced h q p

  Traced-ne : {h : Heap F} {q p : Ptr} → Traced h q p → q ≢ null
  Traced-ne (here ne) = ne
  Traced-ne (next ne there r) = ne
  Traced-ne (prev ne there r) = ne

  -- The pointers of a node of a chain stay in it.
  Chain-neighbours :
      {h : Heap F} {before : Ptr} {xs : Cells F} (q : Ptr) {n : LinkedList F}
      → Chain h before xs
      → q ∈ xs
      → h q ≡ some n
      → ((n.next ≡ null) ⊎ (n.next ∈ xs)) × ((n.prev ≡ before) ⊎ (n.prev ∈ xs))
  Chain-neighbours q nil i there = cc
  Chain-neighbours {before} q {n} (cons {a} {o} {xs} ne e out c) i there =
      elim (Bool-cases (a == q)) [
        | inl first ↦
            let at : a ≡ q = (==_iff a q).0 first in
            let m : LinkedList F = record { obj = o; next = head_of xs; prev = before } in
            let both : m ≡ n = ground arith in
            rw (← both) (
              elim (head_of-mem xs) [ inl gone ↦ inl gone | inr inner ↦ inr (ground arith) ],
              inl refl,
            )
        | inr later ↦
            let (after, ahead) = Chain-neighbours q c (rw later at i) there in
            (
              elim after [ inl gone ↦ inl gone | inr inner ↦ inr (ground arith) ],
              inr (elim ahead [ inl first ↦ ground arith | inr inner ↦ ground arith ]),
            )
      ]

  Traced-mem :
      {h : Heap F} {xs : Cells F} {q p : Ptr} → Chain h null xs → q ∈ xs → Traced h q p → p ∈ xs
  Traced-mem c i (here ne) = i
  Traced-mem {q} c i (next ne there r) = elim (Chain-neighbours q c i there).0 [
    | inl gone ↦ absurd (Traced-ne r gone)
    | inr inner ↦ Traced-mem c inner r
  ]
  Traced-mem {q} c i (prev ne there r) = elim (Chain-neighbours q c i there).1 [
    | inl gone ↦ absurd (Traced-ne r gone)
    | inr inner ↦ Traced-mem c inner r
  ]

  -- From the front of a list nothing is found but its nodes.
  pub IsList-Traced :
      {h : Heap F} {front : Ptr} {xs : Cells F} (p : Ptr)
      → IsList h front xs
      → Traced h front p
      → p ∈ xs
  IsList-Traced {h} {xs} p list r =
      let r' : Traced h (head_of xs) p = rw (← list.front) r in
      elim (head_of-mem xs) [
        | inl gone ↦ absurd (Traced-ne r' gone)
        | inr inner ↦ Traced-mem list.chain inner r'
      ]
