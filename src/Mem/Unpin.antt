-- ===== src/Mem/Unpin.antt =====
-- `unpinHttpFilterConfig` and `unpinHttpFilter`: a node's neighbours are linked to each other.
use mathlib.Core.Path.{fun_ext}
use dynamic_modules_examples.Base.{
  ◌≡◌, refl, ap, sym, ◌≢◌, some, arith, ◌==◌, if◌then◌else◌, false, Bool-cases, inl, inr,
}
use dynamic_modules_examples.Base.Outcome.{ok, ◌>>=◌}
use dynamic_modules_examples.Mem.{
  Ptr, null, LinkedList, Heap, load, set_next, set_prev, MemoryManager, update,
  unpin_http_filter_config, unpin_http_filter,
}
use dynamic_modules_examples.Mem.Chain.{
  Cells, ◌∈◌, head_of, erase, Chain, nil, cons, IsList, ne_null, front_node,
}
use dynamic_modules_examples.Mem.Chain.Splice.{
  link_prev, link_next, splice, link_next_nil, link_prev_nil, set_prev-ok, set_next-ok, before_of,
  after_of, node_at,
}
use dynamic_modules_examples.Mem.Pin.{check_key}
use dynamic_modules_examples.Mem.Sharding.{sharding_key}

module _ {T : Type 0} {h : Heap T} where
  -- The node before `p` is nil or holds a node, and so is the one after it.
  before_held :
      {before : Ptr} {xs : Cells T} (p : Ptr)
      → Chain h before xs
      → (before ≢ null → (n : LinkedList T) × (h before ≡ some n))
      → before_of before p xs ≢ null
      → (n : LinkedList T) × (h (before_of before p xs) ≡ some n)
  before_held p nil held ne = held ne
  before_held p (cons {a} {xs} ne' e out c) held ne = elim (Bool-cases (a == p)) [
    | inl here ↦ rw here (held (rw here at ne))
    | inr later ↦ rw later (before_held p c (λ _. (_, e)) (rw later at ne))
  ]

  after_held :
      {before : Ptr} {xs : Cells T} (p : Ptr)
      → Chain h before xs
      → after_of p xs ≢ null
      → (n : LinkedList T) × (h (after_of p xs) ≡ some n)
  after_held p nil ne = absurd (ne refl)
  after_held p (cons {a} ne' e out c) ne = elim (Bool-cases (a == p)) [
    | inl here ↦ rw here (front_node c (rw here at ne))
    | inr later ↦ rw later (after_held p c (rw later at ne))
  ]

  before_of-ne_null :
      {before : Ptr} {xs : Cells T} (p : Ptr)
      → Chain h before xs
      → before ≢ null
      → before_of before p xs ≢ null
  before_of-ne_null p nil ne = ne
  before_of-ne_null p (cons {a} {xs} ne' e out c) ne = ground (arith, before_of-ne_null p c ne')

  -- The front after the node at `p` is gone: the next node if `p` was the first.
  pub head_of-erase :
      {xs : Cells T} (p : Ptr)
      → Chain h null xs
      → p ∈ xs
      → (if before_of null p xs == null then after_of p xs else head_of xs) ≡ head_of (erase p xs)
  head_of-erase p nil i = cc
  head_of-erase p (cons {a} {xs} ne e out c) i = ground (arith, before_of-ne_null p c ne)

  -- `n.next.prev = n.prev`, after the other write: the next node is still there.
  after_linked :
      {xs : Cells T} (p : Ptr)
      → Chain h null xs
      → after_of p xs ≢ null
      → (n : LinkedList T) × (link_next h (before_of null p xs) (after_of p xs) (after_of p xs)
          ≡ some n)
  after_linked {xs} p c ne =
      let (n, e) = after_held p c ne in
      elim (Bool-cases (before_of null p xs == after_of p xs)) [
        | inl same ↦ (record n { next = after_of p xs }, ground arith)
        | inr other ↦ (n, ground arith)
      ]

-- The two guarded writes, in any state `K` that is made of the heap and what records the front.
module _ {T X : Type 0} (h : Heap T) (p q : Ptr) where
  write_before :
      {S : Type 0} (K : Heap T → S → X) (first later : S)
      → (p ≢ null → (n : LinkedList T) × (h p ≡ some n))
      → (if p == null then ok (K h first) else do h' ← set_next h p q; ok (K h' later))
        ≡ ok (K (link_next h p q) (if p == null then first else later))
  write_before K first_front later_front held = elim (Bool-cases (p == null)) [
    | inl first ↦ rw first (ap (λ g. ok (K g first_front)) (sym (link_next_nil h p q first)))
    | inr later ↦
        let ne : p ≢ null = ground arith in rw (later, set_next-ok h p q (held ne).0 ne (held ne).1)
  ]

  write_after :
      (K : Heap T → X)
      → (p ≢ null → (n : LinkedList T) × (h p ≡ some n))
      → (if p == null then ok (K h) else do h' ← set_prev h p q; ok (K h'))
        ≡ ok (K (link_prev h p q))
  write_after K held = elim (Bool-cases (p == null)) [
    | inl last ↦ rw last (ap (λ g. ok (K g)) (sym (link_prev_nil h p q last)))
    | inr more ↦
        let ne : p ≢ null = ground arith in rw (more, set_prev-ok h p q (held ne).0 ne (held ne).1)
  ]

module _ {C F : Type 0} (m : MemoryManager C F) (p : Ptr) where
  -- Both functions leave the spliced heap and the front of the shortened list.
  pub unpin_http_filter_config-ok :
      {xs : Cells C}
      → IsList m.configs m.http_filter_configs xs
      → p ∈ xs
      → unpin_http_filter_config m p
        ≡ ok (record m {
          configs = splice m.configs (before_of null p xs) (after_of p xs);
          http_filter_configs = head_of (erase p xs);
        })
  unfolding unpin_http_filter_config load
  unpin_http_filter_config-ok {xs} is i =
      let there : (p == null) ≡ false = let ne = ne_null p is.chain i in ground arith in
      let (o, e) = node_at p is.chain i in
      let held = before_held p is.chain (λ ne. absurd (ne refl)) in
      let before = before_of null p xs in
      let after = after_of p xs in
      let K = λ (h : Heap C) (head : Ptr). record m { configs = h; http_filter_configs = head } in
      let front = if before == null then after else m.http_filter_configs in
      rw (there, e, write_before m.configs before after K after m.http_filter_configs held)
        (rw
          (write_after (link_next m.configs before after) after before (λ h. K h front)
            (after_linked p is.chain))
          (rw (is.front, head_of-erase p is.chain i)))

  pub unpin_http_filter-ok :
      {xs : Cells F}
      → IsList m.filters (m.http_filter_lists (sharding_key p)) xs
      → p ∈ xs
      → unpin_http_filter m p
        ≡ ok (record m {
          filters = splice m.filters (before_of null p xs) (after_of p xs);
          http_filter_lists = update m.http_filter_lists (sharding_key p) (head_of (erase p xs));
        })
  unfolding unpin_http_filter load
  unpin_http_filter-ok {xs} is i =
      let there : (p == null) ≡ false = let ne = ne_null p is.chain i in ground arith in
      let (o, e) = node_at p is.chain i in
      let held = before_held p is.chain (λ ne. absurd (ne refl)) in
      let before = before_of null p xs in
      let after = after_of p xs in
      let key = sharding_key p in
      let lists = m.http_filter_lists in
      let K = λ (h : Heap F) (l : Ptr → Ptr). record m { filters = h; http_filter_lists = l } in
      let fronts = if before == null then update lists key after else lists in
      let same : fronts ≡ update lists key (head_of (erase p xs)) =
        fun_ext (λ j. ground (arith, head_of-erase p is.chain i, is.front)) in
      rw
        (
          check_key p,
          there,
          e,
          write_before m.filters before after K (update lists key after) lists held,
        )
        (rw
          (write_after (link_next m.filters before after) after before (λ h. K h fronts)
            (after_linked p is.chain))
          (rw same))
