-- ===== src/Mem/Threads/Kept.antt =====
-- Pinning keeps an object from the garbage collector of Go: what the lists of go/gosdk/mem.go lead to
-- while threads work on them. `unwrapPinnedHttpFilter` takes no mutex.
use dynamic_modules_examples.Base.{
  ℕ, false, some, ◌≡◌, ◌≢◌, refl, sym, ap, ◌∙◌, arith, Bool-cases, inl, inr, if◌then◌else◌,
}
use dynamic_modules_examples.Base.Outcome.{ok}
use dynamic_modules_examples.Mem.{Ptr, LinkedList, Heap, unwrap_pinned_http_filter}
use dynamic_modules_examples.Mem.Chain.{Cells, Chain}
use dynamic_modules_examples.Mem.Sharding.{sharding_key}
use dynamic_modules_examples.Mem.Manager.{find, find-erase, find_of_mem}
use dynamic_modules_examples.Mem.Threads.{Line, Op, pin, unpin, inside, Log, replay, System, Reach}
use dynamic_modules_examples.Mem.Threads.Alone.{applied}
use dynamic_modules_examples.Mem.Threads.Mask.{mask}
use dynamic_modules_examples.Mem.Threads.Chained.{
  Reached, Nexts, Nexts-KeepsAt, Nexts-Chain, Nexts-Reached,
}
use dynamic_modules_examples.Mem.Threads.Chained.Traced.{Traced, IsList-Traced}
use dynamic_modules_examples.Mem.Threads.Chained.Lines.{is_linked, linked-Nexts, IsChained-Nexts}
use dynamic_modules_examples.Mem.Threads.Invariant.{Inv, IsCalled, IsWorking, owns}
use dynamic_modules_examples.Mem.Threads.Safety.{Reach-Inv}

module _ {F : Type 0} where
  -- What the front leads to while a thread is inside: the old list, or the list after its call.
  IsWorking-Nexts :
      {h : Heap F} {front : Ptr} {xs : Cells F} {op : Op F} {p : Ptr} (l : Line)
      → IsWorking h front xs op p l
      → Nexts h front (if is_linked l then applied op p xs else xs)
  IsWorking-Nexts {h} {front} {xs} {op} {p} l w = elim (Bool-cases (is_linked l)) [
    | inl linked ↦
        let end = Nexts-Chain w.end_front w.result.chain w.result.front in
        let part =
          linked-Nexts w.rounds p l (mask (owns p xs) h) w.end_heap front w.end_front
            (applied op p xs) linked w.runs end in
        rw linked (
          Nexts-KeepsAt (mask (owns p xs) h) h front (applied op p xs) part
            (λ a i n there. (n, ground arith, refl, refl)))
    | inr before ↦ rw before (IsChained-Nexts h front xs p l w.chained before)
  ]

  -- A filter that is pinned stays in the list of a call that does not unpin it.
  find-applied :
      (h : Heap F) {old : Heap F} {before : Ptr} {xs : Cells F} (log : Log F) (op : Op F)
      (p q : Ptr) (l : Line) (f : F)
      → Chain old before xs
      → IsCalled h log (inside op p l)
      → (op ≡ unpin → p ≢ q)
      → replay log q ≡ some f
      → find q xs ≡ some f
      → find q (applied op p xs) ≡ some f
  find-applied h log (pin g) p q l f c called ne pinned found = ground arith
  find-applied h log unpin p q l f c called ne pinned found =
      let other = ne refl in ground (arith, find-erase p q c)

module _ {C F : Type 0} {s : System C F} {log : Log F} where
  working-find :
      (inv : Inv s log) (i : ℕ) (op : Op F) (p : Ptr) (l : Line)
      → s.pc i ≡ inside op p l
      → (q : Ptr) (f : F) → sharding_key p ≡ sharding_key q
      → (op ≡ unpin → p ≢ q)
      → replay log q ≡ some f
      → (xs : Cells F) × Nexts s.manager.filters (s.manager.http_filter_lists (sharding_key q)) xs
        × (find q xs ≡ some f)
  working-find inv i op p l at q f key ne pinned =
      let (held, w) = inv.working i op p l at in
      let called : IsCalled s.manager.filters log (inside op p l) = rw at at (inv.called i) in
      let found : find q (inv.fs (sharding_key p)) ≡ some f =
        ap (λ k. find q (inv.fs k)) key ∙ inv.placed.found q ∙ pinned in
      let list : Nexts s.manager.filters (s.manager.http_filter_lists (sharding_key q)) (
          if is_linked l then applied op p (inv.fs (sharding_key p)) else inv.fs (sharding_key p)) =
        rw (← key) (IsWorking-Nexts l w) in
      let later = find-applied s.manager.filters log op p q l f w.old called ne pinned found in
      (
        _,
        list,
        elim (Bool-cases (is_linked l)) [
          | inl linked ↦ rw linked later
          | inr before ↦ rw before found
        ],
      )

  pinned-find :
      (inv : Inv s log) (p : Ptr) (f : F)
      → replay log p ≡ some f
      → ((i : ℕ) (l : Line) → s.pc i ≢ inside unpin p l)
      → (xs : Cells F) × Nexts s.manager.filters (s.manager.http_filter_lists (sharding_key p)) xs
        × (find p xs ≡ some f)
  pinned-find inv p f pinned kept = elim (Bool-cases (s.locked (sharding_key p))) [
    | inl held ↦
        let (i, op, q, l, at, key) = inv.owner (sharding_key p) held in
        working-find inv i op q l at p f key
          (λ eo eq.
            kept i l (at ∙ ap (λ (o : Op F). inside o q l) eo ∙ ap (λ a. inside unpin a l) eq))
          pinned
    | inr open_lock ↦
        let list = inv.free (sharding_key p) open_lock in
        (_, Nexts-Chain _ list.chain list.front, inv.placed.found p ∙ pinned)
  ]

  module _ (r : Reach C F s log) where
    -- In every reachable state, also while threads are between two lines of the lists, a filter that is
    -- pinned, and that no thread is unpinning behind the mutex, is kept from the garbage collector: by
    -- `next` pointers it is reached from the front of its shard. `unwrapPinnedHttpFilter` at its
    -- address returns a node with that filter.
    pub Reach-Reached :
        (p : Ptr) (f : F)
        → replay log p ≡ some f
        → ((i : ℕ) (l : Line) → s.pc i ≢ inside unpin p l)
        → Reached s.manager.filters (s.manager.http_filter_lists (sharding_key p)) p
          × (n : LinkedList F) × (unwrap_pinned_http_filter s.manager p ≡ ok n)
          × (n.obj ≡ f)
    unfolding unwrap_pinned_http_filter
    Reach-Reached p f pinned kept =
        let (xs, list, found) = pinned-find (Reach-Inv r) p f pinned kept in
        Nexts-Reached s.manager.filters _ xs p f list found

    -- In every reachable state, an address that the garbage collector finds by `next` and `prev` from
    -- the front of a shard whose mutex no thread holds is that of a filter that is pinned, and the
    -- shard is the one of the address.
    pub Reach-Traced :
        (k : ℕ) (p : Ptr)
        → s.locked k ≡ false
        → Traced s.manager.filters (s.manager.http_filter_lists k) p
        → (sharding_key p ≡ k) × (f : F) × (replay log p ≡ some f)
    Reach-Traced k p open_lock traced =
        let inv = Reach-Inv r in
        let there = IsList-Traced p (inv.free k open_lock) traced in
        let key = inv.placed.placed k p there in
        let (f, found) = find_of_mem p (inv.fs k) there in
        (key, f, sym (inv.placed.found p) ∙ ap (λ j. find p (inv.fs j)) key ∙ found)
