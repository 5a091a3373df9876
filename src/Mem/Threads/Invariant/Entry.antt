-- ===== src/Mem/Threads/Invariant/Entry.antt =====
-- A thread takes the mutex of its shard: the invariant stays.
use dynamic_modules_examples.Base.{
  ℕ, true, false, some, ◌≡◌, ◌≢◌, sym, ap, ◌∙◌, ◌==◌, ==_iff, arith, Bool-cases, inl, inr, ◌⊎◌,
}
use dynamic_modules_examples.Mem.{Ptr}
use dynamic_modules_examples.Mem.Chain.{IsList}
use dynamic_modules_examples.Mem.Sharding.{sharding_key}
use dynamic_modules_examples.Mem.Manager.Placed.{mem_of_pinned, not-mem_of_unpinned}
use dynamic_modules_examples.Mem.Threads.{
  Line, first_line, Op, pin, unpin, Pc, waiting, inside, target, Log, System, move, set_lock,
}
use dynamic_modules_examples.Mem.Threads.Chained.{Nexts-Chain}
use dynamic_modules_examples.Mem.Threads.Chained.Lines.{IsChained}
use dynamic_modules_examples.Mem.Threads.Mask.{mask}
use dynamic_modules_examples.Mem.Threads.Alone.{IsReady, alone-IsList}
use dynamic_modules_examples.Mem.Threads.Invariant.{
  Inv, IsCalled, IsWorking, owns, IsList-frame, IsCalled-entered,
}

module _ {C F : Type 0} {s : System C F} {log : Log F} (inv : Inv s log) (i : ℕ) where
  open inv use {fs, placed, config_list, unique, called, free, working, alone, owner}

  ready :
      (op : Op F) (p : Ptr)
      → IsCalled s.manager.filters log (waiting op p)
      → IsReady (mask (owns p (fs (sharding_key p))) s.manager.filters) op p (fs (sharding_key p))
  ready (pin f) p (ne, unused, there) =
      (ne, ground arith, not-mem_of_unpinned placed p (sharding_key p) unused)
  ready unpin p (f, there) = mem_of_pinned placed there

  first_line-IsChained :
      (op : Op F) (p : Ptr) {front : Ptr}
      → IsCalled s.manager.filters log (waiting op p)
      → IsList s.manager.filters front (fs (sharding_key p))
      → IsChained s.manager.filters front (fs (sharding_key p)) p (first_line op)
  first_line-IsChained (pin f) p {front} (ne, unused, there) list = (
    Nexts-Chain front list.chain list.front,
    not-mem_of_unpinned placed p (sharding_key p) unused,
  )
  first_line-IsChained unpin p {front} is list = Nexts-Chain front list.chain list.front

  -- Alone with the list, the thread is four lines away from the list after its call.
  first_line-IsWorking :
      (op : Op F) (p : Ptr)
      → IsCalled s.manager.filters log (waiting op p)
      → s.locked (sharding_key p) ≡ false
      → IsWorking s.manager.filters
          (s.manager.http_filter_lists (sharding_key p))
          (fs (sharding_key p))
          op
          p
          (first_line op)
  first_line-IsWorking op p is open_lock =
      let key = sharding_key p in
      let list = free key open_lock in
      let masked =
        IsList-frame {g = mask (owns p (fs key)) s.manager.filters} list (λ a here. ground arith) in
      let (end_heap, end_front, runs, result) = alone-IsList op p masked (ready op p is) in
      record {
        rounds = 4;
        few = omega arith;
        end_heap = end_heap;
        end_front = end_front;
        runs = runs;
        result = result;
        old_heap = s.manager.filters;
        old = list.chain;
        chained = first_line-IsChained op p is list;
      }

  module _ (op : Op F) (p : Ptr) (at : s.pc i ≡ waiting op p)
      (open_lock : s.locked (sharding_key p) ≡ false) where
    abbrev entered : ℕ → Pc F
    entered = move C F s.pc i (inside op p (first_line op))

    target-entered : (j : ℕ) (q : Ptr) → target (entered j) ≡ some q → target (s.pc j) ≡ some q
    target-entered j q e = ground arith

    -- Whoever is inside is the thread that came in, or was inside before.
    inside_entered :
        (j : ℕ) {op' : Op F} {q : Ptr} {l : Line}
        → entered j ≡ inside op' q l
        → ((i ≡ j) × (op ≡ op') × (p ≡ q) × (first_line op ≡ l)) ⊎ (s.pc j ≡ inside op' q l)
    inside_entered j e = elim (Bool-cases (i == j)) [
      | inl same ↦ inl ((==_iff i j).0 same, ground arith, ground arith, ground arith)
      | inr other ↦ inr (ground arith)
    ]

    inside_still :
        (j : ℕ) {op' : Op F} {q : Ptr} {l : Line}
        → s.pc j ≡ inside op' q l
        → entered j ≡ inside op' q l
    inside_still j e = ground arith

    -- The shard of the thread that came in is not that of a thread that was inside.
    another_shard :
        (j : ℕ) {op' : Op F} {q : Ptr} {l : Line}
        → s.pc j ≡ inside op' q l
        → sharding_key p ≢ sharding_key q
    another_shard j {op'} {q} {l} e same =
        let (held, w) = working j op' q l e in
        let no : true ≡ false = sym held ∙ ap s.locked (sym same) ∙ open_lock in cc

    entered-alone :
        (a b : ℕ) (op1 op2 : Op F) (p1 p2 : Ptr) (l1 l2 : Line)
        → entered a ≡ inside op1 p1 l1
        → entered b ≡ inside op2 p2 l2
        → sharding_key p1 ≡ sharding_key p2
        → a ≡ b
    entered-alone a b op1 op2 p1 p2 l1 l2 e1 e2 same = elim (inside_entered a e1) [
      | inl (ia, o1, ep, f1) ↦ elim (inside_entered b e2) [
        | inl (ib, o2, ep2, f2) ↦ sym ia ∙ ib
        | inr before ↦ absurd (another_shard b before (ap sharding_key ep ∙ same))
      ]
      | inr before1 ↦ elim (inside_entered b e2) [
        | inl (ib, o2, ep2, f2) ↦ absurd (another_shard a before1 (ap sharding_key ep2 ∙ sym same))
        | inr before2 ↦ alone a b op1 op2 p1 p2 l1 l2 before1 before2 same
      ]
    ]

    entered-IsWorking :
        (j : ℕ) (op' : Op F) (q : Ptr) (l : Line)
        → entered j ≡ inside op' q l
        → (set_lock C F s.locked (sharding_key p) true (sharding_key q) ≡ true)
          × IsWorking s.manager.filters
              (s.manager.http_filter_lists (sharding_key q))
              (fs (sharding_key q))
              op'
              q
              l
    entered-IsWorking j op' q l e = elim (inside_entered j e) [
      | inl (ij, eo, ep, el) ↦
          rw (← eo, ← ep, ← el)
            (ground arith, first_line-IsWorking op p (rw at at (called i)) open_lock)
      | inr before ↦ let (held, w) = working j op' q l before in (ground arith, w)
    ]

    entered-owner :
        (k : ℕ)
        → set_lock C F s.locked (sharding_key p) true k ≡ true
        → (j : ℕ) × (op' : Op F) × (q : Ptr) × (l : Line) × (entered j ≡ inside op' q l)
          × (sharding_key q ≡ k)
    entered-owner k held = elim (Bool-cases (sharding_key p == k)) [
      | inl same ↦ (i, op, p, first_line op, ground arith, (==_iff (sharding_key p) k).0 same)
      | inr other ↦
          let (j, op', q, l, e, key) = owner k (rw other at held) in
          (j, op', q, l, inside_still j e, key)
    ]

    pub entered-Inv :
        Inv (record s { locked = set_lock C F s.locked (sharding_key p) true; pc = entered }) log
    entered-Inv = record {
      fs = fs;
      placed = placed;
      config_list = config_list;
      unique = λ a b q ea eb. unique a b q (target-entered a q ea) (target-entered b q eb);
      called = λ j. elim (Bool-cases (i == j)) [
        | inl same ↦
            rw same
              (IsCalled-entered s.manager.filters log op p (first_line op) (rw at at (called i)))
        | inr other ↦ rw other (called j)
      ];
      free = λ k still. free k (ground arith);
      working = entered-IsWorking;
      alone = entered-alone;
      owner = entered-owner;
    }
