-- ===== src/Mem/Threads/Invariant/Leave.antt =====
-- A thread returns and gives the mutex back.
use dynamic_modules_examples.Base.{
  ℕ, true, false, some, ◌∷◌, ◌≡◌, ◌≢◌, refl, sym, ap, ◌∙◌, if◌then◌else◌, ◌==◌, ==_iff, arith,
  Bool-cases, inl, inr,
}
use dynamic_modules_examples.Mem.{Ptr, Heap}
use dynamic_modules_examples.Mem.Chain.{Cells, ◌∈◌, Chain, IsList}
use dynamic_modules_examples.Mem.Sharding.{sharding_key}
use dynamic_modules_examples.Mem.Manager.{mem_of_mem-erase}
use dynamic_modules_examples.Mem.Manager.Placed.{IsPlaced, pin-IsPlaced, unpin-IsPlaced}
use dynamic_modules_examples.Mem.Threads.{
  Line, unlock, Op, pin, unpin, Pc, idle, inside, target, Log, replay, System, move, set_lock,
}
use dynamic_modules_examples.Mem.Threads.Mask.{mask}
use dynamic_modules_examples.Mem.Threads.Alone.{applied}
use dynamic_modules_examples.Mem.Threads.Invariant.{
  Inv, IsCalled, IsWorking, owns, IsList-frame, IsCalled-log,
}
use dynamic_modules_examples.Mem.Threads.Invariant.Work.{unlock-IsWorking}

module _ {F : Type 0} where
  mem_of_applied :
      (op : Op F) (p : Ptr) (xs : Cells F) (a : Ptr) → a ∈ applied op p xs → owns p xs a ≡ true
  mem_of_applied (pin f) p xs a here = ground arith
  mem_of_applied unpin p xs a here = ground (arith, mem_of_mem-erase a p xs here)

  pub replay_other :
      (op : Op F) (p : Ptr) (log : Log F) (a : Ptr)
      → p ≢ a
      → replay ((op, p) ∷ log) a ≡ replay log a
  unfolding replay
  replay_other (pin f) p log a ne = ground arith
  replay_other unpin p log a ne = ground arith

  applied-IsPlaced :
      {fs : ℕ → Cells F} (log : Log F) {h : Heap F} {before : Ptr} (op : Op F) (p : Ptr)
      → IsPlaced fs (replay log)
      → Chain h before (fs (sharding_key p))
      → IsPlaced
          (λ k. if sharding_key p == k then applied op p (fs (sharding_key p)) else fs k)
          (replay ((op, p) ∷ log))
  unfolding replay
  applied-IsPlaced log (pin f) p is c = pin-IsPlaced is p f
  applied-IsPlaced log unpin p is c = unpin-IsPlaced is p c

module _ {C F : Type 0} {s : System C F} {log : Log F} (inv : Inv s log) (i : ℕ) (op : Op F)
    (p : Ptr) (at : s.pc i ≡ inside op p unlock) where
  open inv use {fs, placed, config_list, unique, called, free, working, alone, owner}

  abbrev left : ℕ → Pc F
  left = move C F s.pc i idle

  abbrev lists : ℕ → Cells F
  lists k = if sharding_key p == k then applied op p (fs (sharding_key p)) else fs k

  target-left : (j : ℕ) (q : Ptr) → target (left j) ≡ some q → (i ≢ j) × (target (s.pc j) ≡ some q)
  target-left j q e = (ground arith, ground arith)

  inside_left :
      (j : ℕ) {op' : Op F} {q : Ptr} {l : Line}
      → left j ≡ inside op' q l
      → (i ≢ j) × (s.pc j ≡ inside op' q l)
  inside_left j e = (ground arith, ground arith)

  -- The list of the shard is the one after the call.
  applied-IsList :
      IsList s.manager.filters
        (s.manager.http_filter_lists (sharding_key p))
        (applied op p (fs (sharding_key p)))
  applied-IsList =
      let (held, w) = working i op p unlock at in
      let (part, front) = unlock-IsWorking w in
      let is : IsList (mask (owns p (fs (sharding_key p))) s.manager.filters)
          (s.manager.http_filter_lists (sharding_key p)) (applied op p (fs (sharding_key p))) =
        rw (part, front) w.result in
      IsList-frame is (λ a here. rw (mem_of_applied op p (fs (sharding_key p)) a here) refl)

  left-IsCalled : (j : ℕ) → IsCalled s.manager.filters ((op, p) ∷ log) (left j)
  left-IsCalled j = elim (Bool-cases (i == j)) [
    | inl same ↦ rw same tt
    | inr other ↦ rw other (
        IsCalled-log s.manager.filters log ((op, p) ∷ log) (s.pc j) (called j) (λ a e.
          replay_other op p log a (λ same.
            (let ij : i ≡ j = unique i j p (ap target at) (e ∙ ap some (sym same)) in
              ground arith))))
  ]

  left-free :
      (k : ℕ)
      → set_lock C F s.locked (sharding_key p) false k ≡ false
      → IsList s.manager.filters (s.manager.http_filter_lists k) (lists k)
  left-free k open_lock = elim (Bool-cases (sharding_key p == k)) [
    | inl same ↦ let e = (==_iff (sharding_key p) k).0 same in rw (same, ← e) applied-IsList
    | inr other ↦ rw other (free k (rw other at open_lock))
  ]

  left-IsWorking :
      (j : ℕ) (op' : Op F) (q : Ptr) (l : Line)
      → left j ≡ inside op' q l
      → (set_lock C F s.locked (sharding_key p) false (sharding_key q) ≡ true)
        × IsWorking s.manager.filters
            (s.manager.http_filter_lists (sharding_key q))
            (lists (sharding_key q))
            op'
            q
            l
  left-IsWorking j op' q l e =
      let (ne, before) = inside_left j e in
      let (held, w) = working j op' q l before in
      let apart : sharding_key p ≢ sharding_key q =
        λ same. ne (alone i j op op' p q unlock l at before same) in
      let there : (sharding_key p == sharding_key q) ≡ false = ground arith in rw there (held, w)

  left-owner :
      (k : ℕ)
      → set_lock C F s.locked (sharding_key p) false k ≡ true
      → (j : ℕ) × (op' : Op F) × (q : Ptr) × (l : Line) × (left j ≡ inside op' q l)
        × (sharding_key q ≡ k)
  left-owner k held =
      let was : s.locked k ≡ true = ground arith in
      let apart : sharding_key p ≢ k = ground arith in
      let (j, op', q, l, e, key) = owner k was in
      elim (Bool-cases (i == j)) [
        | inl same ↦ let ep : p ≡ q = ground arith in absurd (apart (ap sharding_key ep ∙ key))
        | inr other ↦ (j, op', q, l, ground arith, key)
      ]

  pub left-Inv :
      Inv
        (record s { locked = set_lock C F s.locked (sharding_key p) false; pc = left })
        ((op, p) ∷ log)
  left-Inv = record {
    fs = lists;
    placed = (let (held, w) = working i op p unlock at in applied-IsPlaced log op p placed w.old);
    config_list = config_list;
    unique = λ a b q ea eb. unique a b q (target-left a q ea).1 (target-left b q eb).1;
    called = left-IsCalled;
    free = left-free;
    working = left-IsWorking;
    alone = λ a b op1 op2 p1 p2 l1 l2 e1 e2.
        alone a b op1 op2 p1 p2 l1 l2 (inside_left a e1).1 (inside_left b e2).1;
    owner = left-owner;
  }
