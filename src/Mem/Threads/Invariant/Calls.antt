-- ===== src/Mem/Threads/Invariant/Calls.antt =====
-- A thread is called: the invariant stays.
use dynamic_modules_examples.Base.{
  ℕ, true, none, some, ◌≡◌, refl, ap, ◌∙◌, ◌==◌, ==_iff, arith, Bool-cases, inl, inr,
}
use dynamic_modules_examples.Mem.{Ptr, LinkedList, Heap, write}
use dynamic_modules_examples.Mem.Chain.{◌∈◌}
use dynamic_modules_examples.Mem.Sharding.{sharding_key}
use dynamic_modules_examples.Mem.Manager.Placed.{not-mem_of_unpinned}
use dynamic_modules_examples.Mem.Threads.{
  Line, Op, idle, waiting, inside, target, Log, replay, System, move, Untargeted,
}
use dynamic_modules_examples.Mem.Threads.Invariant.{
  Inv, IsCalled, owns, IsList-frame, IsWorking-frame, IsCalled-frame,
}

module _ {C F : Type 0} {s : System C F} {log : Log F} (inv : Inv s log) (i : ℕ) where
  open inv use {fs, placed, config_list, unique, called, free, working, alone, owner}

  -- A thread that goes from `idle` to `waiting` is inside neither before nor after.
  inside_before :
      (at : s.pc i ≡ idle) (op : Op F) (p : Ptr) (j : ℕ) {op' : Op F} {q : Ptr} {l : Line}
      → move C F s.pc i (waiting op p) j ≡ inside op' q l
      → s.pc j ≡ inside op' q l
  inside_before at op p j e = ground arith

  inside_after :
      (at : s.pc i ≡ idle) (op : Op F) (p : Ptr) (j : ℕ) {op' : Op F} {q : Ptr} {l : Line}
      → s.pc j ≡ inside op' q l
      → move C F s.pc i (waiting op p) j ≡ inside op' q l
  inside_after at op p j e = ground arith

  unique_after :
      (op : Op F) (p : Ptr)
      → Untargeted C F s p
      → (a b : ℕ) (q : Ptr) → target (move C F s.pc i (waiting op p) a) ≡ some q
      → target (move C F s.pc i (waiting op p) b) ≡ some q
      → a ≡ b
  unique_after op p alone_at a b q ea eb = ground (arith, unique a b q, alone_at a, alone_at b)

  -- A heap that agrees with the old one on the lists and at the addresses of the threads.
  pub record IsSpared (g : Heap F) : Type 0 where
    pub lists : (k : ℕ) (a : Ptr) → a ∈ fs k → g a ≡ s.manager.filters a
    pub targets : (j : ℕ) (a : Ptr) → target (s.pc j) ≡ some a → g a ≡ s.manager.filters a

  spared_owned :
      {g : Heap F} (spared : IsSpared g) (j : ℕ) (q : Ptr) (k : ℕ)
      → target (s.pc j) ≡ some q
      → (a : Ptr) → owns q (fs k) a ≡ true
      → g a ≡ s.manager.filters a
  spared_owned spared j q k at a own = elim (Bool-cases (q == a)) [
    | inl same ↦ spared.targets j a (at ∙ ap some ((==_iff q a).0 same))
    | inr other ↦ spared.lists k a (rw other at own)
  ]

  pub waiting-Inv :
      (op : Op F) (p : Ptr) {g : Heap F}
      → s.pc i ≡ idle
      → Untargeted C F s p
      → IsSpared g
      → IsCalled g log (waiting op p)
      → Inv
          (record s {
            manager = record s.manager { filters = g };
            pc = move C F s.pc i (waiting op p);
          })
          log
  waiting-Inv op p {g} at alone_at spared is = record {
    fs = fs;
    placed = placed;
    config_list = config_list;
    unique = unique_after op p alone_at;
    called = λ j. elim (Bool-cases (i == j)) [
      | inl same ↦ rw same is
      | inr other ↦
          rw other
            (IsCalled-frame log (s.pc j) (called j) (λ f a e. spared.targets j a (ap target e)))
    ];
    free = λ k open_lock. IsList-frame (free k open_lock) (spared.lists k);
    working = λ j op' q l e.
        let e' = inside_before at op p j e in
        let (held, w) = working j op' q l e' in
        (held, IsWorking-frame w (spared_owned spared j q (sharding_key q) (ap target e')));
    alone = λ j k op1 op2 p1 p2 l1 l2 e1 e2.
        alone j k op1 op2 p1 p2 l1 l2 (inside_before at op p j e1) (inside_before at op p k e2);
    owner = λ k held.
        let (j, op', q, l, e, key) = owner k held in (j, op', q, l, inside_after at op p j e, key);
  }

  pub fresh-IsSpared :
      {fresh : Ptr} (n : LinkedList F)
      → replay log fresh ≡ none
      → Untargeted C F s fresh
      → IsSpared (write s.manager.filters fresh n)
  unfolding write
  fresh-IsSpared {fresh} n unused alone_at = record {
    lists = λ k a here. ground (arith, not-mem_of_unpinned placed fresh k unused);
    targets = λ j a at. ground (arith, alone_at j);
  }

  pub same-IsSpared : IsSpared s.manager.filters
  same-IsSpared = record { lists = λ k a here. refl; targets = λ j a at. refl }
