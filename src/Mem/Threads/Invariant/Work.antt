-- ===== src/Mem/Threads/Invariant/Work.antt =====
-- A thread that holds the mutex runs a line: the invariant stays.
use dynamic_modules_examples.Base.{
  ℕ, zero, suc, ◌≤◌, true, false, some, ◌≡◌, ◌≢◌, refl, sym, ap, ◌∙◌, ◌==◌, ==_iff, arith,
  Bool-cases, inl, inr, ◌⊎◌,
}
use dynamic_modules_examples.Base.Outcome.{Outcome, ok, of_bind}
use dynamic_modules_examples.Mem.{Ptr, Heap, update}
use dynamic_modules_examples.Mem.Chain.{Cells, IsList}
use dynamic_modules_examples.Mem.Sharding.{sharding_key}
use dynamic_modules_examples.Mem.Manager.Placed.{not-mem_of_unpinned}
use dynamic_modules_examples.Mem.Threads.{
  Line, unlock, line, run_lines, Op, pin, Pc, waiting, inside, target, Log, System, move,
}
use dynamic_modules_examples.Mem.Threads.Chained.Lines.{line-IsChained}
use dynamic_modules_examples.Mem.Threads.Mask.{mask, line-mask}
use dynamic_modules_examples.Mem.Threads.Invariant.{
  Inv, IsCalled, IsWorking, owns, IsList-frame, IsWorking-frame, IsCalled-frame, IsCalled-inside,
}

unlock-run_lines :
    {F : Type 0} (n : ℕ) (p : Ptr) (h : Heap F) (front : Ptr)
    → run_lines n p unlock h front ≡ ok (unlock, h, front)
unfolding run_lines line
unlock-run_lines zero p h front = refl
unlock-run_lines (suc n) p h front = unlock-run_lines n p h front

module _ {F : Type 0} where
  -- A thread at its unlock has the list after its call.
  pub unlock-IsWorking :
      {h : Heap F} {front : Ptr} {xs : Cells F} {op : Op F} {p : Ptr}
      (w : IsWorking h front xs op p unlock)
      → (mask (owns p xs) h ≡ w.end_heap) × (front ≡ w.end_front)
  unlock-IsWorking {h} {front} {xs} {op} {p} w =
      let same : ◌≡◌ {A = Outcome (Line × Heap F × Ptr)} (ok (unlock, mask (owns p xs) h, front))
          (ok (unlock, w.end_heap, w.end_front)) =
        sym (unlock-run_lines w.rounds p (mask (owns p xs) h) front) ∙ w.runs in
      (cc, cc)

  -- The lines that are left, after one of them.
  abbrev Advances : Heap F → Cells F → Op F → Ptr → Line → Heap F → Ptr → Type 0
  Advances h xs op p l' h' front' =
      IsWorking h' front' xs op p l' × ((a : Ptr) → owns p xs a ≡ false → h' a ≡ h a)

  advance :
      (n : ℕ) {h h' : Heap F} {front front' : Ptr} {xs : Cells F} {op : Op F} {p : Ptr}
      {l l' : Line} (w : IsWorking h front xs op p l)
      → w.rounds ≡ n
      → line p l h front ≡ ok (l', h', front')
      → Advances h xs op p l' h' front'
  unfolding run_lines line
  advance zero {h} {h'} {front} {front'} {xs} {op} {p} {l} {l'} w en done =
      let ran : ◌≡◌ {A = Outcome (Line × Heap F × Ptr)} (ok (l, mask (owns p xs) h, front))
          (ok (unlock, w.end_heap, w.end_front)) =
        rw en at w.runs in
      let el : l ≡ unlock = cc in
      let same : ◌≡◌ {A = Outcome (Line × Heap F × Ptr)} (ok (unlock, h, front))
          (ok (l', h', front')) =
        rw el at done in
      let e1 : unlock ≡ l' = cc in
      let e2 : h ≡ h' = cc in
      let e3 : front ≡ front' = cc in rw (← e1, ← e2, ← e3) (rw el at w, λ a out. refl)
  advance (suc n) {h} {h'} {front} {front'} {xs} {op} {p} {l} {l'} w en done =
      let ran : run_lines (suc n) p l (mask (owns p xs) h) front
          ≡ ok (unlock, w.end_heap, w.end_front) =
        rw en at w.runs in
      let ((l1, g1, f1), rest, first) = of_bind (line p l (mask (owns p xs) h) front) ran in
      let (h1, done', is) = line-mask (owns p xs) p l l1 h g1 front f1 first in
      let same : ◌≡◌ {A = Outcome (Line × Heap F × Ptr)} (ok (l1, h1, f1)) (ok (l', h', front')) =
        sym done' ∙ done in
      let e1 : l1 ≡ l' = cc in
      let e2 : h1 ≡ h' = cc in
      let e3 : f1 ≡ front' = cc in
      let little : suc n ≤ 4 = rw en at w.few in
      rw (← e1, ← e2, ← e3)
        (
          record {
            rounds = n;
            few = omega arith;
            end_heap = w.end_heap;
            end_front = w.end_front;
            runs = rw is.part rest;
            result = w.result;
            old_heap = w.old_heap;
            old = w.old;
            chained = line-IsChained p l l1 h h1 front f1 xs w.chained done';
          },
          is.rest,
        )

module _ {C F : Type 0} {s : System C F} {log : Log F} (inv : Inv s log) (i : ℕ) (op : Op F)
    (p : Ptr) (l : Line) (at : s.pc i ≡ inside op p l) (l' : Line) (h : Heap F) (front : Ptr)
    (done : line p l s.manager.filters (s.manager.http_filter_lists (sharding_key p))
      ≡ ok (l', h, front)) where
  open inv use {fs, placed, config_list, unique, called, free, working, alone, owner}

  abbrev lists : ℕ → Ptr
  lists = update s.manager.http_filter_lists (sharding_key p) front

  abbrev worked : ℕ → Pc F
  worked = move C F s.pc i (inside op p l')

  advanced :
      IsWorking h front (fs (sharding_key p)) op p l'
      × ((a : Ptr) → owns p (fs (sharding_key p)) a ≡ false → h a ≡ s.manager.filters a)
  advanced = let (held, w) = working i op p l at in advance w.rounds w refl done

  target-worked : (j : ℕ) (q : Ptr) → target (worked j) ≡ some q → target (s.pc j) ≡ some q
  target-worked j q e = ground arith

  inside_worked :
      (j : ℕ) {op' : Op F} {q : Ptr} {m : Line}
      → worked j ≡ inside op' q m
      → ((i ≡ j) × (op ≡ op') × (p ≡ q) × (l' ≡ m)) ⊎ ((i ≢ j) × (s.pc j ≡ inside op' q m))
  inside_worked j e = elim (Bool-cases (i == j)) [
    | inl same ↦ inl ((==_iff i j).0 same, ground arith, ground arith, ground arith)
    | inr other ↦ inr (ground arith, ground arith)
  ]

  inside_earlier :
      (j : ℕ) {op' : Op F} {q : Ptr} {m : Line}
      → worked j ≡ inside op' q m
      → (m' : Line) × (s.pc j ≡ inside op' q m')
  inside_earlier j e = elim (inside_worked j e) [
    | inl (ij, eo, ep, el) ↦ (l, rw (← ij, ← eo, ← ep) at)
    | inr (other, before) ↦ (_, before)
  ]

  -- The addresses of the call are those of its shard.
  owned_shard :
      (q : Ptr) (a : Ptr) → owns q (fs (sharding_key q)) a ≡ true → sharding_key a ≡ sharding_key q
  owned_shard q a own = elim (Bool-cases (q == a)) [
    | inl same ↦ ap sharding_key (sym ((==_iff q a).0 same))
    | inr other ↦ placed.placed (sharding_key q) a (rw other at own)
  ]

  -- Outside the shard nothing changes.
  elsewhere : (a : Ptr) → sharding_key a ≢ sharding_key p → h a ≡ s.manager.filters a
  elsewhere a ne = elim (Bool-cases (owns p (fs (sharding_key p)) a)) [
    | inl own ↦ absurd (ne (owned_shard p a own))
    | inr out ↦ advanced.1 a out
  ]

  -- Nor does the node of a thread that waits to pin it.
  waiting_node :
      (j : ℕ) (f : F) (a : Ptr) → i ≢ j → s.pc j ≡ waiting (pin f) a → h a ≡ s.manager.filters a
  waiting_node j f a ne e =
      let other : p ≢ a =
        λ same. ne (unique i j p (ap target at) (ap target e ∙ ap some (sym same))) in
      let is : IsCalled s.manager.filters log (waiting (pin f) a) = rw e at (called j) in
      advanced.1 a (ground (arith, not-mem_of_unpinned placed a (sharding_key p) is.1))

  worked-IsCalled : (j : ℕ) → IsCalled h log (worked j)
  worked-IsCalled j = elim (Bool-cases (i == j)) [
    | inl same ↦ rw same (IsCalled-inside s.manager.filters h log op p l l' (rw at at (called i)))
    | inr other ↦
        let ne : i ≢ j = ground arith in
        rw other (IsCalled-frame log (s.pc j) (called j) (λ f a. waiting_node j f a ne))
  ]

  worked-free : (k : ℕ) → s.locked k ≡ false → IsList h (lists k) (fs k)
  worked-free k open_lock =
      let (held, w) = working i op p l at in
      let ne : sharding_key p ≢ k =
        λ same. (let no : true ≡ false = sym held ∙ ap s.locked same ∙ open_lock in cc) in
      let front_same : lists k ≡ s.manager.http_filter_lists k = ground arith in
      rw front_same (
        IsList-frame (free k open_lock)
          (λ a here. elsewhere a (λ same. ne (sym same ∙ placed.placed k a here))))

  worked-IsWorking :
      (j : ℕ) (op' : Op F) (q : Ptr) (m : Line)
      → worked j ≡ inside op' q m
      → (s.locked (sharding_key q) ≡ true)
        × IsWorking h (lists (sharding_key q)) (fs (sharding_key q)) op' q m
  worked-IsWorking j op' q m e = elim (inside_worked j e) [
    | inl (ij, eo, ep, el) ↦
        let here : lists (sharding_key p) ≡ front = ground arith in
        rw (← eo, ← ep, ← el, here) ((working i op p l at).0, advanced.0)
    | inr (ne, before) ↦
        let (held, w) = working j op' q m before in
        let apart : sharding_key q ≢ sharding_key p =
          λ same. ne (alone i j op op' p q l m at before (sym same)) in
        let there : lists (sharding_key q) ≡ s.manager.http_filter_lists (sharding_key q) =
          ground arith in
        (
          held,
          rw there (
              IsWorking-frame w
                (λ a own. elsewhere a (λ same. apart (sym (owned_shard q a own) ∙ same)))),
        )
  ]

  worked-owner :
      (k : ℕ)
      → s.locked k ≡ true
      → (j : ℕ) × (op' : Op F) × (q : Ptr) × (m : Line) × (worked j ≡ inside op' q m)
        × (sharding_key q ≡ k)
  worked-owner k held =
      let (j, op', q, m, e, key) = owner k held in
      elim (Bool-cases (i == j)) [
        | inl same ↦
            let ep : p ≡ q = ground arith in (i, op, p, l', ground arith, ap sharding_key ep ∙ key)
        | inr other ↦ (j, op', q, m, ground arith, key)
      ]

  pub worked-Inv :
      Inv
        (record s {
          manager = record s.manager { filters = h; http_filter_lists = lists };
          pc = worked;
        })
        log
  worked-Inv = record {
    fs = fs;
    placed = placed;
    config_list = config_list;
    unique = λ a b q ea eb. unique a b q (target-worked a q ea) (target-worked b q eb);
    called = worked-IsCalled;
    free = worked-free;
    working = worked-IsWorking;
    alone = λ a b op1 op2 p1 p2 l1 l2 e1 e2.
        let (m1, before1) = inside_earlier a e1 in
        let (m2, before2) = inside_earlier b e2 in alone a b op1 op2 p1 p2 m1 m2 before1 before2;
    owner = worked-owner;
  }
