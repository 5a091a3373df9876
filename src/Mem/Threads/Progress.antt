-- ===== src/Mem/Threads/Progress.antt =====
-- Threads behind a mutex get out again, and threads before one get in.
use dynamic_modules_examples.Base.{
  ℕ, zero, suc, ◌≤◌, ◌<◌, false, ◌∷◌, ◌≡◌, ◌≢◌, refl, sym, ap, ◌∙◌, arith, Bool-cases, inl, inr,
  ◌⊎◌,
}
use dynamic_modules_examples.Base.Outcome.{Outcome, ok, of_bind}
use dynamic_modules_examples.Mem.{Ptr, Heap, load, set_next, set_prev}
use dynamic_modules_examples.Mem.Chain.{Cells}
use dynamic_modules_examples.Mem.Sharding.{sharding_key}
use dynamic_modules_examples.Mem.Threads.{
  Line, pin_next, pin_test, pin_back, pin_front, unpin_test, unpin_link, unpin_front,
  unpin_test_next, unpin_back, unlock, line, run_lines, lines_left, first_line, Op, pin, unpin,
  idle, waiting, inside, Log, System, move, set_lock, lock, go_on, release, Reach, Steps, done,
  more,
}
use dynamic_modules_examples.Mem.Threads.Mask.{mask, line-mask}
use dynamic_modules_examples.Mem.Threads.Invariant.{Inv, IsWorking, owns}
use dynamic_modules_examples.Mem.Threads.Safety.{Step-Inv, Reach-Inv}

at_unlock : (l : Line) → (l ≡ unlock) ⊎ (l ≢ unlock)
at_unlock pin_next = inr (λ e. cc)
at_unlock pin_test = inr (λ e. cc)
at_unlock pin_back = inr (λ e. cc)
at_unlock pin_front = inr (λ e. cc)
at_unlock unpin_test = inr (λ e. cc)
at_unlock unpin_link = inr (λ e. cc)
at_unlock unpin_front = inr (λ e. cc)
at_unlock unpin_test_next = inr (λ e. cc)
at_unlock unpin_back = inr (λ e. cc)
at_unlock unlock = inl refl

module _ {F : Type 0} where
  -- Every line but the last leaves fewer.
  line-lines_left :
      (p : Ptr) (l l' : Line) (h h' : Heap F) (front front' : Ptr)
      → l ≢ unlock
      → line p l h front ≡ ok (l', h', front')
      → lines_left l' < lines_left l
  unfolding line
  line-lines_left p pin_next l' h h' front front' ne e =
      let (h1, e1, ran) = of_bind (set_next h p front) e in ground arith
  line-lines_left p pin_test l' h h' front front' ne e = ground arith
  line-lines_left p pin_back l' h h' front front' ne e =
      let (h1, e1, ran) = of_bind (set_prev h front p) e in ground arith
  line-lines_left p pin_front l' h h' front front' ne e = ground arith
  line-lines_left p unpin_test l' h h' front front' ne e =
      let (n, e1, there) = of_bind (load h p) e in ground arith
  line-lines_left p unpin_link l' h h' front front' ne e =
      let (n, e1, there) = of_bind (load h p) e in
      let (h1, e2, ran) = of_bind (set_next h n.prev n.next) e1 in ground arith
  line-lines_left p unpin_front l' h h' front front' ne e =
      let (n, e1, there) = of_bind (load h p) e in ground arith
  line-lines_left p unpin_test_next l' h h' front front' ne e =
      let (n, e1, there) = of_bind (load h p) e in ground arith
  line-lines_left p unpin_back l' h h' front front' ne e =
      let (n, e1, there) = of_bind (load h p) e in
      let (h1, e2, ran) = of_bind (set_prev h n.next n.prev) e1 in ground arith
  line-lines_left p unlock l' h h' front front' ne e = ground (arith, ne refl)

  -- The line of a thread that works runs, whatever the heap is elsewhere.
  IsWorking-line :
      (n : ℕ) {h : Heap F} {front : Ptr} {xs : Cells F} {op : Op F} {p : Ptr} (l : Line)
      (w : IsWorking h front xs op p l)
      → w.rounds ≡ n
      → l ≢ unlock
      → (l' : Line) × (h' : Heap F) × (front' : Ptr) × (line p l h front ≡ ok (l', h', front'))
  unfolding run_lines
  IsWorking-line zero {h} {front} {xs} {p} l w en before =
      let ran : ◌≡◌ {A = Outcome (Line × Heap F × Ptr)} (ok (l, mask (owns p xs) h, front))
          (ok (unlock, w.end_heap, w.end_front)) =
        rw en at w.runs in
      let last : l ≡ unlock = cc in absurd (before last)
  IsWorking-line (suc n) {h} {front} {xs} {p} l w en before =
      let ran : run_lines (suc n) p l (mask (owns p xs) h) front
          ≡ ok (unlock, w.end_heap, w.end_front) =
        rw en at w.runs in
      let ((l1, g1, f1), rest, first) = of_bind (line p l (mask (owns p xs) h) front) ran in
      let (h1, e, is) = line-mask (owns p xs) p l l1 h g1 front f1 first in (l1, h1, f1, e)

module _ {C F : Type 0} where
  append-Steps :
      {s t u : System C F} {log log' log'' : Log F}
      → Steps C F s log t log'
      → Steps C F t log' u log''
      → Steps C F s log u log''
  append-Steps done rest = rest
  append-Steps (more step steps) rest = more step (append-Steps steps rest)

  Steps-Inv :
      {s t : System C F} {log log' : Log F} → Inv s log → Steps C F s log t log' → Inv t log'
  Steps-Inv inv done = inv
  Steps-Inv inv (more step steps) = Steps-Inv (Step-Inv inv step) steps

  -- The next line of a thread that is inside, in any state of the others.
  Inv-line :
      {s : System C F} {log : Log F} (inv : Inv s log) (i : ℕ) (op : Op F) (p : Ptr) (l : Line)
      → s.pc i ≡ inside op p l
      → l ≢ unlock
      → (l' : Line) × (h : Heap F) × (front : Ptr) × (line p l s.manager.filters
            (s.manager.http_filter_lists (sharding_key p))
          ≡ ok (l', h, front))
        × (lines_left l' < lines_left l)
  Inv-line {s} inv i op p l at ne =
      let (held, w) = inv.working i op p l at in
      let (l', h, front, e) = IsWorking-line w.rounds l w refl ne in
      (
        l',
        h,
        front,
        e,
        line-lines_left p l l' s.manager.filters h (s.manager.http_filter_lists (sharding_key p))
            front ne e,
      )

  -- The call of thread `i` returns, and the other threads stand where they stood.
  record Returned (s : System C F) (log : Log F) (i : ℕ) (op : Op F) (p : Ptr) : Type 0 where
    after : System C F
    steps : Steps C F s log after ((op, p) ∷ log)
    gone : after.pc i ≡ idle
    others : (j : ℕ) → i ≢ j → after.pc j ≡ s.pc j
    open_lock : after.locked (sharding_key p) ≡ false

  released :
      {s : System C F} {log : Log F} (i : ℕ) (op : Op F) (p : Ptr)
      → s.pc i ≡ inside op p unlock
      → Returned s log i op p
  released {s} i op p at = record {
    after = record s {
      locked = set_lock C F s.locked (sharding_key p) false;
      pc = move C F s.pc i idle;
    };
    steps = more (release i op p at) done;
    gone = ground arith;
    others = λ j ne. ground arith;
    open_lock = ground arith;
  }

  -- A thread that is inside gets out by its own lines.
  leave :
      (n : ℕ) {s : System C F} {log : Log F} (inv : Inv s log) (i : ℕ) (op : Op F) (p : Ptr)
      (l : Line)
      → s.pc i ≡ inside op p l
      → lines_left l ≤ n
      → Returned s log i op p
  leave zero inv i op p l at few = elim (at_unlock l) [
    | inl last ↦ released i op p (rw last at at)
    | inr before ↦
        (let (l', h, front, e, less) = Inv-line inv i op p l at before in absurd (omega arith))
  ]
  leave (suc n) inv i op p l at few = elim (at_unlock l) [
    | inl last ↦ released i op p (rw last at at)
    | inr before ↦
        let (l', h, front, e, less) = Inv-line inv i op p l at before in
        let step = go_on i op p l l' h front at before e in
        let rest = leave n (Step-Inv inv step) i op p l' (ground arith) (omega arith) in
        record {
          after = rest.after;
          steps = more step rest.steps;
          gone = rest.gone;
          others = λ j ne. rest.others j ne ∙ ground arith;
          open_lock = rest.open_lock;
        }
  ]

  -- A thread that waits gets in, after the thread that holds the mutex.
  enter_and_leave :
      {s : System C F} {log : Log F} (inv : Inv s log) (i : ℕ) (op : Op F) (p : Ptr)
      → s.pc i ≡ waiting op p
      → s.locked (sharding_key p) ≡ false
      → Returned s log i op p
  enter_and_leave inv i op p at open_lock =
      let step = lock i op p at open_lock in
      let rest = leave 4 (Step-Inv inv step) i op p (first_line op) (ground arith) (few op) in
      record {
        after = rest.after;
        steps = more step rest.steps;
        gone = rest.gone;
        others = λ j ne. rest.others j ne ∙ ground arith;
        open_lock = rest.open_lock;
      }
    where
      few : (op : Op F) → lines_left (first_line op) ≤ 4
      few (pin f) = omega arith
      few unpin = omega arith

  module _ {s : System C F} {log : Log F} (r : Reach C F s log) where
    -- In every reachable state the next line of a thread that is behind a mutex, and not at the unlock
    -- yet, runs without a panic, and the lines that are left, at most four, become fewer.
    pub Reach-line :
        (i : ℕ) (op : Op F) (p : Ptr) (l : Line)
        → s.pc i ≡ inside op p l
        → l ≢ unlock
        → (l' : Line) × (h : Heap F) × (front : Ptr) × (line p l s.manager.filters
              (s.manager.http_filter_lists (sharding_key p))
            ≡ ok (l', h, front))
          × (lines_left l' < lines_left l)
          × (lines_left l ≤ 4)
    Reach-line i op p l at ne =
        let (l', h, front, e, less) = Inv-line (Reach-Inv r) i op p l at ne in
        (l', h, front, e, less, at_most l)
      where
        at_most : (l : Line) → lines_left l ≤ 4
        at_most l = ground arith

    -- From every reachable state, steps lead to the return of the call of a thread that waits before a
    -- mutex.
    pub Reach-return :
        (i : ℕ) (op : Op F) (p : Ptr)
        → s.pc i ≡ waiting op p
        → (t : System C F) × (log' : Log F) × Steps C F s log t ((op, p) ∷ log') × (t.pc i ≡ idle)
    Reach-return i op p at = elim (Bool-cases (s.locked (sharding_key p))) [
      | inr open_lock ↦
          let mine = enter_and_leave (Reach-Inv r) i op p at open_lock in
          (mine.after, log, mine.steps, mine.gone)
      | inl held ↦
          let (j, op', q, l, e, key) = (Reach-Inv r).owner (sharding_key p) held in
          let first = leave (lines_left l) (Reach-Inv r) j op' q l e (omega arith) in
          let still = first.others i (λ same. ground arith) ∙ at in
          let open_now : first.after.locked (sharding_key p) ≡ false =
            ap first.after.locked (sym key) ∙ first.open_lock in
          let mine = enter_and_leave (Steps-Inv (Reach-Inv r) first.steps) i op p still open_now in
          (mine.after, (op', q) ∷ log, append-Steps first.steps mine.steps, mine.gone)
    ]
