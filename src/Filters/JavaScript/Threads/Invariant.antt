-- ===== src/Filters/JavaScript/Threads/Invariant.antt =====
-- What holds between two steps of the threads that run the scripts of go/javascript.go.
use dynamic_modules_examples.Base.{
  ℕ, Bool, true, false, List, [], ◌∷◌, ◌≡◌, ◌≢◌, sym, ap, ◌∙◌, if◌then◌else◌, ◌==◌, ==_iff, arith,
  Bool-cases, inl, inr, ◌⊎◌,
}
use dynamic_modules_examples.Host.{Host}
use dynamic_modules_examples.Sdk.{EnvoyHttpFilter}
use dynamic_modules_examples.Filters.JavaScript.Vm.{Goja, JavaScriptVm}
use dynamic_modules_examples.Filters.JavaScript.Threads.{
  Task, Work, begin, run_task, act, Pc, idle, waiting, running, Entry, System, move, set_lock,
  store_runtime,
}
use dynamic_modules_examples.Filters.JavaScript.Threads.Result.{result, result-act}

module _ (G : Goja) (H : Host) (vms : ℕ → JavaScriptVm G) where
  -- An interpreter after these runs, one after the other, the last one first.
  unfoldable pub replay : List (Entry G H) → ℕ → JavaScriptVm G
  replay [] v = vms v
  replay (entry ∷ past) v =
      let vm = replay past v in
      let (_, after, _) = result (begin G H vm entry.task) in
      if entry.vm == v then record vm { runtime = after } else vm

  -- Each of these runs left what it leaves alone, in any state of the host: the script started from
  -- the interpreter as the runs before had left it, and it ended with this error, this map, and the
  -- interpreter from which the next run started.
  unfoldable pub IsSerial : List (Entry G H) → Type 0
  IsSerial [] = Unit
  IsSerial (entry ∷ past) =
      ((e : EnvoyHttpFilter H.State) (s : H.State)
        → (let alone = run_task G H e (replay past entry.vm) entry.task s in
            (alone.error ≡ entry.error)
            × (alone.headers ≡ entry.headers)
            × (alone.vm ≡ (replay (entry ∷ past) entry.vm).runtime)))
      × IsSerial past

  pub record Inv (s : System G H) (past : List (Entry G H)) : Type 0 where
    pub stored : (v : ℕ) → s.locked v ≡ false → s.vms v ≡ replay past v
    pub same_functions :
        (v : ℕ) (r : G.Vm)
        → record (s.vms v) { runtime = r } ≡ record (replay past v) { runtime = r }
    pub serial : IsSerial past
    pub working :
        (i v : ℕ) (task : Task) (work : Work G.Vm)
        → s.pc i ≡ running v task work
        → (s.locked v ≡ true) × (result work ≡ result (begin G H (replay past v) task))
    pub alone :
        (i j v : ℕ) (task task' : Task) (work work' : Work G.Vm)
        → s.pc i ≡ running v task work
        → s.pc j ≡ running v task' work'
        → i ≡ j
    pub owner :
        (v : ℕ)
        → s.locked v ≡ true
        → (i : ℕ) × (task : Task) × (work : Work G.Vm) × (s.pc i ≡ running v task work)

  module _ {s : System G H} {past : List (Entry G H)} (inv : Inv s past) (i : ℕ) where
    open inv use {stored, same_functions, serial, working, alone, owner}

    -- Who runs after a move of thread `i` to a place that is not inside.
    pub outside :
        (to : Pc G H) (j : ℕ) {v : ℕ} {task : Task} {work : Work G.Vm}
        → ((v : ℕ) (task : Task) (work : Work G.Vm) → to ≢ running v task work)
        → move G H s.pc i to j ≡ running v task work
        → (i ≢ j) × (s.pc j ≡ running v task work)
    outside to j {v} {task} {work} out e = elim (Bool-cases (i == j)) [
      | inl same ↦ absurd (out v task work (rw same at e))
      | inr other ↦ (ground arith, rw other at e)
    ]

    pub called-Inv :
        (v : ℕ) (task : Task)
        → s.pc i ≡ idle
        → Inv (record s { pc = move G H s.pc i (waiting v task) }) past
    called-Inv v task at = record {
      stored = stored;
      same_functions = same_functions;
      serial = serial;
      working = λ j u t w e. working j u t w (outside (waiting v task) j (λ v t w e. cc) e).1;
      alone = λ j k u t t' w w' e e'.
          alone j k u t t' w w' (outside (waiting v task) j (λ v t w e. cc) e).1
            (outside (waiting v task) k (λ v t w e. cc) e').1;
      owner = λ u held. (let (j, t, w, there) = owner u held in (j, t, w, ground arith));
    }

    -- Who runs after thread `i` came to run `work` on the interpreter `v`.
    running_now :
        (v : ℕ) (task : Task) (work : Work G.Vm) (j : ℕ) {u : ℕ} {t : Task} {w : Work G.Vm}
        → move G H s.pc i (running v task work) j ≡ running u t w
        → ((i ≡ j) × (v ≡ u) × (task ≡ t) × (work ≡ w)) ⊎ ((i ≢ j) × (s.pc j ≡ running u t w))
    running_now v task work j e = elim (Bool-cases (i == j)) [
      | inl same ↦ inl ((==_iff i j).0 same, ground arith, ground arith, ground arith)
      | inr other ↦ inr (ground arith, rw other at e)
    ]

    -- What becomes of the interpreters when `v` is left dirty behind its mutex.
    dirty_stored :
        (v : ℕ) (dirty : G.Vm) (locked : ℕ → Bool)
        → locked v ≡ true
        → ((u : ℕ) → locked u ≡ false → s.locked u ≡ false)
        → (u : ℕ) → locked u ≡ false
        → store_runtime G H s.vms v dirty u ≡ replay past u
    dirty_stored v dirty locked held open_before u open_lock =
        let other : (v == u) ≡ false = ground arith in rw other (stored u (open_before u open_lock))

    dirty_functions :
        (v : ℕ) (dirty : G.Vm) (u : ℕ) (r : G.Vm)
        → record (store_runtime G H s.vms v dirty u) { runtime = r }
          ≡ record (replay past u) { runtime = r }
    dirty_functions v dirty u r = elim (Bool-cases (v == u)) [
      | inl here ↦ rw here (same_functions u r)
      | inr other ↦ rw other (same_functions u r)
    ]

    pub locks-Inv :
        (v : ℕ) (task : Task) (dirty : G.Vm)
        → s.pc i ≡ waiting v task
        → s.locked v ≡ false
        → Inv
            (record s {
              vms = store_runtime G H s.vms v dirty;
              locked = set_lock G H s.locked v true;
              pc = move G H s.pc i (running v task (begin G H (s.vms v) task));
            })
            past
    locks-Inv v task dirty at open_lock = record {
      stored =
          dirty_stored v dirty (set_lock G H s.locked v true) (ground arith)
            (λ u still. ground arith);
      same_functions = dirty_functions v dirty;
      serial = serial;
      working = λ j u t w e. elim (running_now v task (begin G H (s.vms v) task) j e) [
        | inl (ij, ev, et, ew) ↦
            rw (← ev, ← et, ← ew)
              (
                ground arith,
                ap (λ (m : JavaScriptVm G). result (begin G H m task)) (stored v open_lock),
              )
        | inr (ne, before) ↦ let (held, same) = working j u t w before in (ground arith, same)
      ];
      alone = λ j k u t t' w w' e e'. elim (running_now v task (begin G H (s.vms v) task) j e) [
        | inl (ij, ev, et, ew) ↦ elim (running_now v task (begin G H (s.vms v) task) k e') [
          | inl (ik, ev', et', ew') ↦ sym ij ∙ ik
          | inr (ne, before) ↦ absurd (not_held v open_lock k (rw (← ev) at before))
        ]
        | inr (ne, before) ↦ elim (running_now v task (begin G H (s.vms v) task) k e') [
          | inl (ik, ev', et', ew') ↦ absurd (not_held v open_lock j (rw (← ev') at before))
          | inr (ne', before') ↦ alone j k u t t' w w' before before'
        ]
      ];
      owner = λ u held. elim (Bool-cases (v == u)) [
        | inl here ↦ (i, task, begin G H (s.vms v) task, rw ((==_iff v u).0 here) (ground arith))
        | inr other ↦ (let (j, t, w, there) = owner u (rw other at held) in (j, t, w, ground arith))
      ];
    }
      where
        not_held :
            (v : ℕ)
            → s.locked v ≡ false
            → (j : ℕ) {t : Task} {w : Work G.Vm} → s.pc j ≢ running v t w
        not_held v open_lock j {t} {w} before =
            let (held, same) = working j v t w before in
            (let no : true ≡ false = sym held ∙ open_lock in cc)

    pub acts-Inv :
        (e : EnvoyHttpFilter H.State) (v : ℕ) (task : Task) (work : Work G.Vm) (dirty : G.Vm)
        → s.pc i ≡ running v task work
        → Inv
            (record s {
              vms = store_runtime G H s.vms v dirty;
              pc = move G H s.pc i (running v task (act G H e work s.host).0);
              host = (act G H e work s.host).1;
            })
            past
    acts-Inv e v task work dirty at = record {
      stored =
          dirty_stored v dirty s.locked (working i v task work at).0 (λ u open_lock. open_lock);
      same_functions = dirty_functions v dirty;
      serial = serial;
      working = λ j u t w there. elim (running_now v task (act G H e work s.host).0 j there) [
        | inl (ij, ev, et, ew) ↦
            let (held, same) = working i v task work at in
            rw (← ev, ← et, ← ew) (held, result-act G H e work s.host ∙ same)
        | inr (ne, before) ↦ working j u t w before
      ];
      alone = λ j k u t t' w w' there there'.
          (let (x, before) = still j there in
            let (y, before') = still k there' in alone j k u t t' x y before before');
      owner = λ u held.
          (let (j, t, w, there) = owner u held in
            elim (Bool-cases (i == j)) [
              | inl same ↦
                  let eu : v ≡ u = ground arith in
                  (i, task, (act G H e work s.host).0, rw eu (ground arith))
              | inr other ↦ (j, t, w, ground arith)
            ]);
    }
      where
        still :
            (j : ℕ) {u : ℕ} {t : Task} {w : Work G.Vm}
            → move G H s.pc i (running v task (act G H e work s.host).0) j ≡ running u t w
            → (x : Work G.Vm) × (s.pc j ≡ running u t x)
        still j there = elim (running_now v task (act G H e work s.host).0 j there) [
          | inl (ij, ev, et, ew) ↦ (work, rw (← ij, ← ev, ← et) at)
          | inr (ne, before) ↦ (_, before)
        ]
