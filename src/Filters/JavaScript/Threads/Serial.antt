-- ===== src/Filters/JavaScript/Threads/Serial.antt =====
-- The interpreters of go/javascript.go are used one run after the other.
use dynamic_modules_examples.Base.{
  ℕ, true, false, Option, some, List, ◌∷◌, ◌≡◌, ◌≢◌, refl, sym, ap, ◌∙◌, ◌==◌, ==_iff, arith,
  Bool-cases, inl, inr,
}
use dynamic_modules_examples.Base.Bytes.{Bytes}
use dynamic_modules_examples.Base.GoMap.{GoMap}
use dynamic_modules_examples.Host.{Host}
use dynamic_modules_examples.Sdk.{EnvoyHttpFilter}
use dynamic_modules_examples.Filters.JavaScript.Vm.{Goja, JavaScriptVm}
use dynamic_modules_examples.Filters.JavaScript.Threads.{
  Task, Work, begin, ended, idle, running, Entry, System, move, set_lock, store_runtime, Step,
  called, locks, acts, returns, Reach, start, later,
}
use dynamic_modules_examples.Filters.JavaScript.Threads.Result.{
  Left, result, run_task-result, result-ended,
}
use dynamic_modules_examples.Filters.JavaScript.Threads.Invariant.{
  replay, IsSerial, Inv, outside, called-Inv, locks-Inv, acts-Inv,
}

module _ (G : Goja) (H : Host) (vms : ℕ → JavaScriptVm G) where
  module _ {s : System G H} {past : List (Entry G H)} (inv : Inv G H vms s past) (i : ℕ) where
    open inv use {stored, same_functions, serial, working, alone, owner}

    returns-Inv :
        (host : H.State) (v : ℕ) (task : Task) (work : Work G.Vm) (error : Option Bytes) (vm : G.Vm)
        (headers : GoMap Bytes)
        → s.pc i ≡ running v task work
        → ended G H work ≡ some (error, vm, headers)
        → Inv G H vms
            (record s {
              vms = store_runtime G H s.vms v vm;
              locked = set_lock G H s.locked v false;
              pc = move G H s.pc i idle;
              host = host;
            })
            (record { vm = v; task = task; error = error; headers = headers } ∷ past)
    unfolding replay IsSerial
    returns-Inv host v task work error vm headers at over =
        let (held, same) = working i v task work at in
        let left : result (begin G H (replay G H vms past v) task) ≡ (error, vm, headers) =
          sym same ∙ result-ended G H work over in
        let after_run : (k : ℕ)
            → v ≡ k
            → replay G H vms
                (record { vm = v; task = task; error = error; headers = headers } ∷ past) k
              ≡ record (replay G H vms past k) { runtime = vm } =
          λ k here.
            let at_k : result (begin G H (replay G H vms past k) task) ≡ (error, vm, headers) =
              rw here at left in
            let same_k : (v == k) ≡ true = ground arith in rw (same_k, at_k) refl in
        record {
          stored = λ k open_lock. elim (Bool-cases (v == k)) [
            | inl here ↦ rw here (same_functions k vm) ∙ sym (after_run k ((==_iff v k).0 here))
            | inr other ↦ rw other (stored k (rw other at open_lock))
          ];
          same_functions = λ k r. elim (Bool-cases (v == k)) [
            | inl here ↦
                rw here (same_functions k r)
                ∙ ap (λ (m : JavaScriptVm G). record m { runtime = r })
                    (sym (after_run k ((==_iff v k).0 here)))
            | inr other ↦ rw other (same_functions k r)
          ];
          serial = (
            λ e s0.
                (let ran = run_task-result G H e (replay G H vms past v) task s0 ∙ left in
                  let here : (v == v) ≡ true = ground arith in
                  (
                    ap (λ (l : Left G.Vm). l.0) ran,
                    ap (λ (l : Left G.Vm). l.2) ran,
                    ap (λ (l : Left G.Vm). l.1) ran ∙ rw (here, left) refl,
                  )),
            serial,
          );
          working = λ j u t w there.
              (let (ne, before) = outside G H vms inv i idle j (λ v t w e. cc) there in
                let (held_u, same_u) = working j u t w before in
                let apart : v ≢ u = λ vu. ne (alone i j u task t work w (rw vu at at) before) in
                let other : (v == u) ≡ false = ground arith in rw other (held_u, same_u));
          alone = λ j k u t t' w w' there there'.
              alone j k u t t' w w' (outside G H vms inv i idle j (λ v t w e. cc) there).1
                (outside G H vms inv i idle k (λ v t w e. cc) there').1;
          owner = λ u held'.
              (let apart : v ≢ u = ground arith in
                let (j, t, w, there) = owner u (ground arith) in
                elim (Bool-cases (i == j)) [
                  | inl same ↦ (let eu : v ≡ u = ground arith in absurd (apart eu))
                  | inr other ↦ (j, t, w, ground arith)
                ]);
        }

  pub Step-Inv :
      (e : ℕ → EnvoyHttpFilter H.State) {s t : System G H} {past past' : List (Entry G H)}
      → Inv G H vms s past
      → Step G H e s past t past'
      → Inv G H vms t past'
  Step-Inv e inv (called i v task at) = called-Inv G H vms inv i v task at
  Step-Inv e inv (locks i v task dirty at open_lock) =
      locks-Inv G H vms inv i v task dirty at open_lock
  Step-Inv e inv (acts i v task work dirty at) = acts-Inv G H vms inv i (e i) v task work dirty at
  Step-Inv e inv (returns i v task work error vm headers at over) =
      returns-Inv inv i _ v task work error vm headers at over

  pub Reach-Inv :
      (e : ℕ → EnvoyHttpFilter H.State) {s : System G H} {past : List (Entry G H)}
      → Reach G H e vms s past
      → Inv G H vms s past
  unfolding replay IsSerial
  Reach-Inv e (start s) = record {
    stored = λ v open_lock. refl;
    same_functions = λ v r. refl;
    serial = tt;
    working = λ i v task work h. cc;
    alone = λ i j v task task' work work' h h'. cc;
    owner = λ v h. cc;
  }
  Reach-Inv e (later r step) = Step-Inv e (Reach-Inv e r) step

  -- In whatever order threads run scripts on a pool of interpreters, each run that has returned left
  -- what it leaves alone when it starts from the interpreter as the runs that returned before had left
  -- it.
  pub Reach-IsSerial :
      (e : ℕ → EnvoyHttpFilter H.State) {s : System G H} {past : List (Entry G H)}
      → Reach G H e vms s past
      → IsSerial G H vms past
  Reach-IsSerial e r = (Reach-Inv e r).serial

  -- In every state that threads reach on a pool of interpreters, an interpreter whose mutex no thread
  -- holds stands as the runs that have returned left it, one after the other, whatever state it was in
  -- while they ran.
  pub Reach-replay :
      (e : ℕ → EnvoyHttpFilter H.State) {s : System G H} {past : List (Entry G H)}
      → Reach G H e vms s past
      → (v : ℕ) → s.locked v ≡ false
      → s.vms v ≡ replay G H vms past v
  Reach-replay e r = (Reach-Inv e r).stored
