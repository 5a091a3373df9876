-- ===== src/Filters/JavaScript/Threads/Progress.antt =====
-- A thread that waits for an interpreter of go/javascript.go gets it, and its handler returns.
use dynamic_modules_examples.Base.{
  ℕ, true, false, Option, some, List, [], ◌∷◌, ◌≡◌, ◌≢◌, refl, ◌∙◌, arith, Bool-cases, inl, inr,
}
use dynamic_modules_examples.Base.Bytes.{Bytes}
use dynamic_modules_examples.Base.GoMap.{GoMap, insert}
use dynamic_modules_examples.Host.{Host}
use dynamic_modules_examples.Sdk.{EnvoyHttpFilter}
use dynamic_modules_examples.Filters.JavaScript.Script.{
  undefined, Run, finished, log, call, RequestMethod, ResponseMethod,
}
use dynamic_modules_examples.Filters.JavaScript.Vm.{Goja, JavaScriptVm}
use dynamic_modules_examples.Filters.JavaScript.Threads.{
  Task, Work, request, response, begin, act, ended, idle, waiting, running, Entry, System, move,
  set_lock, report, store_runtime, locks, acts, returns, Reach, Steps, done, more,
}
use dynamic_modules_examples.Filters.JavaScript.Threads.Serial.{Reach-Inv}

module _ (G : Goja) (H : Host) (e : ℕ → EnvoyHttpFilter H.State) where
  append-Steps :
      {s t u : System G H} {past past' past'' : List (Entry G H)}
      → Steps G H e s past t past'
      → Steps G H e t past' u past''
      → Steps G H e s past u past''
  append-Steps done rest = rest
  append-Steps (more step steps) rest = more step (append-Steps steps rest)

  -- The handler of thread `i` returns, and the other threads stand where they stood.
  record Returned (s : System G H) (past : List (Entry G H)) (i v : ℕ) (task : Task) : Type 0 where
    after : System G H
    entry : Entry G H
    steps : Steps G H e s past after (entry ∷ past)
    of_task : entry.task ≡ task
    gone : after.pc i ≡ idle
    others : (j : ℕ) → i ≢ j → after.pc j ≡ s.pc j
    open_lock : after.locked v ≡ false

  module _ (i v : ℕ) (task : Task) where
    -- One call of the script, and the rest.
    forward :
        {s : System G H} {past : List (Entry G H)} (work work' : Work G.Vm)
        → s.pc i ≡ running v task work
        → ((host : H.State) → (act G H (e i) work host).0 ≡ work')
        → ((t : System G H) → t.pc i ≡ running v task work' → Returned t past i v task)
        → Returned s past i v task
    forward {s} work work' at next rest =
        let t : System G H = record s {
          vms = store_runtime G H s.vms v (s.vms v).runtime;
          pc = move G H s.pc i (running v task (act G H (e i) work s.host).0);
          host = (act G H (e i) work s.host).1;
        } in
        let next_here = next s.host in
        let r = rest t (ground arith) in
        record {
          after = r.after;
          entry = r.entry;
          steps = more (acts i v task work (s.vms v).runtime at) r.steps;
          of_task = r.of_task;
          gone = r.gone;
          others = λ j ne. r.others j ne ∙ ground arith;
          open_lock = r.open_lock;
        }

    finish :
        {s : System G H} {past : List (Entry G H)} (work : Work G.Vm) (error : Option Bytes)
        (vm : G.Vm) (headers : GoMap Bytes)
        → s.pc i ≡ running v task work
        → ended G H work ≡ some (error, vm, headers)
        → Returned s past i v task
    finish {s} work error vm headers at over = record {
      after = record s {
        vms = store_runtime G H s.vms v vm;
        locked = set_lock G H s.locked v false;
        pc = move G H s.pc i idle;
        host = report G H (e i) task error s.host;
      };
      entry = record { vm = v; task = task; error = error; headers = headers };
      steps = more (returns i v task work error vm headers at over) done;
      of_task = refl;
      gone = ground arith;
      others = λ j ne. ground arith;
      open_lock = ground arith;
    }

    leave_request :
        (run : Run RequestMethod G.Vm) (headers : GoMap Bytes) (s : System G H)
        {past : List (Entry G H)}
        → s.pc i ≡ running v task (request run headers)
        → Returned s past i v task
    unfolding act
    leave_request (finished error vm) headers s at = finish _ error vm headers at refl
    leave_request (log text next) headers s at =
        forward _ _ at (λ host. refl) (λ t at'. leave_request next headers t at')
    leave_request (call RequestMethod.get_request_header [] next) headers s at =
        forward _ _ at (λ host. refl) (λ t at'. leave_request (next _) headers t at')
    leave_request (call RequestMethod.get_request_header (key ∷ _) next) headers s at =
        forward _ _ at (λ host. refl) (λ t at'. leave_request (next _) headers t at')
    leave_request (call RequestMethod.set_request_header [] next) headers s at =
        forward _ _ at (λ host. refl) (λ t at'. leave_request (next undefined) headers t at')
    leave_request (call RequestMethod.set_request_header (_ ∷ []) next) headers s at =
        forward _ _ at (λ host. refl) (λ t at'. leave_request (next undefined) headers t at')
    leave_request (call RequestMethod.set_request_header (key ∷ value ∷ _) next) headers s at =
        forward _ _ at (λ host. refl)
          (λ t at'. leave_request (next undefined) (insert key value headers) t at')

    leave_response :
        (run : Run ResponseMethod G.Vm) (requested headers : GoMap Bytes) (s : System G H)
        {past : List (Entry G H)}
        → s.pc i ≡ running v task (response run requested headers)
        → Returned s past i v task
    unfolding act
    leave_response (finished error vm) requested headers s at = finish _ error vm headers at refl
    leave_response (log text next) requested headers s at =
        forward _ _ at (λ host. refl) (λ t at'. leave_response next requested headers t at')
    leave_response (call ResponseMethod.get_request_header [] next) requested headers s at =
        forward _ _ at (λ host. refl) (λ t at'. leave_response (next _) requested headers t at')
    leave_response (call ResponseMethod.get_request_header (key ∷ _) next) requested headers s at =
        forward _ _ at (λ host. refl) (λ t at'. leave_response (next _) requested headers t at')
    leave_response (call ResponseMethod.get_response_header [] next) requested headers s at =
        forward _ _ at (λ host. refl) (λ t at'. leave_response (next _) requested headers t at')
    leave_response (call ResponseMethod.get_response_header (key ∷ _) next) requested headers s at =
        forward _ _ at (λ host. refl) (λ t at'. leave_response (next _) requested headers t at')
    leave_response (call ResponseMethod.set_response_header [] next) requested headers s at =
        forward _ _ at (λ host. refl)
          (λ t at'. leave_response (next undefined) requested headers t at')
    leave_response (call ResponseMethod.set_response_header (_ ∷ []) next) requested headers s at =
        forward _ _ at (λ host. refl)
          (λ t at'. leave_response (next undefined) requested headers t at')
    leave_response (call ResponseMethod.set_response_header (key ∷ value ∷ _) next) requested
          headers s at =
        forward _ _ at (λ host. refl)
          (λ t at'. leave_response (next undefined) requested (insert key value headers) t at')

    leave :
        (work : Work G.Vm) (s : System G H) {past : List (Entry G H)}
        → s.pc i ≡ running v task work
        → Returned s past i v task
    leave (request run headers) s at = leave_request run headers s at
    leave (response run requested headers) s at = leave_response run requested headers s at

    enter_and_leave :
        (s : System G H) {past : List (Entry G H)}
        → s.pc i ≡ waiting v task
        → s.locked v ≡ false
        → Returned s past i v task
    enter_and_leave s at open_lock =
        let work = begin G H (s.vms v) task in
        let r =
          leave work
            (record s {
              vms = store_runtime G H s.vms v (s.vms v).runtime;
              locked = set_lock G H s.locked v true;
              pc = move G H s.pc i (running v task work);
            })
            (ground arith) in
        record {
          after = r.after;
          entry = r.entry;
          steps = more (locks i v task (s.vms v).runtime at open_lock) r.steps;
          of_task = r.of_task;
          gone = r.gone;
          others = λ j ne. r.others j ne ∙ ground arith;
          open_lock = r.open_lock;
        }

  -- From every state that threads reach on a pool of interpreters, with scripts that end, steps lead
  -- to the return of the handler of a thread that waits for an interpreter.
  pub Reach-returns :
      (vms : ℕ → JavaScriptVm G) {s : System G H} {past : List (Entry G H)}
      → Reach G H e vms s past
      → (i v : ℕ) (task : Task) → s.pc i ≡ waiting v task
      → (t : System G H) × (entry : Entry G H) × (past' : List (Entry G H)) × Steps G H e s past t
          (entry ∷ past')
        × (entry.task ≡ task)
        × (t.pc i ≡ idle)
  Reach-returns vms {s} {past} r i v task at = elim (Bool-cases (s.locked v)) [
    | inr open_lock ↦
        let mine = enter_and_leave i v task s {past = past} at open_lock in
        (mine.after, mine.entry, past, mine.steps, mine.of_task, mine.gone)
    | inl held ↦
        let (j, task', work, there) = (Reach-Inv G H vms e r).owner v held in
        let first = leave j v task' work s {past = past} there in
        let still = first.others i (λ same. ground arith) ∙ at in
        let mine =
          enter_and_leave i v task first.after {past = first.entry ∷ past} still first.open_lock in
        (
          mine.after,
          mine.entry,
          first.entry ∷ past,
          append-Steps first.steps mine.steps,
          mine.of_task,
          mine.gone,
        )
  ]
