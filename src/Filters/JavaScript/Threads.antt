-- ===== src/Filters/JavaScript/Threads.antt =====
-- The scripts of go/javascript.go on several threads: a thread takes the mutex of the interpreter of
-- its filter, runs the script, and other threads run between two calls that the script makes.
pub mod Invariant
pub mod Serial
pub mod Result
pub mod Progress
use dynamic_modules_examples.Base.{
  ℕ, Bool, true, false, Option, none, some, List, [], ◌∷◌, ◌≡◌, if◌then◌else◌, ◌==◌,
}
use dynamic_modules_examples.Base.Bytes.{Bytes, codes}
use dynamic_modules_examples.Base.GoMap.{GoMap, insert}
use dynamic_modules_examples.Host.{Host}
use dynamic_modules_examples.Sdk.{EnvoyHttpFilter}
use dynamic_modules_examples.Filters.JavaScript.{value_or_empty, Ended}
use dynamic_modules_examples.Filters.JavaScript.Script.{
  str, undefined, Run, finished, log, call, RequestMethod, ResponseMethod,
}
use dynamic_modules_examples.Filters.JavaScript.Vm.{Goja, JavaScriptVm}
use dynamic_modules_examples.Filters.JavaScript.Handlers.{run_request, run_response, log_failure}

-- What a handler runs, with the maps of its filter after the copy of the headers.
pub data Task : Type 0 where
  on_request : (headers : GoMap Bytes) → Task
  on_response : (requested headers : GoMap Bytes) → Task

-- A script under way.
pub data Work (Vm : Type 0) : Type 0 where
  request : Run RequestMethod Vm → (headers : GoMap Bytes) → Work Vm
  response : Run ResponseMethod Vm → (requested headers : GoMap Bytes) → Work Vm

module _ (G : Goja) (H : Host) where
  abbrev pub begin : JavaScriptVm G → Task → Work G.Vm
  begin vm (on_request headers) = request (G.call_request vm.runtime vm.on_request_headers) headers
  begin vm (on_response requested headers) =
      response (G.call_response vm.runtime vm.on_response_headers) requested headers

  -- The script to its end, with no other thread in between.
  abbrev pub run_task :
      EnvoyHttpFilter H.State → JavaScriptVm G → Task → H.State → Ended G.Vm H.State
  run_task e vm (on_request headers) s =
      run_request G H e (G.call_request vm.runtime vm.on_request_headers) headers s
  run_task e vm (on_response requested headers) s =
      run_response G H e (G.call_response vm.runtime vm.on_response_headers) requested headers s

  -- One call of the script, or one line that it prints.
  unfoldable pub act : EnvoyHttpFilter H.State → Work G.Vm → H.State → Work G.Vm × H.State
  act e (request (finished error vm) headers) s = (request (finished error vm) headers, s)
  act e (request (log text next) headers) s = (request next headers, H.print s text)
  act e (request (call RequestMethod.get_request_header [] next) headers) s =
      (request (next (str [])) headers, s)
  act e (request (call RequestMethod.get_request_header (key ∷ _) next) headers) s =
      (request (next (str (value_or_empty key headers))) headers, s)
  act e (request (call RequestMethod.set_request_header [] next) headers) s =
      (request (next undefined) headers, s)
  act e (request (call RequestMethod.set_request_header (_ ∷ []) next) headers) s =
      (request (next undefined) headers, s)
  act e (request (call RequestMethod.set_request_header (key ∷ value ∷ _) next) headers) s =
      (request (next undefined) (insert key value headers), (e.set_request_header key value s).1)
  act e (response (finished error vm) requested headers) s =
      (response (finished error vm) requested headers, s)
  act e (response (log text next) requested headers) s =
      (response next requested headers, H.print s text)
  act e (response (call ResponseMethod.get_request_header [] next) requested headers) s =
      (response (next (str [])) requested headers, s)
  act e (response (call ResponseMethod.get_request_header (key ∷ _) next) requested headers) s =
      (response (next (str (value_or_empty key requested))) requested headers, s)
  act e (response (call ResponseMethod.get_response_header [] next) requested headers) s =
      (response (next (str [])) requested headers, s)
  act e (response (call ResponseMethod.get_response_header (key ∷ _) next) requested headers) s =
      (response (next (str (value_or_empty key headers))) requested headers, s)
  act e (response (call ResponseMethod.set_response_header [] next) requested headers) s =
      (response (next undefined) requested headers, s)
  act e (response (call ResponseMethod.set_response_header (_ ∷ []) next) requested headers) s =
      (response (next undefined) requested headers, s)
  act e
        (response
          (call ResponseMethod.set_response_header (key ∷ value ∷ _) next)
          requested
          headers)
        s =
      (
        response (next undefined) requested (insert key value headers),
        (e.set_response_header key value s).1,
      )

  -- The error, the interpreter and the map of a script that has ended.
  abbrev pub ended : Work G.Vm → Option (Option Bytes × G.Vm × GoMap Bytes)
  ended (request (finished error vm) headers) = some (error, vm, headers)
  ended (response (finished error vm) requested headers) = some (error, vm, headers)
  ended _ = none

  -- A failure is logged under the name of the function.
  abbrev pub report : EnvoyHttpFilter H.State → Task → Option Bytes → H.State → H.State
  report e task none s = s
  report e (on_request headers) (some err) s = log_failure G H e (codes "OnRequestHeaders") err s
  report e (on_response requested headers) (some err) s =
      log_failure G H e (codes "OnResponseHeaders") err s

  pub data Pc : Type 0 where
    idle : Pc
    waiting : (vm : ℕ) → Task → Pc
    running : (vm : ℕ) → Task → Work G.Vm → Pc

  -- A handler that has returned: its interpreter, what it ran, the error and the map it left.
  pub record Entry : Type 0 where
    pub vm : ℕ
    pub task : Task
    pub error : Option Bytes
    pub headers : GoMap Bytes

  pub record System : Type 0 where
    pub vms : ℕ → JavaScriptVm G
    pub locked : ℕ → Bool
    pub pc : ℕ → Pc
    pub host : H.State

  abbrev pub move : (ℕ → Pc) → ℕ → Pc → ℕ → Pc
  move pc i to j = if i == j then to else pc j

  abbrev pub set_lock : (ℕ → Bool) → ℕ → Bool → ℕ → Bool
  set_lock locked v b k = if v == k then b else locked k

  abbrev pub store_runtime : (ℕ → JavaScriptVm G) → ℕ → G.Vm → ℕ → JavaScriptVm G
  store_runtime vms v vm k = if v == k then record (vms k) { runtime = vm } else vms k

  -- Thread `i` handles the stream behind `e i`. A script changes its interpreter while it runs: from
  -- the start of a run to its end the interpreter stands `dirty`, in whatever way the engine leaves it
  -- between two calls of the script.
  pub data Step (e : ℕ → EnvoyHttpFilter H.State) (s : System) (past : List Entry)
      : System → List Entry → Type 0 where
    called :
        (i v : ℕ) (task : Task)
        → s.pc i ≡ idle
        → Step e s past (record s { pc = move s.pc i (waiting v task) }) past
    locks :
        (i v : ℕ) (task : Task) (dirty : G.Vm)
        → s.pc i ≡ waiting v task
        → s.locked v ≡ false
        → Step e s past
            (record s {
              vms = store_runtime s.vms v dirty;
              locked = set_lock s.locked v true;
              pc = move s.pc i (running v task (begin (s.vms v) task));
            })
            past
    acts :
        (i v : ℕ) (task : Task) (work : Work G.Vm) (dirty : G.Vm)
        → s.pc i ≡ running v task work
        → Step e s past
            (record s {
              vms = store_runtime s.vms v dirty;
              pc = move s.pc i (running v task (act (e i) work s.host).0);
              host = (act (e i) work s.host).1;
            })
            past
    returns :
        (i v : ℕ) (task : Task) (work : Work G.Vm) (error : Option Bytes) (vm : G.Vm)
        (headers : GoMap Bytes)
        → s.pc i ≡ running v task work
        → ended work ≡ some (error, vm, headers)
        → Step e s past
            (record s {
              vms = store_runtime s.vms v vm;
              locked = set_lock s.locked v false;
              pc = move s.pc i idle;
              host = report (e i) task error s.host;
            })
            (record { vm = v; task = task; error = error; headers = headers } ∷ past)

  -- Any number of steps from interpreters that no thread uses.
  pub data Reach (e : ℕ → EnvoyHttpFilter H.State) (vms : ℕ → JavaScriptVm G)
      : System → List Entry → Type 0 where
    start :
        (s : H.State)
        → Reach e vms (record { vms = vms; locked = λ _. false; pc = λ _. idle; host = s }) []
    later :
        {s t : System} {past past' : List Entry}
        → Reach e vms s past
        → Step e s past t past'
        → Reach e vms t past'

  -- Steps in a row.
  pub data Steps (e : ℕ → EnvoyHttpFilter H.State)
      : System → List Entry → System → List Entry → Type 0 where
    done : {s : System} {past : List Entry} → Steps e s past s past
    more :
        {s t u : System} {past past' past'' : List Entry}
        → Step e s past t past'
        → Steps e t past' u past''
        → Steps e s past u past''
