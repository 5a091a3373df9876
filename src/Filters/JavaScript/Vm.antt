-- ===== src/Filters/JavaScript/Vm.antt =====
-- `newJavaScriptVM` and `newJavaScriptFilterConfig`, over the interpreter as a parameter.
use dynamic_modules_examples.Base.{ℕ, zero, suc, ◌+◌, Option, none, some, List, [], ◌∷◌, ◌++◌}
use dynamic_modules_examples.Base.Bytes.{Bytes, codes}
use dynamic_modules_examples.Host.{Host}
use dynamic_modules_examples.Filters.JavaScript.Script.{
  Run, finished, log, call, RequestMethod, ResponseMethod,
}

abbrev pub number_of_vm_pool : ℕ
number_of_vm_pool = 24

-- A method that no script can call: `RunString` and `OnConfigure` get no context object.
pub data NoMethod : Type 0 where

-- What the filter uses of goja.
pub record Goja : Type 1 where
  pub Vm : Type 0
  pub Callable : Type 0
  -- `goja.New()`, for the interpreter at each place of the pool
  pub new : ℕ → Vm
  -- `console.Set("log", …)` and `vm.Set("console", console)`, with their errors
  pub set_log : Vm → Option Bytes × Vm
  pub set_console : Vm → Option Bytes × Vm
  pub run_string : Vm → Bytes → Run NoMethod Vm
  -- `goja.AssertFunction(vm.GlobalObject().Get(name))`
  pub assert_function : Vm → Bytes → Option Callable
  pub call_configure : Vm → Callable → Run NoMethod Vm
  pub call_request : Vm → Callable → Run RequestMethod Vm
  pub call_response : Vm → Callable → Run ResponseMethod Vm

-- `javaScriptVM`. Its mutex is a lock of the threads in Filters/JavaScript/Threads; a handler by itself
-- is one step.
pub record JavaScriptVm (G : Goja) : Type 0 where
  pub runtime : G.Vm
  pub on_request_headers : G.Callable
  pub on_response_headers : G.Callable

-- `err` with the text that `fmt.Errorf` puts in front of it
pub data VmResult (A : Type 0) : Type 0 where
  created : A → VmResult A
  failed : Bytes → VmResult A

module _ (G : Goja) (H : Host) where
  -- A run with no context object, to its end.
  unfoldable pub run_plain : Run NoMethod G.Vm → H.State → Option Bytes × G.Vm × H.State
  run_plain (finished error vm) s = (error, vm, s)
  run_plain (log text next) s = run_plain next (H.print s text)
  run_plain (call method args next) s = elim method [ ]

  -- `fmt.Errorf("failed to get %s function", name)`
  abbrev missing : Bytes → Bytes
  missing name = codes "failed to get " ++ (name ++ codes " function")

  -- The two checks at the end.
  unfoldable pub exported : G.Vm → H.State → VmResult (JavaScriptVm G) × H.State
  exported vm s = elim (G.assert_function vm (codes "OnRequestHeaders")) [
    | none ↦ (failed (missing (codes "OnRequestHeaders")), s)
    | some on_request ↦ elim (G.assert_function vm (codes "OnResponseHeaders")) [
      | none ↦ (failed (missing (codes "OnResponseHeaders")), s)
      | some on_response ↦ (
        created (record {
          runtime = vm;
          on_request_headers = on_request;
          on_response_headers = on_response;
        }),
        s,
      )
    ]
  ]

  -- The call of OnConfigure.
  unfoldable pub configured : G.Vm → H.State → VmResult (JavaScriptVm G) × H.State
  unfolding exported
  configured vm s = elim (G.assert_function vm (codes "OnConfigure")) [
    | none ↦ (failed (missing (codes "OnConfigure")), s)
    | some on_configure ↦
        let (error, vm', s') = run_plain (G.call_configure vm on_configure) s in
        elim error [
          | some err ↦ (failed (codes "failed to call OnConfigure function: " ++ err), s')
          | none ↦ exported vm' s'
        ]
  ]

  unfoldable pub new_java_script_vm :
      (place : ℕ) → (script : Bytes) → H.State → VmResult (JavaScriptVm G) × H.State
  unfolding configured
  new_java_script_vm place script s =
      let (log_error, vm1) = G.set_log (G.new place) in
      let (console_error, vm2) = G.set_console vm1 in
      let (run_error, vm3, s') = run_plain (G.run_string vm2 script) s in
      elim log_error [
        | some err ↦ (failed (codes "failed to set console.log: " ++ err), s)
        | none ↦ elim console_error [
          | some err ↦ (failed (codes "failed to set console: " ++ err), s)
          | none ↦ elim run_error [
            | some err ↦ (failed (codes "failed to run script: " ++ err), s')
            | none ↦ configured vm3 s'
          ]
        ]
      ]

  -- The loop of `newJavaScriptFilterConfig` with `left` rounds to go. `none` is the nil config.
  unfoldable pub new_vms :
      (left place : ℕ) → (user_code : Bytes) → H.State → Option (List (JavaScriptVm G)) × H.State
  new_vms zero place user_code s = (some [], s)
  new_vms (suc left) place user_code s =
      let (result, s') = new_java_script_vm place user_code s in
      elim result [
        | failed err ↦
            (none, H.print s' (codes "failed to create JavaScript VM: " ++ (err ++ (10 ∷ []))))
        | created vm ↦
            let (vms, s'') = new_vms left (place + 1) user_code s' in
            (elim vms [ none ↦ none | some rest ↦ some (vm ∷ rest) ], s'')
      ]

  unfoldable pub new_java_script_filter_config :
      (user_code : Bytes) → H.State → Option (List (JavaScriptVm G)) × H.State
  unfolding new_vms
  new_java_script_filter_config user_code s = new_vms number_of_vm_pool 0 user_code s
