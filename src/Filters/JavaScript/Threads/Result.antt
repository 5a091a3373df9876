-- ===== src/Filters/JavaScript/Threads/Result.antt =====
-- What a script leaves in its interpreter and in the map of its filter depends on no other thread.
use dynamic_modules_examples.Base.{Option, some, [], ◌∷◌, ◌≡◌, refl}
use dynamic_modules_examples.Base.Bytes.{Bytes}
use dynamic_modules_examples.Base.GoMap.{GoMap, insert}
use dynamic_modules_examples.Host.{Host}
use dynamic_modules_examples.Sdk.{EnvoyHttpFilter}
use dynamic_modules_examples.Filters.JavaScript.{value_or_empty, Ended}
use dynamic_modules_examples.Filters.JavaScript.Script.{
  str, undefined, Run, finished, log, call, RequestMethod, ResponseMethod,
}
use dynamic_modules_examples.Filters.JavaScript.Vm.{Goja, JavaScriptVm}
use dynamic_modules_examples.Filters.JavaScript.Handlers.{run_request, run_response}
use dynamic_modules_examples.Filters.JavaScript.Threads.{
  Task, on_request, on_response, Work, request, response, begin, run_task, act, ended,
}

abbrev pub Left : Type 0 → Type 0
Left Vm = Option Bytes × Vm × GoMap Bytes

module _ {Vm : Type 0} where
  pub result_request : Run RequestMethod Vm → GoMap Bytes → Left Vm
  result_request (finished error vm) headers = (error, vm, headers)
  result_request (log text next) headers = result_request next headers
  result_request (call RequestMethod.get_request_header [] next) headers =
      result_request (next (str [])) headers
  result_request (call RequestMethod.get_request_header (key ∷ _) next) headers =
      result_request (next (str (value_or_empty key headers))) headers
  result_request (call RequestMethod.set_request_header [] next) headers =
      result_request (next undefined) headers
  result_request (call RequestMethod.set_request_header (_ ∷ []) next) headers =
      result_request (next undefined) headers
  result_request (call RequestMethod.set_request_header (key ∷ value ∷ _) next) headers =
      result_request (next undefined) (insert key value headers)

  pub result_response : Run ResponseMethod Vm → (requested headers : GoMap Bytes) → Left Vm
  result_response (finished error vm) requested headers = (error, vm, headers)
  result_response (log text next) requested headers = result_response next requested headers
  result_response (call ResponseMethod.get_request_header [] next) requested headers =
      result_response (next (str [])) requested headers
  result_response (call ResponseMethod.get_request_header (key ∷ _) next) requested headers =
      result_response (next (str (value_or_empty key requested))) requested headers
  result_response (call ResponseMethod.get_response_header [] next) requested headers =
      result_response (next (str [])) requested headers
  result_response (call ResponseMethod.get_response_header (key ∷ _) next) requested headers =
      result_response (next (str (value_or_empty key headers))) requested headers
  result_response (call ResponseMethod.set_response_header [] next) requested headers =
      result_response (next undefined) requested headers
  result_response (call ResponseMethod.set_response_header (_ ∷ []) next) requested headers =
      result_response (next undefined) requested headers
  result_response (call ResponseMethod.set_response_header (key ∷ value ∷ _) next) requested
        headers =
      result_response (next undefined) requested (insert key value headers)

  unfoldable pub result : Work Vm → Left Vm
  unfolding result_request result_response
  result (request run headers) = result_request run headers
  result (response run requested headers) = result_response run requested headers

module _ (G : Goja) (H : Host) where
  pub result-ended : (work : Work G.Vm) {r : Left G.Vm} → ended G H work ≡ some r → result work ≡ r
  unfolding result
  result-ended (request (finished error vm) headers) e = cc
  result-ended (request (log text next) headers) e = cc
  result-ended (request (call m args next) headers) e = cc
  result-ended (response (finished error vm) requested headers) e = cc
  result-ended (response (log text next) requested headers) e = cc
  result-ended (response (call m args next) requested headers) e = cc

module _ (G : Goja) (H : Host) (e : EnvoyHttpFilter H.State) where
  abbrev left : Ended G.Vm H.State → Left G.Vm
  left r = (r.error, r.vm, r.headers)

  run_request-result :
      (run : Run RequestMethod G.Vm) (headers : GoMap Bytes) (s : H.State)
      → left (run_request G H e run headers s) ≡ result (request run headers)
  unfolding run_request result
  run_request-result (finished error vm) headers s = refl
  run_request-result (log text next) headers s = run_request-result next headers _
  run_request-result (call RequestMethod.get_request_header [] next) headers s =
      run_request-result (next _) headers s
  run_request-result (call RequestMethod.get_request_header (key ∷ _) next) headers s =
      run_request-result (next _) headers s
  run_request-result (call RequestMethod.set_request_header [] next) headers s =
      run_request-result (next undefined) headers s
  run_request-result (call RequestMethod.set_request_header (_ ∷ []) next) headers s =
      run_request-result (next undefined) headers s
  run_request-result (call RequestMethod.set_request_header (key ∷ value ∷ _) next) headers s =
      run_request-result (next undefined) _ _

  run_response-result :
      (run : Run ResponseMethod G.Vm) (requested headers : GoMap Bytes) (s : H.State)
      → left (run_response G H e run requested headers s) ≡ result (response run requested headers)
  unfolding run_response result
  run_response-result (finished error vm) requested headers s = refl
  run_response-result (log text next) requested headers s =
      run_response-result next requested headers _
  run_response-result (call ResponseMethod.get_request_header [] next) requested headers s =
      run_response-result (next _) requested headers s
  run_response-result (call ResponseMethod.get_request_header (key ∷ _) next) requested headers s =
      run_response-result (next _) requested headers s
  run_response-result (call ResponseMethod.get_response_header [] next) requested headers s =
      run_response-result (next _) requested headers s
  run_response-result (call ResponseMethod.get_response_header (key ∷ _) next) requested headers s =
      run_response-result (next _) requested headers s
  run_response-result (call ResponseMethod.set_response_header [] next) requested headers s =
      run_response-result (next undefined) requested headers s
  run_response-result (call ResponseMethod.set_response_header (_ ∷ []) next) requested headers s =
      run_response-result (next undefined) requested headers s
  run_response-result (call ResponseMethod.set_response_header (key ∷ value ∷ _) next) requested
        headers s =
      run_response-result (next undefined) requested _ _

  pub run_task-result :
      (vm : JavaScriptVm G) (task : Task) (s : H.State)
      → left (run_task G H e vm task s) ≡ result (begin G H vm task)
  run_task-result vm (on_request headers) s = run_request-result _ headers s
  run_task-result vm (on_response requested headers) s = run_response-result _ requested headers s

  -- A call of the script does not change how it ends.
  pub result-act : (work : Work G.Vm) (s : H.State) → result (act G H e work s).0 ≡ result work
  unfolding act result
  result-act (request (finished error vm) headers) s = refl
  result-act (request (log text next) headers) s = refl
  result-act (request (call RequestMethod.get_request_header [] next) headers) s = refl
  result-act (request (call RequestMethod.get_request_header (_ ∷ _) next) headers) s = refl
  result-act (request (call RequestMethod.set_request_header [] next) headers) s = refl
  result-act (request (call RequestMethod.set_request_header (_ ∷ []) next) headers) s = refl
  result-act (request (call RequestMethod.set_request_header (_ ∷ _ ∷ _) next) headers) s = refl
  result-act (response (finished error vm) requested headers) s = refl
  result-act (response (log text next) requested headers) s = refl
  result-act (response (call ResponseMethod.get_request_header [] next) requested headers) s = refl
  result-act (response (call ResponseMethod.get_request_header (_ ∷ _) next) requested headers) s =
      refl
  result-act (response (call ResponseMethod.get_response_header [] next) requested headers) s = refl
  result-act (response (call ResponseMethod.get_response_header (_ ∷ _) next) requested headers) s =
      refl
  result-act (response (call ResponseMethod.set_response_header [] next) requested headers) s = refl
  result-act (response (call ResponseMethod.set_response_header (_ ∷ []) next) requested headers)
        s =
      refl
  result-act (response (call ResponseMethod.set_response_header (_ ∷ _ ∷ _) next) requested headers)
        s =
      refl
