-- ===== src/Filters/JavaScript/Handlers.antt =====
-- `NewFilter`, `RequestHeaders` and `ResponseHeaders` of go/javascript.go.
use dynamic_modules_examples.Base.{ℕ, Option, none, some, List, [], ◌∷◌, ◌++◌, get_elem?}
use dynamic_modules_examples.Base.Bytes.{Bytes, codes}
use dynamic_modules_examples.Base.GoMap.{GoMap, insert}
use dynamic_modules_examples.Base.Outcome.{Outcome, ok, index_out_of_range, ◌>>=◌, from_option}
use dynamic_modules_examples.Host.{Host}
use dynamic_modules_examples.Sdk.{EnvoyHttpFilter}
use dynamic_modules_examples.Status.{
  RequestHeadersStatus, RequestBodyStatus, ResponseHeadersStatus, ResponseBodyStatus,
}
use dynamic_modules_examples.Filters.JavaScript.{
  JavaScriptFilter, value_or_empty, copy_first, Handled, Ended,
}
use dynamic_modules_examples.Filters.JavaScript.Script.{
  str, undefined, Run, finished, log, call, RequestMethod, ResponseMethod,
}
use dynamic_modules_examples.Filters.JavaScript.Vm.{Goja, JavaScriptVm}

-- `NewFilter`: `choice` is the number that `rand.Intn` draws, and the pool holds the addresses of
-- the interpreters.
unfoldable pub new_filter : (pool : List ℕ) → (choice : ℕ) → Outcome JavaScriptFilter
new_filter pool choice = do
  vm ← from_option index_out_of_range (get_elem? pool choice)
  ok (record { vm = vm; request_headers = []; response_headers = [] })

-- `Destroy` of the configuration and of the filter: what their empty bodies leave of any state.
abbrev pub config_destroy {ℓ} : {S : Type ℓ} → S → S
config_destroy s = s

abbrev pub destroy {ℓ} : {S : Type ℓ} → S → S
destroy s = s

-- `Scheduled`, with an empty body: the two arguments are not read.
abbrev pub scheduled {ℓ} : {S : Type 0} {W : Type ℓ} → EnvoyHttpFilter S → ℕ → W → W
scheduled e event_id w = w

abbrev pub request_body : RequestBodyStatus
request_body = RequestBodyStatus.continue

abbrev pub response_body : ResponseBodyStatus
response_body = ResponseBodyStatus.continue

module _ (G : Goja) (H : Host) (e : EnvoyHttpFilter H.State) where
  -- The run of `OnRequestHeaders`, with `headers` for `p.requestHeaders`.
  unfoldable pub run_request :
      Run RequestMethod G.Vm → (headers : GoMap Bytes) → H.State → Ended G.Vm H.State
  run_request (finished error vm) headers s = record {
    error = error;
    vm = vm;
    headers = headers;
    state = s;
  }
  run_request (log text next) headers s = run_request next headers (H.print s text)
  run_request (call RequestMethod.get_request_header [] next) headers s =
      run_request (next (str [])) headers s
  run_request (call RequestMethod.get_request_header (key ∷ _) next) headers s =
      run_request (next (str (value_or_empty key headers))) headers s
  run_request (call RequestMethod.set_request_header [] next) headers s =
      run_request (next undefined) headers s
  run_request (call RequestMethod.set_request_header (_ ∷ []) next) headers s =
      run_request (next undefined) headers s
  run_request (call RequestMethod.set_request_header (key ∷ value ∷ _) next) headers s =
      run_request (next undefined) (insert key value headers) (e.set_request_header key value s).1

  -- The run of `OnResponseHeaders`: the request's headers are read only.
  unfoldable pub run_response :
      Run ResponseMethod G.Vm
      → (requested : GoMap Bytes) → (headers : GoMap Bytes) → H.State
      → Ended G.Vm H.State
  run_response (finished error vm) requested headers s = record {
    error = error;
    vm = vm;
    headers = headers;
    state = s;
  }
  run_response (log text next) requested headers s =
      run_response next requested headers (H.print s text)
  run_response (call ResponseMethod.get_request_header [] next) requested headers s =
      run_response (next (str [])) requested headers s
  run_response (call ResponseMethod.get_request_header (key ∷ _) next) requested headers s =
      run_response (next (str (value_or_empty key requested))) requested headers s
  run_response (call ResponseMethod.get_response_header [] next) requested headers s =
      run_response (next (str [])) requested headers s
  run_response (call ResponseMethod.get_response_header (key ∷ _) next) requested headers s =
      run_response (next (str (value_or_empty key headers))) requested headers s
  run_response (call ResponseMethod.set_response_header [] next) requested headers s =
      run_response (next undefined) requested headers s
  run_response (call ResponseMethod.set_response_header (_ ∷ []) next) requested headers s =
      run_response (next undefined) requested headers s
  run_response (call ResponseMethod.set_response_header (key ∷ value ∷ _) next) requested headers
        s =
      run_response (next undefined) requested (insert key value headers)
        (e.set_response_header key value s).1

  -- `log.Printf("failed to call %s: %v", name, err)`
  abbrev pub log_failure : (name err : Bytes) → H.State → H.State
  log_failure name err s =
      H.print s (codes "failed to call " ++ (name ++ (codes ": " ++ (err ++ (10 ∷ [])))))

  -- The rest of `RequestHeaders` after the script, by its error.
  unfoldable pub finish_request :
      JavaScriptFilter
      → JavaScriptVm G
      → (error : Option Bytes) → Ended G.Vm H.State
      → Handled RequestHeadersStatus (JavaScriptVm G) H.State
  finish_request p vm none ended = record {
    status = RequestHeadersStatus.continue;
    filter = record p { request_headers = ended.headers };
    vm = record vm { runtime = ended.vm };
    state = ended.state;
  }
  finish_request p vm (some err) ended = record {
    status = RequestHeadersStatus.stop_iteration;
    filter = record p { request_headers = ended.headers };
    vm = record vm { runtime = ended.vm };
    state = log_failure (codes "OnRequestHeaders") err ended.state;
  }

  -- The rest of `ResponseHeaders` after the script, by its error.
  unfoldable pub finish_response :
      JavaScriptFilter
      → JavaScriptVm G
      → (error : Option Bytes) → Ended G.Vm H.State
      → Handled ResponseHeadersStatus (JavaScriptVm G) H.State
  finish_response p vm none ended = record {
    status = ResponseHeadersStatus.continue;
    filter = record p { response_headers = ended.headers };
    vm = record vm { runtime = ended.vm };
    state = ended.state;
  }
  finish_response p vm (some err) ended = record {
    status = ResponseHeadersStatus.stop_iteration;
    filter = record p { response_headers = ended.headers };
    vm = record vm { runtime = ended.vm };
    state = log_failure (codes "OnResponseHeaders") err ended.state;
  }

  module _ (range : GoMap (List Bytes) → GoMap (List Bytes)) where
    -- The interpreter `vm` is the one at `p.vm`.
    unfoldable pub request_headers :
        JavaScriptFilter
        → JavaScriptVm G
        → H.State
        → Outcome (Handled RequestHeadersStatus (JavaScriptVm G) H.State)
    request_headers p vm s = do
      headers ← e.get_request_headers s
      copied ← copy_first (range headers) p.request_headers
      let ended = run_request (G.call_request vm.runtime vm.on_request_headers) copied s
      ok (finish_request p vm ended.error ended)

    unfoldable pub response_headers :
        JavaScriptFilter
        → JavaScriptVm G
        → H.State
        → Outcome (Handled ResponseHeadersStatus (JavaScriptVm G) H.State)
    response_headers p vm s = do
      headers ← e.get_response_headers s
      copied ← copy_first (range headers) p.response_headers
      let ended =
          run_response (G.call_response vm.runtime vm.on_response_headers) p.request_headers copied
            s
      ok (finish_response p vm ended.error ended)
