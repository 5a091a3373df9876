-- ===== src/Examples/Engine.antt =====
-- A concrete interpreter: every script exports its functions, and `OnRequestHeaders` sets `x-seen` to
-- the value of `x-auth`, which `OnResponseHeaders` copies into the response.
use dynamic_modules_examples.Base.{ℕ, none, some, [], ◌∷◌}
use dynamic_modules_examples.Base.Bytes.{Bytes, codes}
use dynamic_modules_examples.Filters.JavaScript.Script.{
  JsValue, str, undefined, Run, finished, log, call, RequestMethod, ResponseMethod,
}
use dynamic_modules_examples.Filters.JavaScript.Vm.{Goja}

abbrev copy_auth : JsValue → Run RequestMethod ℕ
copy_auth undefined = finished none 1
copy_auth (str value) =
    call RequestMethod.set_request_header (codes "x-seen" ∷ value ∷ []) (λ _. finished none 1)

abbrev copy_seen : JsValue → Run ResponseMethod ℕ
copy_seen undefined = finished none 2
copy_seen (str value) =
    call ResponseMethod.set_response_header (codes "x-echo" ∷ value ∷ []) (λ _. finished none 2)

-- An interpreter is a count of the runs.
abbrev pub engine : Goja
engine = record {
  Vm = ℕ;
  Callable = Bytes;
  new = λ place. 0;
  set_log = λ vm. (none, vm);
  set_console = λ vm. (none, vm);
  run_string = λ vm script. log script (finished none vm);
  assert_function = λ vm name. some name;
  call_configure = λ vm f. finished none vm;
  call_request = λ vm f. call RequestMethod.get_request_header (codes "x-auth" ∷ []) copy_auth;
  call_response = λ vm f. call ResponseMethod.get_request_header (codes "x-seen" ∷ []) copy_seen;
}
