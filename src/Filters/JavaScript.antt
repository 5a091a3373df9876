-- ===== src/Filters/JavaScript.antt =====
-- go/javascript.go: handlers written in JavaScript, run by a pool of interpreters.
pub mod Script
pub mod Vm
pub mod Handlers
pub mod Copy
pub mod Mirror
pub mod Threads
use dynamic_modules_examples.Base.{
  ℕ, Bool, true, false, Option, none, some, List, [], ◌∷◌, ◌++◌, if◌then◌else◌,
}
use dynamic_modules_examples.Base.Bytes.{Bytes, codes}
use dynamic_modules_examples.Base.GoMap.{GoMap, lookup, insert}
use dynamic_modules_examples.Base.Outcome.{Outcome, ok, panic, index_out_of_range, ◌>>=◌}
use dynamic_modules_examples.Host.{Host}
use dynamic_modules_examples.EnvoyFilter.{
  EnvoyFilter, get_request_headers, get_response_headers, set_request_header, set_response_header,
}
use dynamic_modules_examples.Status.{
  RequestHeadersStatus, RequestBodyStatus, ResponseHeadersStatus, ResponseBodyStatus,
}
use Script.{JsValue, Run, RequestMethod, ResponseMethod}
use Vm.{Goja, JavaScriptVm}

-- `vm` is the address of an interpreter, which other filters use too.
pub record JavaScriptFilter : Type 0 where
  pub vm : ℕ
  pub request_headers : GoMap Bytes
  pub response_headers : GoMap Bytes

-- `p.requestHeaders[key]`, the empty string where the key is missing
abbrev pub value_or_empty : Bytes → GoMap Bytes → Bytes
value_or_empty key headers = elim (lookup key headers) [ none ↦ [] | some v ↦ v ]

-- `for k, vs := range headers { p.requestHeaders[k] = vs[0] }`, over the entries in the order of
-- the range.
unfoldable pub copy_first : GoMap (List Bytes) → GoMap Bytes → Outcome (GoMap Bytes)
copy_first [] headers = ok headers
copy_first ((k, []) ∷ entries) headers = panic index_out_of_range
copy_first ((k, v ∷ _) ∷ entries) headers = copy_first entries (insert k v headers)

-- What the handlers leave.
pub record Handled (Status Vm State : Type 0) : Type 0 where
  pub status : Status
  pub filter : JavaScriptFilter
  pub vm : Vm
  pub state : State

-- How a run of a script ended, with its error if there was one.
pub record Ended (Vm State : Type 0) : Type 0 where
  pub error : Option Bytes
  pub vm : Vm
  pub headers : GoMap Bytes
  pub state : State
