-- ===== src/Filters/JavaScript/Mirror/Request.antt =====
-- The map that `RequestHeaders` of go/javascript.go keeps.
use dynamic_modules_examples.Base.{◌≡◌, ◌≢◌, Option, none, some, List, [], ◌∷◌}
use dynamic_modules_examples.Base.Bytes.{Bytes}
use dynamic_modules_examples.Base.GoMap.{GoMap, lookup}
use dynamic_modules_examples.Base.Outcome.{ok}
use dynamic_modules_examples.Host.{Host}
use dynamic_modules_examples.EnvoyFilter.{envoy_http_filter, EnvoyFilter}
use dynamic_modules_examples.EnvoyFilter.Headers.{IsHeaders, IsLookup}
use dynamic_modules_examples.Status.{RequestHeadersStatus}
use dynamic_modules_examples.Filters.JavaScript.{JavaScriptFilter, Handled, Ended}
use dynamic_modules_examples.Filters.JavaScript.Copy.{IsRange, first_or}
use dynamic_modules_examples.Filters.JavaScript.Script.{
  JsValue, undefined, Run, finished, log, call, RequestMethod,
}
use dynamic_modules_examples.Filters.JavaScript.Vm.{Goja, JavaScriptVm}
use dynamic_modules_examples.Filters.JavaScript.Handlers.{
  run_request, finish_request, request_headers,
}
use dynamic_modules_examples.Filters.JavaScript.Mirror.{
  IsSetting, IsAgreeing, Canonical, Mirrors, set-Mirrors, print-Mirrors, copied_Mirrors,
}

-- Every header that the run sets has a name with the property.
unfoldable pub AllSet : {Vm : Type 0} → (Bytes → Type 0) → Run RequestMethod Vm → Type 0
AllSet P (finished error vm) = Unit
AllSet P (log text next) = AllSet P next
AllSet P (call RequestMethod.get_request_header args next) = (v : JsValue) → AllSet P (next v)
AllSet P (call RequestMethod.set_request_header [] next) = AllSet P (next undefined)
AllSet P (call RequestMethod.set_request_header (_ ∷ []) next) = AllSet P (next undefined)
AllSet P (call RequestMethod.set_request_header (key ∷ _ ∷ _) next) =
    P key × AllSet P (next undefined)

module _ (G : Goja) (H : Host) (e : EnvoyFilter) {is : IsLookup H H.request_headers e.raw}
    (law : IsSetting H e.raw is) where
  run_request-Mirrors :
      (run : Run RequestMethod G.Vm) (headers : GoMap Bytes) (s : H.State)
      → AllSet (Canonical H e law) run
      → Mirrors H e law headers s
      → (let ended = run_request G H (envoy_http_filter H e) run headers s in
          Mirrors H e law ended.headers ended.state)
  unfolding AllSet run_request
  run_request-Mirrors (finished error vm) headers s all m = m
  run_request-Mirrors (log text next) headers s all m =
      run_request-Mirrors next headers (H.print s text) all (print-Mirrors H e law text headers s m)
  run_request-Mirrors (call RequestMethod.get_request_header [] next) headers s all m =
      run_request-Mirrors (next _) headers s (all _) m
  run_request-Mirrors (call RequestMethod.get_request_header (key ∷ _) next) headers s all m =
      run_request-Mirrors (next _) headers s (all _) m
  run_request-Mirrors (call RequestMethod.set_request_header [] next) headers s all m =
      run_request-Mirrors (next undefined) headers s all m
  run_request-Mirrors (call RequestMethod.set_request_header (_ ∷ []) next) headers s all m =
      run_request-Mirrors (next undefined) headers s all m
  run_request-Mirrors (call RequestMethod.set_request_header (key ∷ value ∷ _) next) headers s
        (c, all) m =
      run_request-Mirrors (next undefined) _ _ all (set-Mirrors H e law key value headers s c m)

  finish_request-Mirrors :
      (p : JavaScriptFilter) (vm : JavaScriptVm G) (error : Option Bytes)
      (ended : Ended G.Vm H.State)
      → Mirrors H e law ended.headers ended.state
      → (let handled = finish_request G H (envoy_http_filter H e) p vm error ended in
          Mirrors H e law handled.filter.request_headers handled.state)
  unfolding finish_request
  finish_request-Mirrors p vm none ended m = m
  finish_request-Mirrors p vm (some err) ended m =
      print-Mirrors H e law _ ended.headers ended.state m

  -- `RequestHeaders` of a new filter returns when the request has a header. If the script sets
  -- canonical names only, then under every canonical name the map that the filter keeps, which
  -- `OnResponseHeaders` reads, has the first value that Envoy has after the run.
  pub request_headers-first_or :
      (hs : IsHeaders H H.request_headers e.raw)
      → IsAgreeing H e law hs
      → (range : GoMap (List Bytes) → GoMap (List Bytes)) → IsRange range
      → (p : JavaScriptFilter) (vm : JavaScriptVm G) (s : H.State) (key : Bytes)
      → p.request_headers ≡ []
      → hs.entries s ≢ []
      → AllSet (Canonical H e law) (G.call_request vm.runtime vm.on_request_headers)
      → Canonical H e law key
      → (handled : Handled RequestHeadersStatus (JavaScriptVm G) H.State) × (request_headers G H
            (envoy_http_filter H e)
            range
            p
            vm
            s
          ≡ ok handled)
        × (lookup key handled.filter.request_headers ≡ first_or (is.values handled.state key) none)
  unfolding request_headers Mirrors
  request_headers-first_or hs agreeing range r p vm s key fresh ne all c =
      let (headers, copied, got, done, m) = copied_Mirrors H e law hs agreeing range r s ne in
      let ended =
        run_request G H (envoy_http_filter H e) (G.call_request vm.runtime vm.on_request_headers)
          copied s in
      let m' =
        run_request-Mirrors (G.call_request vm.runtime vm.on_request_headers) copied s all m in
      (
        finish_request G H (envoy_http_filter H e) p vm ended.error ended,
        rw (got, fresh, done),
        finish_request-Mirrors p vm ended.error ended m' key c,
      )
