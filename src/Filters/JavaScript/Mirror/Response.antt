-- ===== src/Filters/JavaScript/Mirror/Response.antt =====
-- The maps that `ResponseHeaders` of go/javascript.go keeps.
use dynamic_modules_examples.Base.{◌≡◌, refl, ◌≢◌, Option, none, some, List, [], ◌∷◌}
use dynamic_modules_examples.Base.Bytes.{Bytes}
use dynamic_modules_examples.Base.GoMap.{GoMap, lookup}
use dynamic_modules_examples.Base.Outcome.{ok}
use dynamic_modules_examples.Host.{Host}
use dynamic_modules_examples.EnvoyFilter.{envoy_http_filter, EnvoyFilter}
use dynamic_modules_examples.EnvoyFilter.Headers.{IsHeaders, IsLookup}
use dynamic_modules_examples.Status.{ResponseHeadersStatus}
use dynamic_modules_examples.Filters.JavaScript.{JavaScriptFilter, Handled, Ended}
use dynamic_modules_examples.Filters.JavaScript.Copy.{IsRange, first_or}
use dynamic_modules_examples.Filters.JavaScript.Script.{
  JsValue, undefined, Run, finished, log, call, ResponseMethod,
}
use dynamic_modules_examples.Filters.JavaScript.Vm.{Goja, JavaScriptVm}
use dynamic_modules_examples.Filters.JavaScript.Handlers.{
  run_response, finish_response, response_headers,
}
use dynamic_modules_examples.Filters.JavaScript.Mirror.{
  IsSetting, IsAgreeing, Canonical, Mirrors, set-Mirrors, print-Mirrors, copied_Mirrors,
}

-- Every header that the run sets has a name with the property.
unfoldable pub AllSet : {Vm : Type 0} → (Bytes → Type 0) → Run ResponseMethod Vm → Type 0
AllSet P (finished error vm) = Unit
AllSet P (log text next) = AllSet P next
AllSet P (call ResponseMethod.get_request_header args next) = (v : JsValue) → AllSet P (next v)
AllSet P (call ResponseMethod.get_response_header args next) = (v : JsValue) → AllSet P (next v)
AllSet P (call ResponseMethod.set_response_header [] next) = AllSet P (next undefined)
AllSet P (call ResponseMethod.set_response_header (_ ∷ []) next) = AllSet P (next undefined)
AllSet P (call ResponseMethod.set_response_header (key ∷ _ ∷ _) next) =
    P key × AllSet P (next undefined)

module _ (G : Goja) (H : Host) (e : EnvoyFilter) {is : IsLookup H H.response_headers e.raw}
    (law : IsSetting H e.raw is) where
  run_response-Mirrors :
      (run : Run ResponseMethod G.Vm) (requested headers : GoMap Bytes) (s : H.State)
      → AllSet (Canonical H e law) run
      → Mirrors H e law headers s
      → (let ended = run_response G H (envoy_http_filter H e) run requested headers s in
          Mirrors H e law ended.headers ended.state)
  unfolding AllSet run_response
  run_response-Mirrors (finished error vm) requested headers s all m = m
  run_response-Mirrors (log text next) requested headers s all m =
      run_response-Mirrors next requested headers (H.print s text) all
        (print-Mirrors H e law text headers s m)
  run_response-Mirrors (call ResponseMethod.get_request_header [] next) requested headers s all m =
      run_response-Mirrors (next _) requested headers s (all _) m
  run_response-Mirrors (call ResponseMethod.get_request_header (key ∷ _) next) requested headers s
        all m =
      run_response-Mirrors (next _) requested headers s (all _) m
  run_response-Mirrors (call ResponseMethod.get_response_header [] next) requested headers s all m =
      run_response-Mirrors (next _) requested headers s (all _) m
  run_response-Mirrors (call ResponseMethod.get_response_header (key ∷ _) next) requested headers s
        all m =
      run_response-Mirrors (next _) requested headers s (all _) m
  run_response-Mirrors (call ResponseMethod.set_response_header [] next) requested headers s all m =
      run_response-Mirrors (next undefined) requested headers s all m
  run_response-Mirrors (call ResponseMethod.set_response_header (_ ∷ []) next) requested headers s
        all m =
      run_response-Mirrors (next undefined) requested headers s all m
  run_response-Mirrors (call ResponseMethod.set_response_header (key ∷ value ∷ _) next) requested
        headers s (own, all) m =
      run_response-Mirrors (next undefined) requested _ _ all
        (set-Mirrors H e law key value headers s own m)

  finish_response-Mirrors :
      (p : JavaScriptFilter) (vm : JavaScriptVm G) (error : Option Bytes)
      (ended : Ended G.Vm H.State)
      → Mirrors H e law ended.headers ended.state
      → (let handled = finish_response G H (envoy_http_filter H e) p vm error ended in
          Mirrors H e law handled.filter.response_headers handled.state
          × (handled.filter.request_headers ≡ p.request_headers))
  unfolding finish_response
  finish_response-Mirrors p vm none ended m = (m, refl)
  finish_response-Mirrors p vm (some err) ended m =
      (print-Mirrors H e law _ ended.headers ended.state m, refl)

  -- `ResponseHeaders` of a filter that has kept no response header returns when the response has a
  -- header. If the script sets canonical names only, then under every canonical name the map that
  -- the filter keeps has the first value that Envoy has after the run. The map of the request's
  -- headers stays as it was.
  pub response_headers-first_or :
      (hs : IsHeaders H H.response_headers e.raw)
      → IsAgreeing H e law hs
      → (range : GoMap (List Bytes) → GoMap (List Bytes)) → IsRange range
      → (p : JavaScriptFilter) (vm : JavaScriptVm G) (s : H.State) (key : Bytes)
      → p.response_headers ≡ []
      → hs.entries s ≢ []
      → AllSet (Canonical H e law) (G.call_response vm.runtime vm.on_response_headers)
      → Canonical H e law key
      → (handled : Handled ResponseHeadersStatus (JavaScriptVm G) H.State) × (response_headers G H
            (envoy_http_filter H e)
            range
            p
            vm
            s
          ≡ ok handled)
        × (lookup key handled.filter.response_headers ≡ first_or (is.values handled.state key) none)
        × (handled.filter.request_headers ≡ p.request_headers)
  unfolding response_headers Mirrors
  response_headers-first_or hs agreeing range r p vm s key fresh ne all own =
      let (headers, copied, got, done, m) = copied_Mirrors H e law hs agreeing range r s ne in
      let run = G.call_response vm.runtime vm.on_response_headers in
      let ended = run_response G H (envoy_http_filter H e) run p.request_headers copied s in
      let (m', same) =
        finish_response-Mirrors p vm ended.error ended
          (run_response-Mirrors run p.request_headers copied s all m) in
      (
        finish_response G H (envoy_http_filter H e) p vm ended.error ended,
        rw (got, fresh, done),
        m' key own,
        same,
      )
