-- ===== src/Examples/Filtering.antt =====
-- The filters over a concrete stream.
use dynamic_modules_examples.Base.{ℕ, ◌+◌, ◌≡◌, refl, none, some, List, [], ◌∷◌, arith, replicate}
use dynamic_modules_examples.Base.Bytes.{Bytes, codes, bytes_eq}
use dynamic_modules_examples.Base.GoMap.{GoMap, lookup}
use dynamic_modules_examples.Base.Int.{ℤ, pos}
use dynamic_modules_examples.Base.Outcome.{ok, panic, invalid_pointer}
use dynamic_modules_examples.EnvoyFilter.{
  envoy_http_filter, EnvoyFilter, set_request_header, set_response_header, continue_request,
}
use dynamic_modules_examples.Status.{RequestHeadersStatus, ResponseHeadersStatus}
use dynamic_modules_examples.Filters.HeaderAuth.Phases.{
  exchange, expected, verdict, exchange-verdict,
}
use dynamic_modules_examples.Filters.Delay.{
  DelayFilter, Goroutine, request_headers, scheduled, response_headers,
}
use dynamic_modules_examples.Filters.Delay.Wakeup.{
  run_goroutine, delayed_without_scheduler, scheduled-response_headers,
}
use dynamic_modules_examples.Filters.JavaScript.{JavaScriptFilter, Handled}
use dynamic_modules_examples.Filters.JavaScript.Handlers
use dynamic_modules_examples.Filters.JavaScript.Vm.{
  JavaScriptVm, new_java_script_filter_config, new_vms, new_java_script_vm, configured, exported,
  run_plain,
}
use dynamic_modules_examples.Filters.JavaScript.Script.{str, undefined}
use dynamic_modules_examples.Filters.JavaScript.Copy.{IsRange, AllFilled, first_or}
use dynamic_modules_examples.Filters.JavaScript.Mirror.{IsSetting, IsAgreeing, Canonical}
use dynamic_modules_examples.Filters.JavaScript.Mirror.Request.{AllSet, request_headers-first_or}
use dynamic_modules_examples.Filters.JavaScript.Mirror.Response
use dynamic_modules_examples.Filters.JavaScript.Mirror.Response.{response_headers-first_or}
use dynamic_modules_examples.Main.{
  HttpFilterConfig, HttpFilter, new_filter, new_http_filter_config, Vms, store_vms, addresses,
}
use dynamic_modules_examples.Main.Choice.{HasVm, new_http_filter_config-new_filter}
use dynamic_modules_examples.Examples.Stream.{
  Stream, stream_host, stream-IsHeaders, stream-IsLookup, field_values-set, stream_wire_values,
}
use dynamic_modules_examples.Examples.Wire.{field_values, layout}
use dynamic_modules_examples.Examples.Engine.{engine}

abbrev envoy : EnvoyFilter
envoy = record { raw = 1 }

abbrev plain : Stream
plain = record { headers = (codes "x-auth", codes "a") ∷ []; body = codes "nice"; log = [] }

abbrev slow : Stream
slow = record { headers = (codes "do-delay", codes "yes") ∷ []; body = codes "nice"; log = [] }

exchange-verdict_example :
    exchange (stream_host 7) envoy (λ s. s) (record { auth_header_name = codes "x-auth" }) plain
    ≡ expected
        (stream_host 7)
        envoy
        (λ s. s)
        (verdict ((stream-IsLookup 7).values plain (codes "x-auth")))
        plain
exchange-verdict_example =
    exchange-verdict (stream_host 7) envoy (λ s. s) (stream-IsLookup 7)
      (record { auth_header_name = codes "x-auth" }) plain

abbrev new_delay : DelayFilter
new_delay = record { on_request_headers = 0; delay_lapsed = pos 0 }

delayed_without_scheduler_example :
    (g : Goroutine) × ((request_headers
        (stream_host 0)
        (envoy_http_filter (stream_host 0) envoy)
        new_delay
        slow).started
      ≡ some g)
    × (run_goroutine (stream_host 0) g plain ≡ panic invalid_pointer)
unfolding stream-IsLookup field_values bytes_eq
delayed_without_scheduler_example =
    delayed_without_scheduler (stream_host 0) envoy (stream-IsLookup 0) new_delay slow
      {v = codes "yes"} {vs = []} refl slow refl plain

abbrev show_lapsed : ℤ → Bytes
show_lapsed d = codes "4ns"

scheduled-response_headers_example :
    (p' : DelayFilter) × (scheduled
        (stream_host 7)
        (envoy_http_filter (stream_host 7) envoy)
        (λ n. [])
        new_delay
        0
        slow
      ≡ ok (
        p',
        continue_request
            (stream_host 7)
            envoy
            (set_request_header
              (stream_host 7)
              envoy
              (codes "delay-filter-on-scheduled")
              (codes "yes")
              slow).1,
      ))
    × (response_headers
          (stream_host 7)
          (envoy_http_filter (stream_host 7) envoy)
          show_lapsed
          p'
          plain
        ≡ (
          ResponseHeadersStatus.continue,
          (set_response_header
              (stream_host 7)
              envoy
              (codes "x-delay-filter-lapsed")
              (codes "4ns")
              plain).1,
        ))
scheduled-response_headers_example =
    scheduled-response_headers (stream_host 7) envoy show_lapsed (λ n. []) new_delay slow plain

abbrev two_headers : GoMap (List Bytes)
two_headers = (codes "a", codes "1" ∷ codes "2" ∷ []) ∷ (codes "b", codes "3" ∷ []) ∷ []

two_headers-AllFilled : AllFilled two_headers
unfolding lookup bytes_eq
two_headers-AllFilled k vs there = ground (arith, there)

-- The host tells names apart by their bytes.
stream-IsSetting : IsSetting (stream_host 7) 1 (stream-IsLookup 7)
unfolding stream-IsLookup
stream-IsSetting = record {
  canonical = λ key. key;
  set = λ s key value j. field_values-set key value j s.headers;
  print = λ s text j. refl;
}

stream-IsAgreeing : IsAgreeing (stream_host 7) envoy stream-IsSetting (stream-IsHeaders 7)
unfolding stream-IsLookup stream-IsHeaders
stream-IsAgreeing = record { agree = λ s key _. stream_wire_values s key }

abbrev in_order : IsRange (λ m. m)
in_order = record { nodup = λ m u. u; same = λ m u k. refl }

abbrev js_filter : JavaScriptFilter
js_filter = record { vm = 5; request_headers = []; response_headers = [] }

abbrev js_vm : JavaScriptVm engine
js_vm = record { runtime = 0; on_request_headers = codes "f"; on_response_headers = codes "g" }

call_request-AllSet :
    AllSet
      (Canonical (stream_host 7) envoy stream-IsSetting)
      (engine.call_request js_vm.runtime js_vm.on_request_headers)
unfolding AllSet Canonical stream-IsSetting
call_request-AllSet (str value) = (refl, tt)
call_request-AllSet undefined = tt

request_headers-first_or_example :
    (handled : Handled RequestHeadersStatus (JavaScriptVm engine) Stream)
    × (Handlers.request_headers engine
          (stream_host 7)
          (envoy_http_filter (stream_host 7) envoy)
          (λ m. m)
          js_filter
          js_vm
          plain
        ≡ ok handled)
    × (lookup (codes "x-seen") handled.filter.request_headers
        ≡ first_or ((stream-IsLookup 7).values handled.state (codes "x-seen")) none)
unfolding stream-IsHeaders layout stream-IsSetting Canonical
request_headers-first_or_example =
    request_headers-first_or engine (stream_host 7) envoy stream-IsSetting (stream-IsHeaders 7)
      stream-IsAgreeing (λ m. m) in_order js_filter js_vm plain (codes "x-seen") refl (λ e. cc)
      call_request-AllSet refl

call_response-AllSet :
    Response.AllSet
      (Canonical (stream_host 7) envoy stream-IsSetting)
      (engine.call_response js_vm.runtime js_vm.on_response_headers)
unfolding Response.AllSet Canonical stream-IsSetting
call_response-AllSet (str value) = (refl, tt)
call_response-AllSet undefined = tt

response_headers-first_or_example :
    (handled : Handled ResponseHeadersStatus (JavaScriptVm engine) Stream)
    × (Handlers.response_headers engine
          (stream_host 7)
          (envoy_http_filter (stream_host 7) envoy)
          (λ m. m)
          js_filter
          js_vm
          plain
        ≡ ok handled)
    × (lookup (codes "x-echo") handled.filter.response_headers
        ≡ first_or ((stream-IsLookup 7).values handled.state (codes "x-echo")) none)
    × (handled.filter.request_headers ≡ [])
unfolding stream-IsHeaders layout stream-IsSetting Canonical
response_headers-first_or_example =
    response_headers-first_or engine (stream_host 7) envoy stream-IsSetting (stream-IsHeaders 7)
      stream-IsAgreeing (λ m. m) in_order js_filter js_vm plain (codes "x-echo") refl (λ e. cc)
      call_response-AllSet refl

abbrev pool : List (JavaScriptVm engine)
pool = replicate 24 (record {
  runtime = 0;
  on_request_headers = codes "OnRequestHeaders";
  on_response_headers = codes "OnResponseHeaders";
})

abbrev no_vms : Vms engine (stream_host 7)
no_vms a = none

-- Interpreters are allocated from address 100 on.
abbrev fresh_vm : ℕ → ℕ
fresh_vm place = 100 + place

abbrev vms : Vms engine (stream_host 7)
vms = store_vms engine (stream_host 7) fresh_vm 0 pool no_vms

abbrev js_config : HttpFilterConfig
js_config = HttpFilterConfig.java_script (addresses engine (stream_host 7) fresh_vm 0 pool)

new_http_filter_config-new_filter_example :
    (f : HttpFilter) × (new_filter 23 js_config ≡ ok f) × HasVm engine (stream_host 7) vms f
unfolding new_http_filter_config new_java_script_filter_config new_vms new_java_script_vm configured
    exported run_plain bytes_eq
new_http_filter_config-new_filter_example =
    new_http_filter_config-new_filter engine (stream_host 7) fresh_vm (codes "javascript") [] no_vms
      plain {r = record { config = some js_config; vms = vms; state = plain }} 23 refl refl
      (omega arith)
