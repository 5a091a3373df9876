-- ===== src/Examples/Delayed.antt =====
-- A delayed request at the hooks, and what the passthrough filter leaves on a response.
use dynamic_modules_examples.Base.{ℕ, ◌≡◌, ◌≢◌, refl, arith, true, none, [], ◌∷◌, if◌then◌else◌}
use dynamic_modules_examples.Base.Bytes.{Bytes, codes, bytes_eq}
use dynamic_modules_examples.Base.Int.{ℤ}
use dynamic_modules_examples.Base.Outcome.{ok}
use dynamic_modules_examples.EnvoyFilter.{envoy_http_filter, EnvoyFilter}
use dynamic_modules_examples.Mem.{null, MemoryManager}
use dynamic_modules_examples.Mem.Manager.{empty, insert, Represents, mem_manager-Represents}
use dynamic_modules_examples.Mem.Manager.Refine.{pin_http_filter-insert}
use dynamic_modules_examples.Status.{RequestHeadersStatus, ResponseHeadersStatus}
use dynamic_modules_examples.Filters.Delay.{DelayFilter}
use dynamic_modules_examples.Filters.JavaScript.Mirror.{IsSetting, IsAgreeing, Canonical}
use dynamic_modules_examples.Filters.Passthrough
use dynamic_modules_examples.Filters.Passthrough.Marks.{
  mark, request_headers-kept, response_headers-marked,
}
use dynamic_modules_examples.Main.{HttpFilterConfig, HttpFilter}
use dynamic_modules_examples.Abi.{World}
use dynamic_modules_examples.Abi.Events.Delayed.{
  Stopped, Woken, Resumed, on_http_filter_request_headers-scheduled,
}
use dynamic_modules_examples.Examples.Stream.{
  Stream, stream_host, stream-IsHeaders, stream-IsLookup, field_values-set, stream_wire_values,
}
use dynamic_modules_examples.Examples.Wire.{field_values}
use dynamic_modules_examples.Examples.Engine.{engine}

abbrev envoy : EnvoyFilter
envoy = record { raw = 1 }

abbrev in_order : {A : Type 0} → A → A
in_order m = m

abbrev show : ℤ → Bytes
show d = []

abbrev itoa : ℕ → Bytes
itoa n = []

-- The clock of the host is the length of the body.
abbrev slow : Stream
slow = record { headers = (codes "do-delay", codes "yes") ∷ []; body = codes "nice"; log = [] }

abbrev slower : Stream
slower = record { headers = []; body = codes "nice and slow"; log = [] }

abbrev timer : DelayFilter
timer = record { on_request_headers = 0; delay_lapsed = ℤ.pos 0 }

not_null : 4096 ≢ null
not_null e = cc

-- One filter is pinned, as it is before, and as it is after the hook of the headers.
abbrev pinned :
    (d : DelayFilter)
    → (m : MemoryManager HttpFilterConfig HttpFilter) × Represents m empty
        (insert empty 4096 (HttpFilter.delay d))
pinned d =
    let (m, _, r) =
      pin_http_filter-insert mem_manager-Represents {fresh = 4096} (HttpFilter.delay d) not_null
        refl in
    (m, r)

abbrev world : DelayFilter → Stream → World engine (stream_host 7)
world d s = record { manager = (pinned d).0; vms = λ _. none; goroutines = []; host = s }

on_http_filter_request_headers-scheduled_example :
    Stopped engine
      (stream_host 7)
      in_order
      show
      itoa
      1
      4096
      timer
      true
      (world timer slow)
      empty
      (insert empty 4096 (HttpFilter.delay timer))
      7
      slow
    × Woken engine (stream_host 7) in_order show itoa 1 4096 timer 7
    × Resumed engine
        (stream_host 7)
        in_order
        show
        itoa
        1
        4096
        timer
        (world (record timer { on_request_headers = 4 }) slower)
        empty
        (insert empty 4096 (HttpFilter.delay (record timer { on_request_headers = 4 })))
        slow
unfolding stream-IsLookup field_values bytes_eq
on_http_filter_request_headers-scheduled_example =
    on_http_filter_request_headers-scheduled engine (stream_host 7) in_order show itoa 1 4096 timer
      (stream-IsLookup 7) true (world timer slow)
      (world (record timer { on_request_headers = 4 }) slower) 7 slow {v = codes "yes"} {vs = []}
      (pinned timer).1 refl refl refl (λ e. omega arith)
      (pinned (record timer { on_request_headers = 4 })).1 refl

abbrev answered : Stream
answered = record { headers = (codes ":status", codes "200") ∷ []; body = []; log = [] }

-- The host tells names apart by their bytes.
by_bytes : IsSetting (stream_host 7) 1 {c = (stream_host 7).response_headers} (stream-IsLookup 7)
unfolding stream-IsLookup
by_bytes = record {
  canonical = λ key. key;
  set = λ s key value j. field_values-set key value j s.headers;
  print = λ s text j. refl;
}

by_bytes-IsAgreeing : IsAgreeing (stream_host 7) envoy by_bytes (stream-IsHeaders 7)
unfolding stream-IsLookup stream-IsHeaders
by_bytes-IsAgreeing = record { agree = λ s key _. stream_wire_values s key }

response_headers-marked_example :
    (s' : Stream) × (Passthrough.response_headers
        (stream_host 7)
        (envoy_http_filter (stream_host 7) envoy)
        in_order
        true
        answered
      ≡ ok (ResponseHeadersStatus.continue, s'))
    × ((j : Bytes)
        → field_values j s'.headers
          ≡ (if bytes_eq mark j then codes "true" ∷ [] else field_values j answered.headers))
unfolding stream-IsLookup by_bytes Canonical field_values bytes_eq
response_headers-marked_example =
    response_headers-marked (stream_host 7) envoy by_bytes (stream-IsHeaders 7) by_bytes-IsAgreeing
      refl in_order true answered {v = codes "200"} {vs = []} refl

abbrev asked : Stream
asked = record { headers = (codes "foo", codes "bar") ∷ []; body = []; log = [] }

request_headers-kept_example :
    (s' : Stream) × (Passthrough.request_headers
        (stream_host 7)
        (envoy_http_filter (stream_host 7) envoy)
        in_order
        true
        asked
      ≡ ok (RequestHeadersStatus.continue, s'))
    × ((j : Bytes) → field_values j s'.headers ≡ field_values j asked.headers)
unfolding stream-IsLookup by_bytes Canonical field_values bytes_eq
request_headers-kept_example =
    request_headers-kept (stream_host 7) envoy by_bytes (stream-IsHeaders 7) by_bytes-IsAgreeing
      in_order true asked (codes "foo") {v = codes "bar"} {vs = []} refl refl
