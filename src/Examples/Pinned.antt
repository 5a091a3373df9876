-- ===== src/Examples/Pinned.antt =====
-- The memory manager and the lifecycle hooks at concrete addresses.
use dynamic_modules_examples.Base.{
  ◌≡◌, refl, true, false, ◌^◌, ◌-◌, ltb, length, take, if◌then◌else◌, none, [], ◌∷◌, arith, ◌≢◌,
}
use dynamic_modules_examples.Base.Bytes.{codes}
use dynamic_modules_examples.Base.Outcome.{Outcome, ok, panic, negative_length}
use dynamic_modules_examples.Mem.{
  null, MemoryManager, pin_http_filter_config, unpin_http_filter_config, pin_http_filter,
  unpin_http_filter,
}
use dynamic_modules_examples.Mem.Sharding.{splitmix64}
use dynamic_modules_examples.Mem.Sharding.Mix.{splitmix64-distinct}
use dynamic_modules_examples.Mem.Manager.{
  Pool, empty, insert, delete, Represents, mem_manager-Represents,
}
use dynamic_modules_examples.Mem.Manager.Refine.{
  pin_http_filter_config-insert, unpin_http_filter_config-delete, pin_http_filter-insert,
  unpin_http_filter-delete,
}
use dynamic_modules_examples.Status.{RequestHeadersStatus}
use dynamic_modules_examples.Main.{HttpFilterConfig, HttpFilter, new_filter, new_http_filter_config}
use dynamic_modules_examples.Abi.{
  World, on_http_filter_new, on_http_filter_destroy, on_http_filter_config_destroy,
}
use dynamic_modules_examples.Abi.{go_bytes, on_http_filter_config_new}
use dynamic_modules_examples.Abi.Configured.{
  go_bytes-cut, IsConfigured, on_http_filter_config_new-IsConfigured,
}
use dynamic_modules_examples.Abi.Lifecycle.{
  on_http_filter_new-insert, on_http_filter_destroy-delete, on_http_filter_config_destroy-delete,
}
use dynamic_modules_examples.Abi.Events.{Served, with_filter, request_headers}
use dynamic_modules_examples.Abi.Events.Laws.{IsServed, with_filter-IsServed}
use dynamic_modules_examples.EnvoyFilter.{envoy_http_filter}
use dynamic_modules_examples.Examples.Stream.{stream_host}
use dynamic_modules_examples.Examples.Engine.{engine}

abbrev Manager : Type 0
Manager = MemoryManager HttpFilterConfig HttpFilter

abbrev config : HttpFilterConfig
config = HttpFilterConfig.header_auth (record { auth_header_name = codes "x-auth" })

abbrev filter : HttpFilter
filter =
    HttpFilter.header_auth
      (record { auth_header_name = codes "x-auth"; send_on_response_header_phase = false })

not_null : 4096 ≢ null
not_null e = cc

-- One configuration at 4096.
abbrev Configured : Pool HttpFilterConfig
Configured = insert empty 4096 config

-- Two filters, at 4096 and 8192.
abbrev Filtered : Pool HttpFilter
Filtered = insert (insert empty 4096 filter) 8192 HttpFilter.passthrough

with_config : (m : Manager) × Represents m Configured empty
with_config =
    let (m, _, r) =
      pin_http_filter_config-insert mem_manager-Represents {fresh = 4096} config not_null refl in
    (m, r)

with_filters : (m : Manager) × Represents m Configured Filtered
with_filters =
    let (m, r) = with_config in
    let (m1, _, r1) = pin_http_filter-insert r {fresh = 4096} filter not_null refl in
    let (m2, _, r2) =
      pin_http_filter-insert r1 {fresh = 8192} HttpFilter.passthrough (λ e. cc) refl in
    (m2, r2)

pin_http_filter_config-insert_example :
    (m' : Manager) × (pin_http_filter_config 8192 with_config.0 HttpFilterConfig.delay
      ≡ ok (8192, m'))
    × Represents m' (insert Configured 8192 HttpFilterConfig.delay) empty
pin_http_filter_config-insert_example =
    pin_http_filter_config-insert with_config.1 {fresh = 8192} HttpFilterConfig.delay (λ e. cc) refl

unpin_http_filter_config-delete_example :
    (m' : Manager) × (unpin_http_filter_config with_config.0 4096 ≡ ok m')
    × Represents m' (delete Configured 4096) empty
unpin_http_filter_config-delete_example =
    unpin_http_filter_config-delete with_config.1 {p = 4096} refl

pin_http_filter-insert_example :
    (m' : Manager) × (pin_http_filter 12288 with_filters.0 filter ≡ ok (12288, m'))
    × Represents m' Configured (insert Filtered 12288 filter)
pin_http_filter-insert_example =
    pin_http_filter-insert with_filters.1 {fresh = 12288} filter (λ e. cc) refl

unpin_http_filter-delete_example :
    (m' : Manager) × (unpin_http_filter with_filters.0 4096 ≡ ok m')
    × Represents m' Configured (delete Filtered 4096)
unpin_http_filter-delete_example = unpin_http_filter-delete with_filters.1 {p = 4096} refl

abbrev world : World engine (stream_host 7)
world = record {
  manager = with_filters.0;
  vms = λ _. none;
  goroutines = [];
  host = record {
    headers = (codes "x-auth", codes "on_response_headers") ∷ [];
    body = [];
    log = [];
  };
}

go_bytes-cut_example : go_bytes (codes "delay") ≡ (
    if ltb (length (codes "delay")) (2 ^ 31)
    then ok (codes "delay")
    else if ltb (length (codes "delay")) (2 ^ 32)
    then panic negative_length
    else ok (take (length (codes "delay") - 2 ^ 32) (codes "delay")))
go_bytes-cut_example = go_bytes-cut (codes "delay") (omega arith)

on_http_filter_config_new-IsConfigured_example :
    IsConfigured engine
      (stream_host 7)
      world
      Configured
      Filtered
      12288
      (new_http_filter_config engine
        (stream_host 7)
        (λ a. a)
        (codes "javascript")
        (codes "code")
        (λ _. none)
        world.host)
      (on_http_filter_config_new engine
        (stream_host 7)
        12288
        (λ a. a)
        (codes "javascript")
        (codes "code")
        world)
on_http_filter_config_new-IsConfigured_example =
    on_http_filter_config_new-IsConfigured engine (stream_host 7) world with_filters.1
      {fresh = 12288} (λ a. a) (codes "javascript") (codes "code") (omega arith) (omega arith)
      (λ e. cc) refl

on_http_filter_new-insert_example :
    (w' : World engine (stream_host 7)) × (on_http_filter_new engine
        (stream_host 7)
        12288
        3
        4096
        world
      ≡ ok (12288, w'))
    × Represents w'.manager Configured (insert Filtered 12288 filter)
unfolding new_filter
on_http_filter_new-insert_example =
    on_http_filter_new-insert world with_filters.1 3 {fresh = 12288} {p = 4096} refl refl (λ e. cc)
      refl

on_http_filter_destroy-delete_example :
    (w' : World engine (stream_host 7)) × (on_http_filter_destroy engine (stream_host 7) 8192 world
      ≡ ok w')
    × Represents w'.manager Configured (delete Filtered 8192)
on_http_filter_destroy-delete_example =
    on_http_filter_destroy-delete world with_filters.1 {p = 8192} refl

on_http_filter_config_destroy-delete_example :
    (w' : World engine (stream_host 7)) × (on_http_filter_config_destroy engine
        (stream_host 7)
        4096
        world
      ≡ ok w')
    × Represents w'.manager (delete Configured 4096) Filtered
on_http_filter_config_destroy-delete_example =
    on_http_filter_config_destroy-delete world with_filters.1 {p = 4096} refl

-- `RequestHeaders` of the stream's filter.
abbrev method :
    HttpFilter
    → World engine (stream_host 7)
    → Outcome (Served engine (stream_host 7) (λ m. m) (λ d. []) (λ n. []) RequestHeadersStatus)
method f =
    request_headers engine (stream_host 7) (λ m. m) (λ d. []) (λ n. [])
      (envoy_http_filter (stream_host 7) (record { raw = 1 })) f true

with_filter-IsServed_example :
    IsServed engine
      (stream_host 7)
      (λ m. m)
      (λ d. [])
      (λ n. [])
      world
      Configured
      Filtered
      4096
      (method filter world)
      (with_filter engine (stream_host 7) (λ m. m) (λ d. []) (λ n. []) method 4096 world)
with_filter-IsServed_example =
    with_filter-IsServed engine (stream_host 7) (λ m. m) (λ d. []) (λ n. []) method world 4096
      with_filters.1 refl

splitmix64-distinct_example : splitmix64 4096 ≢ splitmix64 8192
splitmix64-distinct_example =
    splitmix64-distinct 4096 8192 (omega arith) (omega arith) (λ e. omega arith)
