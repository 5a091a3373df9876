-- ===== src/Abi.antt =====
-- The event hooks of go/gosdk/abi.go, which Envoy calls through C, with the dispatch to the filter
-- behind the pinned pointer.
pub mod Configured
pub mod Lifecycle
pub mod Held
pub mod Reachable
pub mod Events
use dynamic_modules_examples.Base.{
  ℕ, ◌+◌, ◌%◌, ◌^◌, Bool, true, false, Option, none, some, List, [], ◌∷◌, ◌++◌, if◌then◌else◌, ◌==◌,
  ltb, length, take,
}
use dynamic_modules_examples.Base.Bytes.{Bytes}
use dynamic_modules_examples.Base.GoMap.{GoMap}
use dynamic_modules_examples.Base.Int.{ℤ}
use dynamic_modules_examples.Base.Outcome.{
  Outcome, ok, panic, invalid_pointer, negative_length, message, ◌>>=◌, from_option,
}
use dynamic_modules_examples.Base.Bytes.{codes}
use dynamic_modules_examples.Host.{Host}
use dynamic_modules_examples.Mem.{
  Ptr, null, LinkedList, Heap, write, MemoryManager, pin_http_filter_config,
  unpin_http_filter_config, unwrap_pinned_http_filter_config, pin_http_filter, unpin_http_filter,
  unwrap_pinned_http_filter,
}
use dynamic_modules_examples.EnvoyFilter.{EnvoyFilter}
use dynamic_modules_examples.Status.{
  RequestHeadersStatus, RequestBodyStatus, ResponseHeadersStatus, ResponseBodyStatus,
  request_headers_code, request_body_code, response_headers_code, response_body_code,
}
use dynamic_modules_examples.Filters.Passthrough
use dynamic_modules_examples.Filters.HeaderAuth
use dynamic_modules_examples.Filters.Delay
use dynamic_modules_examples.Filters.Delay.{Goroutine}
use dynamic_modules_examples.Filters.JavaScript.Handlers
use dynamic_modules_examples.Filters.JavaScript.Vm.{Goja}
use dynamic_modules_examples.Main.{
  HttpFilterConfig, HttpFilter, new_filter, Vms, new_http_filter_config,
}

-- The bytes behind the address that `envoy_dynamic_module_on_program_init` returns, up to and with
-- the zero that ends them.
abbrev pub version : Bytes
version = codes "f2712929b605772d35c34d9ac8ccd7e168197a50951e9c96b64e03256bf80265" ++ (0 ∷ [])

-- `version_ptr` is the address of `version[0]`.
abbrev pub on_program_init : (version_ptr : Ptr) → Ptr
on_program_init version_ptr = version_ptr

-- `C.GoStringN(ptr, C.int(size))` and `C.GoBytes`, of the bytes at the pointer: the size is cut to
-- a signed 32-bit integer, and a negative length stops the process.
unfoldable pub go_bytes : Bytes → Outcome Bytes
go_bytes bytes =
    let n = length bytes % 2 ^ 32 in
    if ltb n (2 ^ 31) then ok (take n bytes) else panic negative_length

-- The state of the loaded module, with the host.
pub record World (G : Goja) (H : Host) : Type 0 where
  pub manager : MemoryManager HttpFilterConfig HttpFilter
  pub vms : Vms G H
  pub goroutines : List Goroutine
  pub host : H.State

-- The object behind a pinned filter after a method with a pointer receiver has changed it.
unfoldable pub store_filter :
    MemoryManager HttpFilterConfig HttpFilter
    → Ptr
    → LinkedList HttpFilter
    → HttpFilter
    → MemoryManager HttpFilterConfig HttpFilter
store_filter m p n f = record m { filters = write m.filters p (record n { obj = f }) }

-- A goroutine that a handler has started, or none, behind those that run.
abbrev pub start : List Goroutine → Option Goroutine → List Goroutine
start running none = running
start running (some g) = running ++ (g ∷ [])

module _ (G : Goja) (H : Host) where
  unfoldable pub on_http_filter_config_new :
      (fresh : Ptr)
      → (fresh_vm : ℕ → ℕ) → (name config : Bytes) → World G H
      → Outcome (Ptr × World G H)
  on_http_filter_config_new fresh fresh_vm name_bytes config_bytes w = do
    name ← go_bytes name_bytes
    config ← go_bytes config_bytes
    created ← new_http_filter_config G H fresh_vm name config w.vms w.host
    let w' = record w { vms = created.vms; host = created.state }
    elim created.config [
      | none ↦ ok (null, w')
      | some filter_config ↦ do
        (p, m) ← pin_http_filter_config fresh w.manager filter_config
        ok (p, record w' { manager = m })
    ]

  -- `Destroy` of the configuration behind the interface.
  unfoldable pub config_destroy : HttpFilterConfig → World G H → World G H
  config_destroy HttpFilterConfig.passthrough w = Passthrough.config_destroy w
  config_destroy (HttpFilterConfig.header_auth p) w = HeaderAuth.config_destroy w
  config_destroy HttpFilterConfig.delay w = Delay.config_destroy w
  config_destroy (HttpFilterConfig.java_script vms) w = Handlers.config_destroy w

  -- `Destroy` of the filter behind the interface.
  unfoldable pub destroy : HttpFilter → World G H → World G H
  destroy HttpFilter.passthrough w = Passthrough.destroy w
  destroy (HttpFilter.header_auth p) w = HeaderAuth.destroy w
  destroy (HttpFilter.delay p) w = Delay.destroy w
  destroy (HttpFilter.java_script p) w = Handlers.destroy w

  unfoldable pub on_http_filter_config_destroy : Ptr → World G H → Outcome (World G H)
  on_http_filter_config_destroy ptr w = do
    pinned ← unwrap_pinned_http_filter_config w.manager ptr
    let w' = config_destroy pinned.obj w
    m ← unpin_http_filter_config w'.manager ptr
    ok (record w' { manager = m })

  -- No `NewFilter` of the program returns nil.
  unfoldable pub on_http_filter_new :
      (fresh : Ptr)
      → (choice : ℕ) → (filter_config_ptr : Ptr) → World G H
      → Outcome (Ptr × World G H)
  on_http_filter_new fresh choice filter_config_ptr w = do
    pinned ← unwrap_pinned_http_filter_config w.manager filter_config_ptr
    filter ← new_filter choice pinned.obj
    (p, m) ← pin_http_filter fresh w.manager filter
    ok (p, record w { manager = m })

  unfoldable pub on_http_filter_destroy : Ptr → World G H → Outcome (World G H)
  on_http_filter_destroy filter_ptr w = do
    pinned ← unwrap_pinned_http_filter w.manager filter_ptr
    let w' = destroy pinned.obj w
    m ← unpin_http_filter w'.manager filter_ptr
    ok (record w' { manager = m })

-- The hooks without a filter behind them. `tt` is the result of a hook that returns nothing.
abbrev pub on_http_filter_request_trailers : ℕ → Ptr → ℕ
on_http_filter_request_trailers filter_envoy_ptr filter_module_ptr = 0

abbrev pub on_http_filter_response_trailers : ℕ → Ptr → ℕ
on_http_filter_response_trailers filter_envoy_ptr filter_module_ptr = 0

abbrev pub on_http_filter_stream_complete : ℕ → Ptr → Unit {0}
on_http_filter_stream_complete filter_envoy_ptr filter_module_ptr = tt

-- Its six arguments after the pointers are not read.
abbrev pub on_http_filter_http_callout_done : ℕ → Ptr → Outcome (Unit {0})
on_http_filter_http_callout_done filter_envoy_ptr filter_module_ptr = panic (message (codes "TODO"))
