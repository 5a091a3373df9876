-- ===== src/Abi/Events.antt =====
-- The hooks of go/gosdk/abi.go that run a method of a pinned filter. Each reads the filter behind
-- the pointer, calls the method of its type, and leaves the object as the method changed it.
pub mod Delayed
pub mod Laws
use dynamic_modules_examples.Base.{
  ℕ, Bool, true, false, Option, none, some, List, [], ◌∷◌, if◌then◌else◌, ◌==◌,
}
use dynamic_modules_examples.Base.Bytes.{Bytes}
use dynamic_modules_examples.Base.GoMap.{GoMap}
use dynamic_modules_examples.Base.Int.{ℤ}
use dynamic_modules_examples.Base.Outcome.{Outcome, ok, panic, invalid_pointer, ◌>>=◌, from_option}
use dynamic_modules_examples.Host.{Host}
use dynamic_modules_examples.Mem.{Ptr, unwrap_pinned_http_filter}
use dynamic_modules_examples.Sdk.{EnvoyHttpFilter}
use dynamic_modules_examples.EnvoyFilter.{EnvoyFilter, envoy_http_filter}
use dynamic_modules_examples.Status.{
  RequestHeadersStatus, RequestBodyStatus, ResponseHeadersStatus, ResponseBodyStatus,
  request_headers_code, request_body_code, response_headers_code, response_body_code,
}
use dynamic_modules_examples.Filters.Passthrough
use dynamic_modules_examples.Filters.HeaderAuth
use dynamic_modules_examples.Filters.Delay
use dynamic_modules_examples.Filters.JavaScript.Handlers
use dynamic_modules_examples.Filters.JavaScript.Vm.{Goja, JavaScriptVm}
use dynamic_modules_examples.Main.{HttpFilter, passthrough, header_auth, delay, java_script}
use dynamic_modules_examples.Abi.{World, store_filter, start}

module _ (G : Goja) (H : Host) (range : GoMap (List Bytes) → GoMap (List Bytes)) (show : ℤ → Bytes)
    (itoa : ℕ → Bytes) where
  -- What a method leaves: its result, the filter's object, and the world.
  pub record Served (Result : Type 0) : Type 0 where
    pub result : Result
    pub filter : HttpFilter
    pub world : World G H

  -- The interpreter at an address is replaced by itself after a run.
  abbrev store_vm : ℕ → JavaScriptVm G → World G H → World G H
  store_vm p vm w = record w { vms = λ a. if p == a then some vm else w.vms a }

  module _ (e : EnvoyHttpFilter H.State) where
    unfoldable pub request_headers :
        HttpFilter → Bool → World G H → Outcome (Served RequestHeadersStatus)
    request_headers passthrough end_of_stream w = do
      (status, s) ← Passthrough.request_headers H e range end_of_stream w.host
      ok (record { result = status; filter = passthrough; world = record w { host = s } })
    request_headers (header_auth p) end_of_stream w =
        let (status, p', s) = HeaderAuth.request_headers H e p w.host in
        ok (record { result = status; filter = header_auth p'; world = record w { host = s } })
    request_headers (delay p) end_of_stream w =
        let r = Delay.request_headers H e p w.host in
        ok (record {
          result = r.status;
          filter = delay r.filter;
          world = record w { goroutines = start w.goroutines r.started; host = r.state };
        })
    request_headers (java_script p) end_of_stream w = do
      vm ← from_option invalid_pointer (w.vms p.vm)
      h ← Handlers.request_headers G H e range p vm w.host
      ok (record {
        result = h.status;
        filter = java_script h.filter;
        world = store_vm p.vm h.vm (record w { host = h.state });
      })

    unfoldable pub request_body : HttpFilter → Bool → World G H → Outcome (Served RequestBodyStatus)
    request_body passthrough end_of_stream w = do
      (status, s) ← Passthrough.request_body H e end_of_stream w.host
      ok (record { result = status; filter = passthrough; world = record w { host = s } })
    request_body (header_auth p) end_of_stream w =
        ok (record { result = HeaderAuth.request_body; filter = header_auth p; world = w })
    request_body (delay p) end_of_stream w =
        ok (record { result = Delay.request_body; filter = delay p; world = w })
    request_body (java_script p) end_of_stream w =
        ok (record { result = Handlers.request_body; filter = java_script p; world = w })

    unfoldable pub response_headers :
        HttpFilter → Bool → World G H → Outcome (Served ResponseHeadersStatus)
    response_headers passthrough end_of_stream w = do
      (status, s) ← Passthrough.response_headers H e range end_of_stream w.host
      ok (record { result = status; filter = passthrough; world = record w { host = s } })
    response_headers (header_auth p) end_of_stream w =
        let (status, s) = HeaderAuth.response_headers H e p w.host in
        ok (record { result = status; filter = header_auth p; world = record w { host = s } })
    response_headers (delay p) end_of_stream w =
        let (status, s) = Delay.response_headers H e show p w.host in
        ok (record { result = status; filter = delay p; world = record w { host = s } })
    response_headers (java_script p) end_of_stream w = do
      vm ← from_option invalid_pointer (w.vms p.vm)
      h ← Handlers.response_headers G H e range p vm w.host
      ok (record {
        result = h.status;
        filter = java_script h.filter;
        world = store_vm p.vm h.vm (record w { host = h.state });
      })

    unfoldable pub response_body :
        HttpFilter → Bool → World G H → Outcome (Served ResponseBodyStatus)
    response_body passthrough end_of_stream w = do
      (status, s) ← Passthrough.response_body H e end_of_stream w.host
      ok (record { result = status; filter = passthrough; world = record w { host = s } })
    response_body (header_auth p) end_of_stream w =
        ok (record { result = HeaderAuth.response_body; filter = header_auth p; world = w })
    response_body (delay p) end_of_stream w =
        ok (record { result = Delay.response_body; filter = delay p; world = w })
    response_body (java_script p) end_of_stream w =
        ok (record { result = Handlers.response_body; filter = java_script p; world = w })

    -- Only the delay filter does something when it is scheduled.
    unfoldable pub scheduled : HttpFilter → ℕ → World G H → Outcome (Served (Unit {0}))
    scheduled (delay p) event_id w = do
      (p', s) ← Delay.scheduled H e itoa p event_id w.host
      ok (record { result = tt; filter = delay p'; world = record w { host = s } })
    scheduled passthrough event_id w =
        ok
          (record { result = tt; filter = passthrough; world = Passthrough.scheduled e event_id w })
    scheduled (header_auth p) event_id w =
        ok (record {
          result = tt;
          filter = header_auth p;
          world = HeaderAuth.scheduled e event_id w;
        })
    scheduled (java_script p) event_id w =
        ok (record { result = tt; filter = java_script p; world = Handlers.scheduled e event_id w })

  -- A method `run` of the filter pinned at a pointer.
  unfoldable pub with_filter :
      {Result : Type 0}
      → (HttpFilter → World G H → Outcome (Served Result))
      → Ptr
      → World G H
      → Outcome (Result × World G H)
  with_filter run ptr w = do
    pinned ← unwrap_pinned_http_filter w.manager ptr
    served ← run pinned.obj w
    ok (
      served.result,
      record served.world { manager = store_filter w.manager ptr pinned served.filter },
    )

  unfoldable pub on_http_filter_request_headers :
      (filter_envoy_ptr : ℕ) → Ptr → Bool → World G H → Outcome (ℕ × World G H)
  on_http_filter_request_headers filter_envoy_ptr filter_module_ptr end_of_stream w = do
    (status, w') ←
        with_filter
          (λ f.
            request_headers (envoy_http_filter H (record { raw = filter_envoy_ptr })) f
              end_of_stream)
          filter_module_ptr w
    ok (request_headers_code status, w')

  unfoldable pub on_http_filter_request_body :
      (filter_envoy_ptr : ℕ) → Ptr → Bool → World G H → Outcome (ℕ × World G H)
  on_http_filter_request_body filter_envoy_ptr filter_module_ptr end_of_stream w = do
    (status, w') ←
        with_filter
          (λ f.
            request_body (envoy_http_filter H (record { raw = filter_envoy_ptr })) f end_of_stream)
          filter_module_ptr w
    ok (request_body_code status, w')

  unfoldable pub on_http_filter_response_headers :
      (filter_envoy_ptr : ℕ) → Ptr → Bool → World G H → Outcome (ℕ × World G H)
  on_http_filter_response_headers filter_envoy_ptr filter_module_ptr end_of_stream w = do
    (status, w') ←
        with_filter
          (λ f.
            response_headers (envoy_http_filter H (record { raw = filter_envoy_ptr })) f
              end_of_stream)
          filter_module_ptr w
    ok (response_headers_code status, w')

  unfoldable pub on_http_filter_response_body :
      (filter_envoy_ptr : ℕ) → Ptr → Bool → World G H → Outcome (ℕ × World G H)
  on_http_filter_response_body filter_envoy_ptr filter_module_ptr end_of_stream w = do
    (status, w') ←
        with_filter
          (λ f.
            response_body (envoy_http_filter H (record { raw = filter_envoy_ptr })) f end_of_stream)
          filter_module_ptr w
    ok (response_body_code status, w')

  unfoldable pub on_http_filter_scheduled :
      (filter_envoy_ptr : ℕ) → Ptr → (event_id : ℕ) → World G H → Outcome (World G H)
  on_http_filter_scheduled filter_envoy_ptr filter_module_ptr event_id w = do
    (_, w') ←
        with_filter
          (λ f. scheduled (envoy_http_filter H (record { raw = filter_envoy_ptr })) f event_id)
          filter_module_ptr w
    ok w'
