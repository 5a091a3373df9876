-- ===== src/Filters/Delay/Wakeup.antt =====
-- A delayed request from its stop to its continuation.
use dynamic_modules_examples.Base.{
  ℕ, ◌≡◌, ◌≢◌, refl, ap, ◌∙◌, true, false, none, some, List, [], ◌∷◌, if◌then◌else◌, ◌==◌, ltb,
  arith,
}
use dynamic_modules_examples.Base.Bytes.{Bytes, codes}
use dynamic_modules_examples.Base.Int.{ℤ, sub_ℕ, sub_ℕ-is_positive}
use dynamic_modules_examples.Base.Outcome.{Outcome, ok, panic, invalid_pointer, ◌>>=◌}
use dynamic_modules_examples.Host.{Host}
use dynamic_modules_examples.EnvoyFilter.{
  envoy_http_filter, EnvoyFilter, get_header, new_scheduler, scheduler_close, scheduler_commit,
  set_request_header, set_response_header, continue_request,
}
use dynamic_modules_examples.EnvoyFilter.Headers.{IsLookup, first_value, get_header-first_value}
use dynamic_modules_examples.Status.{RequestHeadersStatus, ResponseHeadersStatus}
use dynamic_modules_examples.Filters.Delay.{
  DelayFilter, Goroutine, sleeping, closed, step_goroutine, request_headers, scheduled,
  response_headers,
}

-- The goroutine to its end: the commit, and the deferred close.
unfoldable pub run_goroutine : (H : Host) → Goroutine → H.State → Outcome (Goroutine × H.State)
run_goroutine H g s = do (g', s') ← step_goroutine H g s; step_goroutine H g' s'

module _ (H : Host) (e : EnvoyFilter) (is : IsLookup H H.request_headers e.raw) (p : DelayFilter)
    (s : H.State) where
  -- Without the header `do-delay` the request goes on, the filter and the host stay as they were, and
  -- no goroutine is started.
  pub not_delayed :
      is.values s (codes "do-delay") ≡ []
      → request_headers H (envoy_http_filter H e) p s
        ≡ record { status = RequestHeadersStatus.continue; filter = p; started = none; state = s }
  unfolding request_headers
  not_delayed none_there =
      rw (get_header-first_value H e is s (codes "do-delay") ∙ ap first_value none_there)

  module _ {v : Bytes} {vs : List Bytes} (there : is.values s (codes "do-delay") ≡ v ∷ vs) where
    looked_up : get_header H H.request_headers e (codes "do-delay") s ≡ (v, true)
    looked_up = get_header-first_value H e is s (codes "do-delay") ∙ ap first_value there

    -- With the header, and a scheduler from Envoy, the request stops, the filter keeps the time, and a
    -- goroutine is started which in any later state commits event 0 and then closes the scheduler.
    pub delayed_wakes :
        (raw : ℕ) (s' : H.State)
        → H.scheduler_new s e.raw ≡ (raw, s')
        → raw ≢ 0
        → (t : H.State)
        → (g : Goroutine) × ((request_headers H (envoy_http_filter H e) p s).status
            ≡ RequestHeadersStatus.stop_iteration)
          × ((request_headers H (envoy_http_filter H e) p s).filter.on_request_headers ≡ H.now s')
          × ((request_headers H (envoy_http_filter H e) p s).started ≡ some g)
          × (run_goroutine H g t
              ≡ ok (
                record { scheduler = some raw; phase = closed },
                scheduler_close H raw (scheduler_commit H raw 0 t),
              ))
    unfolding request_headers new_scheduler run_goroutine step_goroutine
    delayed_wakes raw s' made ne t =
        let nonzero : (raw == 0) ≡ false = ground arith in
        (
          record { scheduler = some raw; phase = sleeping },
          rw looked_up,
          rw (looked_up, made),
          rw (looked_up, made, nonzero),
          refl,
        )

    -- With the header, and no scheduler from Envoy, the goroutine that is started panics in any later
    -- state.
    pub delayed_without_scheduler :
        (s' : H.State)
        → H.scheduler_new s e.raw ≡ (0, s')
        → (t : H.State)
        → (g : Goroutine) × ((request_headers H (envoy_http_filter H e) p s).started ≡ some g)
          × (run_goroutine H g t ≡ panic invalid_pointer)
    unfolding request_headers new_scheduler run_goroutine step_goroutine
    delayed_without_scheduler s' made t =
        (record { scheduler = none; phase = sleeping }, rw (looked_up, made), refl)

-- Event 0 sets the request header and lets the request go on, and the filter that it leaves adds the
-- time between the stop and the event to the response exactly if that time is positive.
pub scheduled-response_headers :
    (H : Host) (e : EnvoyFilter) (show : ℤ → Bytes) (itoa : ℕ → Bytes) (p : DelayFilter)
    (s t : H.State)
    → (p' : DelayFilter) × (scheduled H (envoy_http_filter H e) itoa p 0 s
        ≡ ok (
          p',
          continue_request H e
              (set_request_header H e (codes "delay-filter-on-scheduled") (codes "yes") s).1,
        ))
      × (response_headers H (envoy_http_filter H e) show p' t ≡ (
        ResponseHeadersStatus.continue,
        if ltb p.on_request_headers (H.now s)
            then (set_response_header H e
                (codes "x-delay-filter-lapsed")
                (show (sub_ℕ (H.now s) p.on_request_headers))
                t).1
            else t,
      ))
unfolding scheduled response_headers
scheduled-response_headers H e show itoa p s t = (
  record p { delay_lapsed = sub_ℕ (H.now s) p.on_request_headers },
  refl,
  ap
      (λ b. (
        ResponseHeadersStatus.continue,
        if b
            then (set_response_header H e (codes "x-delay-filter-lapsed")
                (show (sub_ℕ (H.now s) p.on_request_headers)) t).1
            else t,
      ))
      (sub_ℕ-is_positive (H.now s) p.on_request_headers),
)
