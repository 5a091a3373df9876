-- ===== src/Filters/Delay.antt =====
-- go/delay.go: a request with the header `do-delay` is stopped, and a goroutine lets it go on two
-- seconds later through a scheduler.
pub mod Wakeup
use dynamic_modules_examples.Base.{
  ℕ, Bool, true, false, not, Option, none, some, List, [], ◌∷◌, ◌++◌, ◌==◌, if◌then◌else◌,
}
use dynamic_modules_examples.Base.Bytes.{Bytes, codes}
use dynamic_modules_examples.Base.Int.{ℤ, pos, sub_ℕ, is_positive}
use dynamic_modules_examples.Base.Outcome.{Outcome, ok, panic, invalid_pointer, message}
use dynamic_modules_examples.Host.{Host}
use dynamic_modules_examples.Sdk.{EnvoyHttpFilter}
use dynamic_modules_examples.EnvoyFilter.{scheduler_close, scheduler_commit}
use dynamic_modules_examples.Status.{
  RequestHeadersStatus, RequestBodyStatus, ResponseHeadersStatus, ResponseBodyStatus,
}

-- `time.Time` is a reading of the clock, 0 for the zero value; `time.Duration` is an integer.
pub record DelayFilter : Type 0 where
  pub on_request_headers : ℕ
  pub delay_lapsed : ℤ

-- `&delayFilter{}`
abbrev pub new_filter : DelayFilter
new_filter = record { on_request_headers = 0; delay_lapsed = pos 0 }

-- `Destroy` of the configuration and of the filter: what their empty bodies leave of any state.
abbrev pub config_destroy {ℓ} : {S : Type ℓ} → S → S
config_destroy s = s

abbrev pub destroy {ℓ} : {S : Type ℓ} → S → S
destroy s = s

-- Where the goroutine of `RequestHeaders` stands: before and after `Commit`, and after the deferred
-- `Close`.
pub data Phase : Type 0 where
  sleeping committed closed : Phase

-- The scheduler that the goroutine holds is nil where `NewScheduler` returned nil.
pub record Goroutine : Type 0 where
  pub scheduler : Option ℕ
  pub phase : Phase

module _ (H : Host) where
  -- One step of the goroutine. A method call on a nil scheduler panics.
  step_phase : Phase → Option ℕ → H.State → Outcome (Goroutine × H.State)
  step_phase Phase.sleeping none s = panic invalid_pointer
  step_phase Phase.sleeping (some raw) s =
      ok (record { scheduler = some raw; phase = Phase.committed }, scheduler_commit H raw 0 s)
  step_phase Phase.committed none s = panic invalid_pointer
  step_phase Phase.committed (some raw) s =
      ok (record { scheduler = some raw; phase = Phase.closed }, scheduler_close H raw s)
  step_phase Phase.closed scheduler s =
      ok (record { scheduler = scheduler; phase = Phase.closed }, s)

  unfoldable pub step_goroutine : Goroutine → H.State → Outcome (Goroutine × H.State)
  unfolding step_phase
  step_goroutine g s = step_phase g.phase g.scheduler s

  -- What `RequestHeaders` leaves: the status, the filter, the goroutine that it starts, the host.
  pub record Requested : Type 0 where
    pub status : RequestHeadersStatus
    pub filter : DelayFilter
    pub started : Option Goroutine
    pub state : H.State

  module _ (e : EnvoyHttpFilter H.State) where
    unfoldable pub request_headers : DelayFilter → H.State → Requested
    request_headers p s =
        let (_, found) = e.get_request_header (codes "do-delay") s in
        let (scheduler, s') = e.new_scheduler s in
        if not found
        then record {
          status = RequestHeadersStatus.continue;
          filter = p;
          started = none;
          state = s;
        }
        else record {
          status = RequestHeadersStatus.stop_iteration;
          filter = record p { on_request_headers = H.now s' };
          started = some (record { scheduler = scheduler; phase = Phase.sleeping });
          state = s';
        }

    -- The panic's message ends in the decimal form of the identifier, which `itoa` gives.
    unfoldable pub scheduled :
        (itoa : ℕ → Bytes) → DelayFilter → ℕ → H.State → Outcome (DelayFilter × H.State)
    scheduled itoa p event_id s =
        if not (event_id == 0)
        then panic (message (codes "unexpected eventID in Scheduled: " ++ itoa event_id))
        else (let (_, s') =
              e.set_request_header (codes "delay-filter-on-scheduled") (codes "yes") s in
            ok (
              record p { delay_lapsed = sub_ℕ (H.now s) p.on_request_headers },
              e.continue_request s',
            ))

    -- `show` is `Duration.String`.
    unfoldable pub response_headers :
        (show : ℤ → Bytes) → DelayFilter → H.State → ResponseHeadersStatus × H.State
    response_headers show p s = (
      ResponseHeadersStatus.continue,
      if is_positive p.delay_lapsed
          then (e.set_response_header (codes "x-delay-filter-lapsed") (show p.delay_lapsed) s).1
          else s,
    )

abbrev pub request_body : RequestBodyStatus
request_body = RequestBodyStatus.continue

abbrev pub response_body : ResponseBodyStatus
response_body = ResponseBodyStatus.continue
