-- ===== src/Abi/Events/Delayed.antt =====
-- A delayed request across the hooks of go/gosdk/abi.go, from its headers to its scheduled event.
use mathlib.Core.Path.{subst}
use dynamic_modules_examples.Base.{
  ℕ, ◌≡◌, ◌≢◌, refl, ap, ◌∙◌, Bool, true, false, some, List, [], ◌∷◌, ◌++◌, ◌==◌, arith,
}
use dynamic_modules_examples.Base.Bytes.{Bytes, codes}
use dynamic_modules_examples.Base.GoMap.{GoMap}
use dynamic_modules_examples.Base.Int.{ℤ, sub_ℕ}
use dynamic_modules_examples.Base.Outcome.{Outcome, ok}
use dynamic_modules_examples.Host.{Host}
use dynamic_modules_examples.Mem.{Ptr}
use dynamic_modules_examples.Mem.Manager.{Pool, insert, Represents}
use dynamic_modules_examples.EnvoyFilter.{
  envoy_http_filter, EnvoyFilter, get_header, new_scheduler, set_request_header, continue_request,
  scheduler_close, scheduler_commit,
}
use dynamic_modules_examples.EnvoyFilter.Headers.{IsLookup, first_value, get_header-first_value}
use dynamic_modules_examples.Status.{RequestHeadersStatus, request_headers_code}
use dynamic_modules_examples.Filters.Delay
use dynamic_modules_examples.Filters.Delay.{
  DelayFilter, Goroutine, sleeping, closed, step_goroutine,
}
use dynamic_modules_examples.Filters.Delay.Wakeup.{run_goroutine}
use dynamic_modules_examples.Filters.JavaScript.Vm.{Goja}
use dynamic_modules_examples.Main.{HttpFilterConfig, HttpFilter, delay}
use dynamic_modules_examples.Abi.{World}
use dynamic_modules_examples.Abi.Events.{
  Served, request_headers, scheduled, on_http_filter_request_headers, on_http_filter_scheduled,
}
use dynamic_modules_examples.Abi.Events.Laws.{IsServed, returned, panicked, with_filter-IsServed}

module _ (G : Goja) (H : Host) (range : GoMap (List Bytes) → GoMap (List Bytes)) (show : ℤ → Bytes)
    (itoa : ℕ → Bytes) where
  -- What a hook leaves when the method returns.
  record Left {Result : Type 0} (configs : Pool HttpFilterConfig) (filters : Pool HttpFilter)
      (p : Ptr) (served : Served G H range show itoa Result) (o : Outcome (Result × World G H))
      : Type 0 where
    world : World G H
    ran : o ≡ ok (served.result, world)
    represents : Represents world.manager configs (insert filters p served.filter)
    host : world.host ≡ served.world.host
    goroutines : world.goroutines ≡ served.world.goroutines

  served-Left :
      {Result : Type 0} {w : World G H} {configs : Pool HttpFilterConfig}
      {filters : Pool HttpFilter} {p : Ptr} {o : Outcome (Served G H range show itoa Result)}
      {o' : Outcome (Result × World G H)} {served : Served G H range show itoa Result}
      → IsServed G H range show itoa w configs filters p o o'
      → o ≡ ok served
      → Left configs filters p served o'
  served-Left {Result} {configs} {filters} {p} {served}
        (returned {served = other} {w'} r host vms goroutines) e =
      let same : other ≡ served = cc in
      subst
        (λ (x : Served G H range show itoa Result).
          Left configs filters p x (ok (other.result, w')))
        same
        (record { world = w'; ran = refl; represents = r; host = host; goroutines = goroutines })
  served-Left (panicked {fault}) e = cc

  -- The filter of a request that is stopped.
  abbrev pub stopped : DelayFilter → H.State → DelayFilter
  stopped d s = record d { on_request_headers = H.now s }

  module _ (raw : ℕ) (p : Ptr) (d : DelayFilter) where
    abbrev pub e : EnvoyFilter
    e = record { raw = raw }

    -- What the first hook leaves.
    unfoldable pub Stopped :
        (end_of_stream : Bool) (w : World G H) (configs : Pool HttpFilterConfig)
        (filters : Pool HttpFilter) (scheduler : ℕ) (s' : H.State)
        → Type 0
    Stopped end_of_stream w configs filters scheduler s' =
        (w1 : World G H) × (on_http_filter_request_headers G H range show itoa raw p end_of_stream w
          ≡ ok (request_headers_code RequestHeadersStatus.stop_iteration, w1))
        × Represents w1.manager configs (insert filters p (delay (stopped d s')))
        × (w1.goroutines
            ≡ w.goroutines ++ (record { scheduler = some scheduler; phase = sleeping } ∷ []))
        × (w1.host ≡ s')

    request-Stopped :
        (is : IsLookup H H.request_headers raw) (end_of_stream : Bool) (w : World G H)
        {configs : Pool HttpFilterConfig} {filters : Pool HttpFilter} (scheduler : ℕ) (s' : H.State)
        {v : Bytes} {vs : List Bytes}
        → Represents w.manager configs filters
        → filters p ≡ some (delay d)
        → is.values w.host (codes "do-delay") ≡ v ∷ vs
        → H.scheduler_new w.host raw ≡ (scheduler, s')
        → scheduler ≢ 0
        → Stopped end_of_stream w configs filters scheduler s'
    unfolding Stopped request_headers Delay.request_headers on_http_filter_request_headers
        new_scheduler
    request-Stopped is end_of_stream w {configs} {filters} scheduler s' {v} r there asked made ne =
        let nonzero : (scheduler == 0) ≡ false = ground arith in
        let looked_up : get_header H H.request_headers e (codes "do-delay") w.host ≡ (v, true) =
          get_header-first_value H e is w.host (codes "do-delay") ∙ ap first_value asked in
        let served : Served G H range show itoa RequestHeadersStatus = record {
          result = RequestHeadersStatus.stop_iteration;
          filter = delay (stopped d s');
          world = record w {
            goroutines =
                w.goroutines ++ (record { scheduler = some scheduler; phase = sleeping } ∷ []);
            host = s';
          };
        } in
        let method = λ (f : HttpFilter).
          request_headers G H range show itoa (envoy_http_filter H e) f end_of_stream in
        let left =
          served-Left {served = served}
            (with_filter-IsServed G H range show itoa method w p r there)
            (rw (looked_up, made, nonzero) refl) in
        (left.world, rw left.ran refl, left.represents, left.goroutines, left.host)

    -- What the second hook leaves.
    unfoldable pub Resumed :
        (w : World G H) (configs : Pool HttpFilterConfig) (filters : Pool HttpFilter) (s' : H.State)
        → Type 0
    Resumed w configs filters s' =
        (w3 : World G H) × (on_http_filter_scheduled G H range show itoa raw p 0 w ≡ ok w3)
        × (w3.host
            ≡ continue_request H e
                (set_request_header H e (codes "delay-filter-on-scheduled") (codes "yes") w.host).1)
        × Represents w3.manager configs (
            insert filters p
              (delay (record (stopped d s') { delay_lapsed = sub_ℕ (H.now w.host) (H.now s') })))

    request-Resumed :
        (w : World G H) {configs : Pool HttpFilterConfig} {filters : Pool HttpFilter} (s' : H.State)
        → Represents w.manager configs filters
        → filters p ≡ some (delay (stopped d s'))
        → Resumed w configs filters s'
    unfolding Resumed scheduled Delay.scheduled on_http_filter_scheduled
    request-Resumed w {configs} {filters} s' r there =
        let served : Served G H range show itoa (Unit {0}) = record {
          result = tt;
          filter = delay (record (stopped d s') { delay_lapsed = sub_ℕ (H.now w.host) (H.now s') });
          world = record w {
            host =
                continue_request H e
                  (set_request_header H e (codes "delay-filter-on-scheduled") (codes "yes")
                    w.host).1;
          };
        } in
        let method =
          λ (f : HttpFilter). scheduled G H range show itoa (envoy_http_filter H e) f 0 in
        let left =
          served-Left {served = served}
            (with_filter-IsServed G H range show itoa method w p r there) refl in
        (left.world, rw left.ran refl, left.host, left.represents)

    -- What the goroutine does to its scheduler.
    unfoldable pub Woken : ℕ → Type 0
    Woken scheduler =
        (t : H.State)
        → run_goroutine H (record { scheduler = some scheduler; phase = sleeping }) t
          ≡ ok (
            record { scheduler = some scheduler; phase = closed },
            scheduler_close H scheduler (scheduler_commit H scheduler 0 t),
          )

    woken : (scheduler : ℕ) → Woken scheduler
    unfolding Woken run_goroutine step_goroutine
    woken scheduler t = refl

    -- A pinned delay filter, a request with the header `do-delay`, and a scheduler from Envoy. The
    -- hook of the headers stops the request and adds one goroutine, asleep, with that scheduler. In
    -- any state of the host, that goroutine commits event 0 to the scheduler and then closes it. In
    -- every later world that still has the filter pinned as this hook left it, whatever else was
    -- pinned, unpinned or run, the hook of the scheduled event 0 sets the header
    -- `delay-filter-on-scheduled`, lets that request go on, and leaves in the filter the time between the two hooks.
    pub on_http_filter_request_headers-scheduled :
        (is : IsLookup H H.request_headers raw) (end_of_stream : Bool) (w w2 : World G H)
        {configs configs2 : Pool HttpFilterConfig} {filters filters2 : Pool HttpFilter}
        (scheduler : ℕ) (s' : H.State) {v : Bytes} {vs : List Bytes}
        → Represents w.manager configs filters
        → filters p ≡ some (delay d)
        → is.values w.host (codes "do-delay") ≡ v ∷ vs
        → H.scheduler_new w.host raw ≡ (scheduler, s')
        → scheduler ≢ 0
        → Represents w2.manager configs2 filters2
        → filters2 p ≡ some (delay (stopped d s'))
        → Stopped end_of_stream w configs filters scheduler s'
          × Woken scheduler
          × Resumed w2 configs2 filters2 s'
    on_http_filter_request_headers-scheduled is end_of_stream w w2 scheduler s' r there asked made
          ne r2 there2 =
        (
          request-Stopped is end_of_stream w scheduler s' r there asked made ne,
          woken scheduler,
          request-Resumed w2 s' r2 there2,
        )
