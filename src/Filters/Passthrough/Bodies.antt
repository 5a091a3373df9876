-- ===== src/Filters/Passthrough/Bodies.antt =====
-- `RequestBody` and `ResponseBody` of go/passthrough.go, against the body that Envoy holds.
use dynamic_modules_examples.Base.{◌≡◌, ◌∙◌, sym, ◌≢◌, true, []}
use dynamic_modules_examples.Base.Bytes.{Bytes, codes}
use dynamic_modules_examples.Base.Outcome.{ok, panic, index_out_of_range}
use dynamic_modules_examples.Host.{BodyCallbacks, Host}
use dynamic_modules_examples.EnvoyFilter.{
  EnvoyFilter, envoy_http_filter, get_body, drain_body, append_body,
}
use dynamic_modules_examples.EnvoyFilter.Body.{
  IsBody, body, slices_of_body, io_read_all-body, get_body-panic,
}
use dynamic_modules_examples.Status.{RequestBodyStatus, ResponseBodyStatus}
use dynamic_modules_examples.Filters.Passthrough.Swap.{IsBodyMethods, swap_body-restores}
use dynamic_modules_examples.Filters.Passthrough.{
  BodyMethods, read_body, swap_body, request_body, response_body, print_line,
}

-- The methods over the callbacks.
abbrev methods : (H : Host) → EnvoyFilter → BodyCallbacks H.State → BodyMethods H.State
methods H e c = record {
  get = get_body H c e;
  drain = drain_body H c e;
  append = append_body H c e;
}

module _ (H : Host) (e : EnvoyFilter) {c : BodyCallbacks H.State} (is : IsBody H c e.raw) where
  -- `envoyFilter` keeps to what the SDK documents, where Envoy does.
  abbrev methods-IsBodyMethods : IsBodyMethods H (methods H e c)
  methods-IsBodyMethods = record {
    body = body H e is;
    read = λ s ne. io_read_all-body H e is s (slices_of_body H e is s ne);
    drained = is.drained;
    appended = is.appended;
    printed = is.printed;
  }

  -- An empty body that is handed out without a slice makes the filter panic.
  swap_body-panic :
      (missing wrong label : Bytes) (s : H.State)
      → is.slices s ≡ []
      → swap_body H (methods H e c) missing wrong label s ≡ panic index_out_of_range
  unfolding swap_body read_body
  swap_body-panic missing wrong label s none_there = rw (get_body-panic H e is s none_there)

module _ (H : Host) (e : EnvoyFilter) (s : H.State) where
  module _ (is : IsBody H H.request_body e.raw) where
    -- At the end of the stream, with a request body that is not empty, the request goes on with the
    -- body that it had.
    pub request_body-restores :
        body H e is s ≢ []
        → (s' : H.State) × (request_body H (envoy_http_filter H e) true s
            ≡ ok (RequestBodyStatus.continue, s'))
          × (body H e is s' ≡ body H e is s)
    unfolding request_body
    request_body-restores ne =
        let (s', done, same) =
          swap_body-restores H (methods-IsBodyMethods H e is) (codes "request body should be set")
            (codes "request body should be modified") (codes "gosdk: RequestBody, body: ")
            (print_line H (codes "gosdk: RequestBody") s) (λ h. ne (sym (is.printed s _) ∙ h)) in
        (s', rw done, same ∙ is.printed s _)

  module _ (is : IsBody H H.response_body e.raw) where
    -- At the end of the stream, with a response body that is not empty, the response goes on with
    -- the body that it had.
    pub response_body-restores :
        body H e is s ≢ []
        → (s' : H.State) × (response_body H (envoy_http_filter H e) true s
            ≡ ok (ResponseBodyStatus.continue, s'))
          × (body H e is s' ≡ body H e is s)
    unfolding response_body
    response_body-restores ne =
        let (s', done, same) =
          swap_body-restores H (methods-IsBodyMethods H e is) (codes "response body should be set")
            (codes "response body should be modified") (codes "gosdk: ResponseBody, body: ") s ne in
        (s', rw done, same)

    -- At the end of the stream, where Envoy hands out a response body without a slice, the filter
    -- panics.
    pub response_body-panic :
        is.slices s ≡ [] → response_body H (envoy_http_filter H e) true s ≡ panic index_out_of_range
    unfolding response_body
    response_body-panic none_there = rw (
        swap_body-panic H e is (codes "response body should be set")
          (codes "response body should be modified") (codes "gosdk: ResponseBody, body: ") s
          none_there)
