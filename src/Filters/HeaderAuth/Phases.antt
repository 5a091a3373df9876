-- ===== src/Filters/HeaderAuth/Phases.antt =====
-- One exchange through the header_auth filter, from its creation to the response headers.
use dynamic_modules_examples.Base.{
  ◌≡◌, refl, ◌∙◌, ap, Option, none, some, List, [], ◌∷◌, if◌then◌else◌, Bool-cases, inl, inr,
}
use dynamic_modules_examples.Base.Bytes.{Bytes, codes, bytes_eq}
use dynamic_modules_examples.Host.{Host}
use dynamic_modules_examples.EnvoyFilter.{envoy_http_filter, EnvoyFilter, send_local_reply}
use dynamic_modules_examples.EnvoyFilter.Headers.{IsLookup, first_value, get_header-first_value}
use dynamic_modules_examples.Status.{RequestHeadersStatus, ResponseHeadersStatus}
use dynamic_modules_examples.Filters.HeaderAuth.{
  HeaderAuthFilterConfig, HeaderAuthFilter, new_filter, status_unauthorized, content_type,
  denied_on_request_headers, denied_on_response_headers, request_headers, response_headers,
}

-- What the filter says in the two phases, and the state of the host at the end. Without a `continue`
-- of the request there is no response to filter.
pub record Exchange (H : Host) : Type 0 where
  pub on_request : RequestHeadersStatus
  pub on_response : Option ResponseHeadersStatus
  pub state : H.State

-- What the values of the header decide.
pub data Verdict : Type 0 where
  denied_early denied_late passed : Verdict

pub verdict : List Bytes → Verdict
verdict [] = Verdict.denied_early
verdict (v ∷ _) =
    if bytes_eq v (codes "on_response_headers") then Verdict.denied_late else Verdict.passed

module _ (H : Host) (e : EnvoyFilter) (upstream : H.State → H.State) where
  -- `upstream` is all that happens between the two phases.
  respond : RequestHeadersStatus → HeaderAuthFilter → H.State → Exchange H
  respond RequestHeadersStatus.continue p s =
      let (status, s') = response_headers H (envoy_http_filter H e) p (upstream s) in
      record { on_request = RequestHeadersStatus.continue; on_response = some status; state = s' }
  respond other p s = record { on_request = other; on_response = none; state = s }

  pub exchange : HeaderAuthFilterConfig → H.State → Exchange H
  unfolding respond
  exchange config s =
      let (status, p, s') = request_headers H (envoy_http_filter H e) (new_filter config) s in
      respond status p s'

  pub expected : Verdict → H.State → Exchange H
  expected Verdict.denied_early s = record {
    on_request = RequestHeadersStatus.stop_iteration;
    on_response = none;
    state = send_local_reply H e status_unauthorized content_type denied_on_request_headers s;
  }
  expected Verdict.denied_late s = record {
    on_request = RequestHeadersStatus.continue;
    on_response = some ResponseHeadersStatus.stop_iteration;
    state =
        send_local_reply H e status_unauthorized content_type denied_on_response_headers
          (upstream s);
  }
  expected Verdict.passed s = record {
    on_request = RequestHeadersStatus.continue;
    on_response = some ResponseHeadersStatus.continue;
    state = upstream s;
  }

  -- Without a value of the configured header the request is answered with 401 at once; with the first
  -- value `on_response_headers` the request goes on and the response is answered with 401; with any
  -- other first value both go on.
  pub exchange-verdict :
      (is : IsLookup H H.request_headers e.raw) (config : HeaderAuthFilterConfig) (s : H.State)
      → exchange config s ≡ expected (verdict (is.values s config.auth_header_name)) s
  unfolding exchange expected verdict request_headers response_headers
  exchange-verdict is config s = by_values (is.values s config.auth_header_name) refl
    where
      by_values :
          (vs : List Bytes)
          → is.values s config.auth_header_name ≡ vs
          → exchange config s ≡ expected (verdict vs) s
      by_values [] there =
          rw (get_header-first_value H e is s config.auth_header_name ∙ ap first_value there)
      by_values (v ∷ vs) there =
          rw (get_header-first_value H e is s config.auth_header_name ∙ ap first_value there)
            (elim (Bool-cases (bytes_eq v (codes "on_response_headers"))) [
              | inl late ↦ rw late
              | inr other ↦ rw other
            ])
