-- ===== src/Filters/HeaderAuth.antt =====
-- go/header_auth.go: requests without a header are answered with 401, and a value of that header
-- moves the answer to the response phase.
pub mod Phases
use dynamic_modules_examples.Base.{ℕ, Bool, true, false, not, List, [], ◌∷◌, if◌then◌else◌}
use dynamic_modules_examples.Base.Bytes.{Bytes, codes, bytes_eq}
use dynamic_modules_examples.Host.{Host}
use dynamic_modules_examples.Sdk.{EnvoyHttpFilter}
use dynamic_modules_examples.Status.{
  RequestHeadersStatus, RequestBodyStatus, ResponseHeadersStatus, ResponseBodyStatus,
}

pub record HeaderAuthFilterConfig : Type 0 where
  pub auth_header_name : Bytes

pub record HeaderAuthFilter : Type 0 where
  pub auth_header_name : Bytes
  pub send_on_response_header_phase : Bool

abbrev pub new_filter : HeaderAuthFilterConfig → HeaderAuthFilter
new_filter p = record {
  auth_header_name = p.auth_header_name;
  send_on_response_header_phase = false;
}

-- `http.StatusUnauthorized`
abbrev pub status_unauthorized : ℕ
status_unauthorized = 401

abbrev pub content_type : List (Bytes × Bytes)
content_type = (codes "Content-Type", codes "text/plain") ∷ []

-- The two bodies end in a line feed, byte 10.
abbrev pub denied_on_request_headers : Bytes
denied_on_request_headers = codes "Unauthorized by Go Module at on_request_headers\n"

abbrev pub denied_on_response_headers : Bytes
denied_on_response_headers = codes "Unauthorized by Go Module at on_response_headers\n"

module _ (H : Host) (e : EnvoyHttpFilter H.State) where
  unfoldable pub request_headers :
      HeaderAuthFilter → H.State → RequestHeadersStatus × HeaderAuthFilter × H.State
  request_headers p s =
      let (v, found) = e.get_request_header p.auth_header_name s in
      if not found
      then (
        RequestHeadersStatus.stop_iteration,
        p,
        e.send_local_reply status_unauthorized content_type denied_on_request_headers s,
      )
      else (
        RequestHeadersStatus.continue,
        record p { send_on_response_header_phase = bytes_eq v (codes "on_response_headers") },
        s,
      )

  unfoldable pub response_headers : HeaderAuthFilter → H.State → ResponseHeadersStatus × H.State
  response_headers p s =
      if p.send_on_response_header_phase
      then (
        ResponseHeadersStatus.stop_iteration,
        e.send_local_reply status_unauthorized content_type denied_on_response_headers s,
      )
      else (ResponseHeadersStatus.continue, s)

-- `Destroy` of the configuration and of the filter: what their empty bodies leave of any state.
abbrev pub config_destroy {ℓ} : {S : Type ℓ} → S → S
config_destroy s = s

abbrev pub destroy {ℓ} : {S : Type ℓ} → S → S
destroy s = s

-- `Scheduled`, with an empty body: the two arguments are not read.
abbrev pub scheduled {ℓ} : {S : Type 0} {W : Type ℓ} → EnvoyHttpFilter S → ℕ → W → W
scheduled e event_id w = w

abbrev pub request_body : RequestBodyStatus
request_body = RequestBodyStatus.continue

abbrev pub response_body : ResponseBodyStatus
response_body = ResponseBodyStatus.continue
