-- ===== src/Sdk.antt =====
-- The interface EnvoyHttpFilter of go/gosdk/gosdk.go: what a filter may call, over the state `S` of
-- the stream. An `io.Reader` and a `Scheduler` are given by the one type that implements them.
use dynamic_modules_examples.Base.{ℕ, Bool, Option, List}
use dynamic_modules_examples.Base.Bytes.{Bytes}
use dynamic_modules_examples.Base.GoMap.{GoMap}
use dynamic_modules_examples.Base.Outcome.{Outcome}
use dynamic_modules_examples.BodyReader.{BodyReader}

-- `none` stands for the reader and false, where there is no body.
pub record EnvoyHttpFilter (S : Type 0) : Type 0 where
  pub get_request_header : Bytes → S → Bytes × Bool
  pub get_request_headers : S → Outcome (GoMap (List Bytes))
  pub set_request_header : Bytes → Bytes → S → Bool × S
  pub get_response_header : Bytes → S → Bytes × Bool
  pub get_response_headers : S → Outcome (GoMap (List Bytes))
  pub set_response_header : Bytes → Bytes → S → Bool × S
  pub get_request_body : S → Outcome (Option BodyReader)
  pub drain_request_body : ℕ → S → Bool × S
  pub append_request_body : Bytes → S → Bool × S
  pub get_response_body : S → Outcome (Option BodyReader)
  pub drain_response_body : ℕ → S → Bool × S
  pub append_response_body : Bytes → S → Bool × S
  pub send_local_reply : ℕ → List (Bytes × Bytes) → Bytes → S → S
  pub get_source_address : S → Bytes
  pub get_request_protocol : S → Bytes
  -- `none` is the nil scheduler, and a number is the pointer behind the other ones.
  pub new_scheduler : S → Option ℕ × S
  pub continue_request : S → S
  pub continue_response : S → S
