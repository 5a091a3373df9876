-- ===== src/Filters/Passthrough.antt =====
-- go/passthrough.go: a filter that reads every part of the exchange, replaces the bodies, and puts
-- them back.
pub mod Bodies
pub mod Marks
pub mod Swap
use dynamic_modules_examples.Base.{
  ℕ, Bool, true, false, not, Option, none, some, List, [], ◌∷◌, ◌++◌, length, if◌then◌else◌,
}
use dynamic_modules_examples.Base.Bytes.{Bytes, codes, bytes_eq}
use dynamic_modules_examples.Base.GoMap.{GoMap}
use dynamic_modules_examples.Base.Outcome.{Outcome, ok, panic, message, ◌>>=◌}
use dynamic_modules_examples.BodyReader.{BodyReader}
use dynamic_modules_examples.Host.{Host}
use dynamic_modules_examples.Sdk.{EnvoyHttpFilter}
use dynamic_modules_examples.EnvoyFilter.{io_read_all}
use dynamic_modules_examples.Status.{
  RequestHeadersStatus, RequestBodyStatus, ResponseHeadersStatus, ResponseBodyStatus,
}

-- `Destroy` of the configuration and of the filter: what their empty bodies leave of any state.
abbrev pub config_destroy {ℓ} : {S : Type ℓ} → S → S
config_destroy s = s

abbrev pub destroy {ℓ} : {S : Type ℓ} → S → S
destroy s = s

-- `Scheduled`, with an empty body: the two arguments are not read.
abbrev pub scheduled {ℓ} : {S : Type 0} {W : Type ℓ} → EnvoyHttpFilter S → ℕ → W → W
scheduled e event_id w = w

abbrev pub hello_world : Bytes
hello_world = codes "hello world"

abbrev pub line_feed : Bytes
line_feed = 10 ∷ []

-- `%v` of a Boolean
abbrev pub show_bool : Bool → Bytes
show_bool true = codes "true"
show_bool false = codes "false"

-- The three methods for a body, of the request or of the response.
pub record BodyMethods (S : Type 0) : Type 0 where
  pub get : S → Outcome (Option BodyReader)
  pub drain : ℕ → S → Bool × S
  pub append : Bytes → S → Bool × S

abbrev pub request_methods : {S : Type 0} → EnvoyHttpFilter S → BodyMethods S
request_methods e = record {
  get = e.get_request_body;
  drain = e.drain_request_body;
  append = e.append_request_body;
}

abbrev pub response_methods : {S : Type 0} → EnvoyHttpFilter S → BodyMethods S
response_methods e = record {
  get = e.get_response_body;
  drain = e.drain_response_body;
  append = e.append_response_body;
}

module _ (H : Host) where
  -- `fmt.Printf` of a text and a line feed
  abbrev print_line : Bytes → H.State → H.State
  print_line text s = H.print s (text ++ line_feed)

  -- The two nested loops that print the headers. The caller gives the entries in the order in which
  -- the map is ranged over, which Go leaves open.
  print_values : (prefix : Bytes) → List Bytes → H.State → H.State
  print_values prefix [] s = s
  print_values prefix (v ∷ vs) s = print_values prefix vs (print_line (prefix ++ v) s)

  unfoldable pub print_headers : (prefix : Bytes) → GoMap (List Bytes) → H.State → H.State
  unfolding print_values
  print_headers prefix [] s = s
  print_headers prefix ((k, vs) ∷ headers) s =
      print_headers prefix headers (print_values (prefix ++ (k ++ codes ": ")) vs s)

  -- `GetRequestBody` or `GetResponseBody`, a panic where there is none, and `io.ReadAll`.
  unfoldable pub read_body : BodyMethods H.State → (missing : Bytes) → H.State → Outcome Bytes
  read_body c missing s = do
    found ← c.get s
    elim found [ none ↦ panic (message missing) | some r ↦ io_read_all H r s ]

  -- The drain of `len(old)` bytes, and the append of `new`.
  abbrev pub replace_body : BodyMethods H.State → (old new : Bytes) → H.State → H.State
  replace_body c old new s = let (_, s') = c.drain (length old) s in (c.append new s').1

  -- `if string(modified) != string(expected) { panic(wrong) }`
  unfoldable pub check_body : (wrong : Bytes) → (modified expected : Bytes) → Outcome (Unit {0})
  check_body wrong modified expected =
      if bytes_eq modified expected then ok tt else panic (message wrong)

  -- From the first read of the body on, `RequestBody` and `ResponseBody` do the same with their
  -- methods and messages.
  unfoldable pub swap_body :
      BodyMethods H.State → (missing wrong label : Bytes) → H.State → Outcome H.State
  swap_body c missing wrong label s = do
    original ← read_body c missing s
    let s1 = print_line (label ++ original) s
    let s2 = replace_body c original hello_world s1
    modified ← read_body c missing s2
    _ ← check_body wrong modified hello_world
    let s3 = replace_body c modified original s2
    restored ← read_body c missing s3
    _ ← check_body wrong restored original
    ok s3

module _ (H : Host) (e : EnvoyHttpFilter H.State) where
  module _ (range : GoMap (List Bytes) → GoMap (List Bytes)) where
    unfoldable pub request_headers : Bool → H.State → Outcome (RequestHeadersStatus × H.State)
    request_headers end_of_stream s = do
      let (foo_value, _) = e.get_request_header (codes "foo") s
      let s1 = print_line H (codes "gosdk: RequestHeaders, foo: " ++ foo_value) s
      let s2 =
          print_line H (codes "gosdk: RequestHeaders, endOfStream: " ++ show_bool end_of_stream) s1
      headers ← e.get_request_headers s2
      let s3 = print_headers H (codes "gosdk: RequestHeaders, header: ") (range headers) s2
      let s4 =
          print_line H (codes "gosdk: RequestHeaders, source address: " ++ e.get_source_address s3)
            s3
      let s5 =
          print_line H
            (codes "gosdk: RequestHeaders, request protocol: " ++ e.get_request_protocol s4) s4
      ok (RequestHeadersStatus.continue, s5)

    unfoldable pub response_headers : Bool → H.State → Outcome (ResponseHeadersStatus × H.State)
    response_headers end_of_stream s =
        let (status, found) = e.get_response_header (codes ":status") s in
        if not found then panic (message (codes "x-status header should be set")) else do
          let s1 = print_line H (codes "gosdk: ResponseHeaders, status: " ++ status) s
          let (_, s2) =
              e.set_response_header (codes "x-passthrough-response-header") (codes "true") s1
          headers ← e.get_response_headers s2
          ok (
            ResponseHeadersStatus.continue,
            print_headers H (codes "gosdk: ResponseHeaders, header: ") (range headers) s2,
          )

  unfoldable pub request_body : Bool → H.State → Outcome (RequestBodyStatus × H.State)
  request_body end_of_stream s =
      if not end_of_stream then ok (RequestBodyStatus.stop_iteration_and_buffer, s) else do
        s' ←
            swap_body H (request_methods e) (codes "request body should be set")
              (codes "request body should be modified") (codes "gosdk: RequestBody, body: ")
              (print_line H (codes "gosdk: RequestBody") s)
        ok (RequestBodyStatus.continue, s')

  unfoldable pub response_body : Bool → H.State → Outcome (ResponseBodyStatus × H.State)
  response_body end_of_stream s =
      if not end_of_stream then ok (ResponseBodyStatus.stop_iteration_and_buffer, s) else do
        s' ←
            swap_body H (response_methods e) (codes "response body should be set")
              (codes "response body should be modified") (codes "gosdk: ResponseBody, body: ") s
        ok (ResponseBodyStatus.continue, s')
