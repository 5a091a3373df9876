-- ===== src/EnvoyFilter.antt =====
-- `envoyFilter` of go/gosdk/abi.go: the Go side of each callback.
pub mod Headers
pub mod Body
use dynamic_modules_examples.Base.{
  ℕ, zero, suc, ◌+◌, Bool, true, false, not, Option, none, some, List, [], ◌∷◌, ◌++◌, ◌==◌, leb,
  if◌then◌else◌, length, drop, replicate,
}
use dynamic_modules_examples.Base.Bytes.{Bytes}
use dynamic_modules_examples.Base.GoMap.{GoMap, lookup, insert}
use dynamic_modules_examples.Base.Outcome.{
  Outcome, ok, panic, index_out_of_range, buffer_overrun, out_of_fuel, ◌>>=◌, from_option,
}
use dynamic_modules_examples.Memory.{Memory, EnvoySlice, zero_slice, unsafe_slice, contents}
use dynamic_modules_examples.BodyReader.{BodyReader, read_all, new_reader}
use dynamic_modules_examples.Sdk.{EnvoyHttpFilter}
use dynamic_modules_examples.Host.{HeaderCallbacks, BodyCallbacks, Host}

pub record EnvoyFilter : Type 0 where
  pub raw : ℕ

-- An array after the host has written into it from its start.
unfoldable pub overwrite {ℓ} : {A : Type ℓ} → List A → List A → Outcome (List A)
overwrite array written =
    if leb (length written) (length array)
    then ok (written ++ drop (length written) array)
    else panic buffer_overrun

-- `headers[key]`, nil where the key is missing
abbrev pub values_of {ℓ} : {V : Type ℓ} → Bytes → GoMap (List V) → List V
values_of key headers = elim (lookup key headers) [ none ↦ [] | some vs ↦ vs ]

-- The loop of `GetRequestHeaders`: the values are grouped by key, in order.
unfoldable pub group_headers :
    Memory → List (EnvoySlice × EnvoySlice) → GoMap (List Bytes) → GoMap (List Bytes)
group_headers mem [] headers = headers
group_headers mem ((k, v) ∷ raw) headers =
    let key = unsafe_slice mem k in
    let value = unsafe_slice mem v in
    group_headers mem raw (insert key (values_of key headers ++ (value ∷ [])) headers)

module _ (H : Host) where
  open H use {State, memory}

  -- The body of `GetRequestHeader` and of `GetResponseHeader`.
  unfoldable pub get_header : HeaderCallbacks State → EnvoyFilter → Bytes → State → Bytes × Bool
  get_header c e key s =
      let (ret, result) = c.get s e.raw key 0 in
      if ret == 0 then ([], false) else (unsafe_slice (memory s) result, true)

  -- The body of `GetRequestHeaders` and of `GetResponseHeaders`. Taking the address of `raw[0]`
  -- panics when there is no header; a nil map reads as an empty one.
  unfoldable pub get_headers :
      HeaderCallbacks State → EnvoyFilter → State → Outcome (GoMap (List Bytes))
  get_headers c e s =
      let count = c.count s e.raw in
      let (ret, written) = c.all s e.raw in
      if count == 0 then panic index_out_of_range else do
        raw ← overwrite (replicate count (zero_slice, zero_slice)) written
        ok (if ret then group_headers (memory s) raw [] else [])

  -- The body of `GetRequestBody` and of `GetResponseBody`. Taking the address of `chunks[0]` panics
  -- when the body has no slice.
  unfoldable pub get_body : BodyCallbacks State → EnvoyFilter → State → Outcome (Option BodyReader)
  get_body c e s =
      let (ret, vector_size) = c.vector_size s e.raw in
      let (ret', written) = c.vector s e.raw in
      if not ret then ok none else if vector_size == 0 then panic index_out_of_range else do
        chunks ← overwrite (replicate vector_size zero_slice) written
        ok (if ret' then some (new_reader chunks) else none)

  -- The body of `AppendRequestBody` and of `AppendResponseBody`.
  abbrev pub append_body : BodyCallbacks State → EnvoyFilter → Bytes → State → Bool × State
  append_body c e bytes s = c.append s e.raw bytes

  -- The body of `DrainRequestBody` and of `DrainResponseBody`.
  abbrev pub drain_body : BodyCallbacks State → EnvoyFilter → ℕ → State → Bool × State
  drain_body c e n s = c.drain s e.raw n

  module _ (e : EnvoyFilter) where
    abbrev pub append_request_body : Bytes → State → Bool × State
    append_request_body = append_body H.request_body e

    abbrev pub drain_request_body : ℕ → State → Bool × State
    drain_request_body = drain_body H.request_body e

    abbrev pub get_request_body : State → Outcome (Option BodyReader)
    get_request_body = get_body H.request_body e

    abbrev pub append_response_body : Bytes → State → Bool × State
    append_response_body = append_body H.response_body e

    abbrev pub drain_response_body : ℕ → State → Bool × State
    drain_response_body = drain_body H.response_body e

    abbrev pub get_response_body : State → Outcome (Option BodyReader)
    get_response_body = get_body H.response_body e

    abbrev pub get_request_header : Bytes → State → Bytes × Bool
    get_request_header = get_header H.request_headers e

    abbrev pub get_response_header : Bytes → State → Bytes × Bool
    get_response_header = get_header H.response_headers e

    abbrev pub set_request_header : Bytes → Bytes → State → Bool × State
    set_request_header key value s = H.request_headers.set s e.raw key value

    abbrev pub set_response_header : Bytes → Bytes → State → Bool × State
    set_response_header key value s = H.response_headers.set s e.raw key value

    abbrev pub get_request_headers : State → Outcome (GoMap (List Bytes))
    get_request_headers = get_headers H.request_headers e

    abbrev pub get_response_headers : State → Outcome (GoMap (List Bytes))
    get_response_headers = get_headers H.response_headers e

    abbrev pub send_local_reply : ℕ → List (Bytes × Bytes) → Bytes → State → State
    send_local_reply status_code headers body s = H.send_response s e.raw status_code headers body

    abbrev pub continue_request : State → State
    continue_request s = H.continue_decoding s e.raw

    abbrev pub continue_response : State → State
    continue_response s = H.continue_encoding s e.raw

    -- `none` is the nil scheduler.
    unfoldable pub new_scheduler : State → Option ℕ × State
    new_scheduler s =
        let (ptr, s') = H.scheduler_new s e.raw in (if ptr == 0 then none else some ptr, s')

    unfoldable pub get_string_attribute : ℕ → State → Bytes
    get_string_attribute id s =
        let (ret, result) = H.get_attribute_string s e.raw id in
        if ret then unsafe_slice (memory s) result else []

    abbrev pub get_request_protocol : State → Bytes
    get_request_protocol = get_string_attribute 10

    abbrev pub get_source_address : State → Bytes
    get_source_address = get_string_attribute 24

  -- `envoyFilter` behind the interface of the SDK.
  abbrev pub envoy_http_filter : EnvoyFilter → EnvoyHttpFilter State
  envoy_http_filter e = record {
    get_request_header = get_request_header e;
    get_request_headers = get_request_headers e;
    set_request_header = set_request_header e;
    get_response_header = get_response_header e;
    get_response_headers = get_response_headers e;
    set_response_header = set_response_header e;
    get_request_body = get_request_body e;
    drain_request_body = drain_request_body e;
    append_request_body = append_request_body e;
    get_response_body = get_response_body e;
    drain_response_body = drain_response_body e;
    append_response_body = append_response_body e;
    send_local_reply = send_local_reply e;
    get_source_address = get_source_address e;
    get_request_protocol = get_request_protocol e;
    new_scheduler = new_scheduler e;
    continue_request = continue_request e;
    continue_response = continue_response e;
  }

  -- `Scheduler.Close` and `Scheduler.Commit`, at a pointer that is not nil.
  abbrev pub scheduler_close : ℕ → State → State
  scheduler_close raw s = H.scheduler_delete s raw

  abbrev pub scheduler_commit : ℕ → ℕ → State → State
  scheduler_commit raw event_id s = H.scheduler_commit s raw event_id

  -- `io.ReadAll(r)`, with fuel for each byte and each chunk.
  unfoldable pub io_read_all : BodyReader → State → Outcome Bytes
  io_read_all r s =
      let fuel = length (contents (memory s) r.chunks) + length r.chunks + 1 in
      do (original, _) ← from_option out_of_fuel (read_all (memory s) H.grow fuel r); ok original
