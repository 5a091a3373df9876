-- ===== src/Examples/Stream.antt =====
-- The concrete host over that layout, and that it keeps to what Envoy documents.
use mathlib.Core.List.{append-nil}
use mathlib.Core.Path.{subst}
use dynamic_modules_examples.Base.{
  ℕ, ◌+◌, ◌≡◌, refl, sym, ap, ◌∙◌, true, false, List, [], ◌∷◌, ◌++◌, if◌then◌else◌, length, drop,
  arith,
}
use dynamic_modules_examples.Base.Bytes.{Bytes, bytes_eq}
use dynamic_modules_examples.Memory.{Memory, EnvoySlice, zero_slice, unsafe_slice, contents}
use dynamic_modules_examples.Host.{HeaderCallbacks, BodyCallbacks, Host}
use dynamic_modules_examples.EnvoyFilter.Headers.{IsHeaders, IsLookup, wire_values}
use dynamic_modules_examples.EnvoyFilter.Body.{IsBody}
use dynamic_modules_examples.Examples.Wire.{
  cell, Laid, cell-Laid, split_Laid, Fields, blob, layout, field_values, remove, locate,
  wire_values-layout, locate-first, field_values-remove,
}

pub record Stream : Type 0 where
  pub headers : Fields
  pub body : Bytes
  pub log : Bytes

abbrev pub stream_memory : Stream → Memory
stream_memory s = cell (blob s.headers ++ s.body)

-- An empty body is handed out without a slice.
abbrev pub body_slices : ℕ → Bytes → List EnvoySlice
body_slices start [] = []
body_slices start (b ∷ bs) = record { start = start; length = length (b ∷ bs) } ∷ []

abbrev pub stream_headers : HeaderCallbacks Stream
stream_headers = record {
  get = λ s raw key i. (length (field_values key s.headers), locate key 0 s.headers);
  set = λ s raw key value. (true, record s { headers = (key, value) ∷ remove key s.headers });
  count = λ s raw. length (layout 0 s.headers);
  all = λ s raw. (true, layout 0 s.headers);
}

abbrev pub stream_slices : Stream → List EnvoySlice
stream_slices s = body_slices (length (blob s.headers)) s.body

abbrev pub stream_body : BodyCallbacks Stream
stream_body = record {
  vector_size = λ s raw. (true, length (stream_slices s));
  vector = λ s raw. (true, stream_slices s);
  drain = λ s raw n. (true, record s { body = drop n s.body });
  append = λ s raw bytes. (true, record s { body = s.body ++ bytes });
}

-- A host whose schedulers have the given address, 0 for none.
abbrev pub stream_host : (scheduler : ℕ) → Host
stream_host scheduler = record {
  State = Stream;
  memory = stream_memory;
  request_headers = stream_headers;
  response_headers = stream_headers;
  request_body = stream_body;
  response_body = stream_body;
  send_response = λ s raw code fields bytes. record s { headers = fields; body = bytes };
  get_attribute_string = λ s raw id. (false, zero_slice);
  continue_decoding = λ s raw. s;
  continue_encoding = λ s raw. s;
  scheduler_new = λ s raw. (scheduler, s);
  scheduler_delete = λ s p. s;
  scheduler_commit = λ s p event. record s { log = s.log ++ (event ∷ []) };
  now = λ s. length s.body;
  print = λ s text. record s { log = s.log ++ text };
  grow = λ n. n + 512;
}

pub headers_Laid : (s : Stream) → Laid (stream_memory s) 0 (blob s.headers)
headers_Laid s =
    (split_Laid (stream_memory s) 0 (blob s.headers) s.body
      (cell-Laid (blob s.headers ++ s.body))).0

body_Laid : (s : Stream) → Laid (stream_memory s) (length (blob s.headers)) s.body
body_Laid s =
    let e : 0 + length (blob s.headers) ≡ length (blob s.headers) = omega arith in
    subst (λ i. Laid (stream_memory s) i s.body) e
      (split_Laid (stream_memory s) 0 (blob s.headers) s.body
        (cell-Laid (blob s.headers ++ s.body))).1

slices_contents :
    (mem : Memory) (start : ℕ) (bs : Bytes)
    → Laid mem start bs
    → contents mem (body_slices start bs) ≡ bs
unfolding contents Laid unsafe_slice
slices_contents mem start [] laid = refl
slices_contents mem start (b ∷ bs) laid = append-nil _ ∙ laid

pub stream_contents : (s : Stream) → contents (stream_memory s) (stream_slices s) ≡ s.body
stream_contents s = slices_contents (stream_memory s) (length (blob s.headers)) s.body (body_Laid s)

unfoldable pub stream-IsHeaders :
    (scheduler : ℕ) → IsHeaders (stream_host scheduler) stream_headers 1
stream-IsHeaders scheduler = record {
  entries = λ s. layout 0 s.headers;
  counted = λ s. refl;
  written = λ s. refl;
}

unfoldable pub stream-IsLookup : (scheduler : ℕ) → IsLookup (stream_host scheduler) stream_headers 1
stream-IsLookup scheduler = record {
  values = λ s key. field_values key s.headers;
  counted = λ s key. refl;
  first = λ s key v vs there.
      locate-first (stream_memory s) key 0 s.headers v vs (headers_Laid s) there;
}

unfoldable pub stream-IsBody : (scheduler : ℕ) → IsBody (stream_host scheduler) stream_body 1
stream-IsBody scheduler = record {
  slices = stream_slices;
  sized = λ s. refl;
  written = λ s. refl;
  drained = λ s n.
      stream_contents (record s { body = drop n s.body }) ∙ ap (drop n) (sym (stream_contents s));
  appended = λ s bytes.
      stream_contents (record s { body = s.body ++ bytes })
      ∙ ap (λ (l : Bytes). l ++ bytes) (sym (stream_contents s));
  printed = λ s bytes. refl;
  grows = λ n. omega arith;
}

pub field_values-set :
    (key value j : Bytes) (fields : Fields)
    → field_values j ((key, value) ∷ remove key fields)
      ≡ (if bytes_eq key j then value ∷ [] else field_values j fields)
unfolding field_values
field_values-set key value j fields = ground (arith, field_values-remove key j fields)

pub stream_wire_values :
    (s : Stream) (key : Bytes)
    → wire_values (stream_memory s) key (layout 0 s.headers) ≡ field_values key s.headers
stream_wire_values s key = wire_values-layout (stream_memory s) key 0 s.headers (headers_Laid s)
