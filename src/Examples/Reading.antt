-- ===== src/Examples/Reading.antt =====
-- Headers and bodies of a concrete stream.
use dynamic_modules_examples.Base.{
  ◌+◌, ◌≡◌, ◌<◌, ◌≤◌, ◌⊎◌, true, false, some, List, [], ◌∷◌, ◌++◌, arith, length,
}
use dynamic_modules_examples.Base.Bytes.{Bytes, codes, bytes_eq}
use dynamic_modules_examples.Base.GoMap.{GoMap}
use dynamic_modules_examples.Base.Outcome.{ok}
use dynamic_modules_examples.Memory.{Memory, EnvoySlice, contents, unsafe_slice, bytes_at}
use dynamic_modules_examples.BodyReader.{BodyReader, read, read_all, new_reader}
use dynamic_modules_examples.BodyReader.Read.{remaining, measure, read-remaining}
use dynamic_modules_examples.BodyReader.ReadAll.{read_all-contents}
use dynamic_modules_examples.EnvoyFilter.{
  envoy_http_filter, EnvoyFilter, get_header, get_headers, get_body, io_read_all,
}
use dynamic_modules_examples.EnvoyFilter.Headers.{
  IsGrouped, get_headers-IsGrouped, get_header-first_value,
}
use dynamic_modules_examples.EnvoyFilter.Body.{body, io_read_all-body}
use dynamic_modules_examples.Status.{RequestBodyStatus, ResponseBodyStatus}
use dynamic_modules_examples.Filters.Passthrough.{request_body, response_body}
use dynamic_modules_examples.Filters.Passthrough.Bodies.{
  request_body-restores, response_body-restores,
}
use dynamic_modules_examples.Examples.Stream.{
  Stream, stream_host, stream_headers, stream_body, stream-IsHeaders, stream-IsLookup,
  stream-IsBody,
}
use dynamic_modules_examples.Examples.Wire.{field_values, layout, blob}

-- Two chunks with an empty one between them; the byte at an address is the address.
abbrev identity : Memory
identity a = a

abbrev chunks : List EnvoySlice
chunks =
    record { start = 10; length = 3 }
    ∷ record { start = 20; length = 0 }
    ∷ record { start = 30; length = 2 }
    ∷ []

read_all-contents_example :
    (b : BodyReader) × (read_all identity (λ n. n + 512) 9 (new_reader chunks)
      ≡ some (contents identity chunks, b))
unfolding contents unsafe_slice bytes_at
read_all-contents_example =
    read_all-contents identity (λ n. n + 512) (λ n. omega arith) 9 chunks (omega arith)

abbrev reader : BodyReader
reader = record { chunks = chunks; index = 0; offset = 2 }

read-remaining_example :
    let r = read identity 2 reader in
    (remaining identity reader ≡ r.copied ++ remaining identity r.reader)
    × (length r.copied ≤ 2)
    × (((r.eof ≡ true) × (remaining identity reader ≡ []))
        ⊎ ((r.eof ≡ false) × (measure identity r.reader < measure identity reader)))
read-remaining_example = read-remaining identity 2 reader (omega arith)

abbrev envoy : EnvoyFilter
envoy = record { raw = 1 }

abbrev filled : Stream
filled = record {
  headers = (codes "x-auth", codes "a") ∷ (codes "x-auth", codes "b") ∷ [];
  body = codes "nice";
  log = [];
}

get_headers-IsGrouped_example :
    (headers : GoMap (List Bytes)) × (get_headers (stream_host 7) stream_headers envoy filled
      ≡ ok headers)
    × IsGrouped (stream_host 7) envoy (stream-IsHeaders 7) filled headers
unfolding stream-IsHeaders layout
get_headers-IsGrouped_example =
    get_headers-IsGrouped (stream_host 7) envoy (stream-IsHeaders 7) filled (λ e. cc)

get_header-first_value_example :
    get_header (stream_host 7) stream_headers envoy (codes "x-auth") filled ≡ (codes "a", true)
unfolding stream-IsLookup field_values bytes_eq
get_header-first_value_example =
    get_header-first_value (stream_host 7) envoy (stream-IsLookup 7) filled (codes "x-auth")

io_read_all-body_example :
    (r : BodyReader) × (get_body (stream_host 7) stream_body envoy filled ≡ ok (some r))
    × (io_read_all (stream_host 7) r filled
        ≡ ok (body (stream_host 7) envoy (stream-IsBody 7) filled))
unfolding stream-IsBody
io_read_all-body_example = io_read_all-body (stream_host 7) envoy (stream-IsBody 7) filled (λ e. cc)

request_body-restores_example :
    (s' : Stream) × (request_body
        (stream_host 7)
        (envoy_http_filter (stream_host 7) envoy)
        true
        filled
      ≡ ok (RequestBodyStatus.continue, s'))
    × (body (stream_host 7) envoy (stream-IsBody 7) s'
        ≡ body (stream_host 7) envoy (stream-IsBody 7) filled)
unfolding stream-IsBody contents unsafe_slice bytes_at blob
request_body-restores_example =
    request_body-restores (stream_host 7) envoy filled (stream-IsBody 7) (λ e. cc)

response_body-restores_example :
    (s' : Stream) × (response_body
        (stream_host 7)
        (envoy_http_filter (stream_host 7) envoy)
        true
        filled
      ≡ ok (ResponseBodyStatus.continue, s'))
    × (body (stream_host 7) envoy (stream-IsBody 7) s'
        ≡ body (stream_host 7) envoy (stream-IsBody 7) filled)
unfolding stream-IsBody contents unsafe_slice bytes_at blob
response_body-restores_example =
    response_body-restores (stream_host 7) envoy filled (stream-IsBody 7) (λ e. cc)
