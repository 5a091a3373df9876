-- ===== src/Filters/Passthrough/Marks.antt =====
-- `RequestHeaders` and `ResponseHeaders` of go/passthrough.go, against the headers that Envoy has.
use dynamic_modules_examples.Base.{
  ◌≡◌, ◌≢◌, refl, sym, ap, ◌∙◌, Bool, true, List, [], ◌∷◌, ◌++◌, if◌then◌else◌,
}
use dynamic_modules_examples.Base.Bytes.{Bytes, codes, bytes_eq, bytes_eq_refl}
use dynamic_modules_examples.Base.GoMap.{GoMap}
use dynamic_modules_examples.Base.Outcome.{ok}
use dynamic_modules_examples.Host.{HeaderCallbacks, Host}
use dynamic_modules_examples.EnvoyFilter.{envoy_http_filter, EnvoyFilter, get_header}
use dynamic_modules_examples.EnvoyFilter.Headers.{
  IsHeaders, IsLookup, wire_values, first_value, get_header-first_value, get_headers-IsGrouped,
}
use dynamic_modules_examples.Status.{RequestHeadersStatus, ResponseHeadersStatus}
use dynamic_modules_examples.Filters.JavaScript.Mirror.{IsSetting, IsAgreeing, Canonical}
use dynamic_modules_examples.Filters.Passthrough.{
  print_values, print_headers, print_line, line_feed, show_bool, request_headers, response_headers,
}

abbrev pub mark : Bytes
mark = codes "x-passthrough-response-header"

module _ (H : Host) (e : EnvoyFilter) {c : HeaderCallbacks H.State} {is : IsLookup H c e.raw}
    (law : IsSetting H e.raw is) where
  -- Printing the headers changes none.
  values-print_values :
      (prefix : Bytes) (vs : List Bytes) (s : H.State) (j : Bytes)
      → is.values (print_values H prefix vs s) j ≡ is.values s j
  unfolding print_values
  values-print_values prefix [] s j = refl
  values-print_values prefix (v ∷ vs) s j = values-print_values prefix vs _ j ∙ law.print s _ j

  values-print_headers :
      (prefix : Bytes) (headers : GoMap (List Bytes)) (s : H.State) (j : Bytes)
      → is.values (print_headers H prefix headers s) j ≡ is.values s j
  unfolding print_headers
  values-print_headers prefix [] s j = refl
  values-print_headers prefix ((k, vs) ∷ headers) s j =
      values-print_headers prefix headers _ j ∙ values-print_values _ vs s j

module _ (H : Host) (e : EnvoyFilter) {c : HeaderCallbacks H.State} {is : IsLookup H c e.raw}
    (law : IsSetting H e.raw is) (hs : IsHeaders H c e.raw) where
  -- Headers that are read one by one are there when all are read.
  entries-value :
      (key v : Bytes) (vs : List Bytes) (s : H.State)
      → IsAgreeing H e law hs
      → Canonical H e law key
      → is.values s key ≡ v ∷ vs
      → hs.entries s ≢ []
  unfolding wire_values
  entries-value key v vs s agreeing own there gone =
      let none_there : wire_values (H.memory s) key (hs.entries s) ≡ [] = rw gone refl in
      let no : v ∷ vs ≡ [] = sym there ∙ sym (agreeing.agree s key own) ∙ none_there in cc

module _ (H : Host) (e : EnvoyFilter) {is : IsLookup H H.response_headers e.raw}
    (law : IsSetting H e.raw is) (hs : IsHeaders H H.response_headers e.raw) where
  -- A response with a `:status`, from a host to which the name of the mark is canonical: the filter
  -- goes on, Envoy then has `true` as the one value of `x-passthrough-response-header`, and the values
  -- of every other header are as they were.
  pub response_headers-marked :
      IsAgreeing H e law hs
      → Canonical H e law mark
      → (range : GoMap (List Bytes) → GoMap (List Bytes)) (end_of_stream : Bool) (s : H.State)
        {v : Bytes} {vs : List Bytes}
      → is.values s (codes ":status") ≡ v ∷ vs
      → (s' : H.State) × (response_headers H (envoy_http_filter H e) range end_of_stream s
          ≡ ok (ResponseHeadersStatus.continue, s'))
        × ((j : Bytes)
            → is.values s' j
              ≡ (if bytes_eq mark (law.canonical j) then codes "true" ∷ [] else is.values s j))
  unfolding response_headers Canonical
  response_headers-marked agreeing own range end_of_stream s {v} there =
      let looked_up : get_header H H.response_headers e (codes ":status") s ≡ (v, true) =
        get_header-first_value H e is s (codes ":status") ∙ ap first_value there in
      let s1 = print_line H (codes "gosdk: ResponseHeaders, status: " ++ v) s in
      let s2 = (H.response_headers.set s1 e.raw mark (codes "true")).1 in
      let values2 : (j : Bytes)
          → is.values s2 j
            ≡ (if bytes_eq mark (law.canonical j) then codes "true" ∷ [] else is.values s j) =
        (λ j.
          law.set s1 mark (codes "true") j
          ∙ rw (own, law.print s (codes "gosdk: ResponseHeaders, status: " ++ v ++ line_feed) j)
              refl) in
      let marked : is.values s2 mark ≡ codes "true" ∷ [] =
        values2 mark ∙ rw (own, bytes_eq_refl mark) refl in
      let (headers, got, grouped) =
        get_headers-IsGrouped H e hs s2
          (entries-value H e law hs mark (codes "true") [] s2 agreeing own marked) in
      (
        print_headers H (codes "gosdk: ResponseHeaders, header: ") (range headers) s2,
        rw (looked_up, got) refl,
        λ j. values-print_headers H e law _ (range headers) s2 j ∙ values2 j,
      )

module _ (H : Host) (e : EnvoyFilter) {is : IsLookup H H.request_headers e.raw}
    (law : IsSetting H e.raw is) (hs : IsHeaders H H.request_headers e.raw) where
  -- A request with a value of some canonical name: the filter goes on, and Envoy has the values of
  -- every header as before, whatever the filter has printed.
  pub request_headers-kept :
      IsAgreeing H e law hs
      → (range : GoMap (List Bytes) → GoMap (List Bytes)) (end_of_stream : Bool) (s : H.State)
        (key : Bytes) {v : Bytes} {vs : List Bytes}
      → Canonical H e law key
      → is.values s key ≡ v ∷ vs
      → (s' : H.State) × (request_headers H (envoy_http_filter H e) range end_of_stream s
          ≡ ok (RequestHeadersStatus.continue, s'))
        × ((j : Bytes) → is.values s' j ≡ is.values s j)
  unfolding request_headers
  request_headers-kept agreeing range end_of_stream s key {v} {vs} own there =
      let E = envoy_http_filter H e in
      let foo = (E.get_request_header (codes "foo") s).0 in
      let s1 = print_line H (codes "gosdk: RequestHeaders, foo: " ++ foo) s in
      let s2 =
        print_line H (codes "gosdk: RequestHeaders, endOfStream: " ++ show_bool end_of_stream) s1 in
      let kept2 : (j : Bytes) → is.values s2 j ≡ is.values s j =
        (λ j. law.print s1 _ j ∙ law.print s _ j) in
      let (headers, got, grouped) =
        get_headers-IsGrouped H e hs s2
          (entries-value H e law hs key v vs s2 agreeing own (kept2 key ∙ there)) in
      let s3 = print_headers H (codes "gosdk: RequestHeaders, header: ") (range headers) s2 in
      let s4 =
        print_line H (codes "gosdk: RequestHeaders, source address: " ++ E.get_source_address s3)
          s3 in
      let s5 =
        print_line H
          (codes "gosdk: RequestHeaders, request protocol: " ++ E.get_request_protocol s4) s4 in
      (
        s5,
        rw got refl,
        λ j.
            law.print s4 _ j
            ∙ law.print s3 _ j
            ∙ values-print_headers H e law _ (range headers) s2 j
            ∙ kept2 j,
      )
