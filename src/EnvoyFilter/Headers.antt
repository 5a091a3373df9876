-- ===== src/EnvoyFilter/Headers.antt =====
-- `GetRequestHeader(s)` and `GetResponseHeader(s)` over a host that keeps to its documentation.
use mathlib.Core.List.{append_assoc, append-nil}
use dynamic_modules_examples.Base.{
  ℕ, ◌<◌, ◌≡◌, refl, ◌∙◌, ap, sym, ◌≢◌, Bool, true, false, List, [], ◌∷◌, ◌++◌, ◌==◌, leb,
  if◌then◌else◌, length, replicate, length-replicate, length-pos, drop_of_le, arith, Bool-cases,
  inl, inr,
}
use dynamic_modules_examples.Base.Bytes.{Bytes, bytes_eq, bytes_eq_iff}
use dynamic_modules_examples.Base.GoMap.{
  GoMap, lookup, insert, NodupKeys, lookup-insert, insert-NodupKeys,
}
use dynamic_modules_examples.Base.Outcome.{ok, panic, buffer_overrun}
use dynamic_modules_examples.Memory.{Memory, EnvoySlice, zero_slice, unsafe_slice}
use dynamic_modules_examples.Host.{HeaderCallbacks, Host}
use dynamic_modules_examples.EnvoyFilter.{
  EnvoyFilter, overwrite, values_of, group_headers, get_header, get_headers,
}

-- An array of the right length is overwritten whole.
pub overwrite_whole {ℓ} :
    {A : Type ℓ} (array written : List A)
    → length written ≡ length array
    → overwrite array written ≡ ok written
unfolding overwrite
overwrite_whole array written e =
    let inside : leb (length written) (length array) ≡ true = ground arith in
    rw (inside, drop_of_le (length written) array (omega arith), append-nil)

-- A longer write of the host would go past the end of the array.
pub overwrite_past {ℓ} :
    {A : Type ℓ} (array written : List A)
    → length array < length written
    → overwrite array written ≡ panic buffer_overrun
unfolding overwrite
overwrite_past array written e =
    let outside : leb (length written) (length array) ≡ false = ground arith in rw outside

module _ (mem : Memory) where
  -- The values under a key among the pairs that the host wrote, in their order.
  unfoldable pub wire_values : Bytes → List (EnvoySlice × EnvoySlice) → List Bytes
  wire_values key [] = []
  wire_values key ((k, v) ∷ raw) =
      let rest = wire_values key raw in
      if bytes_eq (unsafe_slice mem k) key then unsafe_slice mem v ∷ rest else rest

  values_of-insert :
      (key k : Bytes) (vs : List Bytes) (m : GoMap (List Bytes))
      → values_of key (insert k vs m) ≡ (if bytes_eq k key then vs else values_of key m)
  values_of-insert key k vs m = ground (arith, lookup-insert key k vs m)

  pub values_of-group_headers :
      (key : Bytes) (raw : List (EnvoySlice × EnvoySlice)) (m : GoMap (List Bytes))
      → values_of key (group_headers mem raw m) ≡ values_of key m ++ wire_values key raw
  unfolding group_headers wire_values
  values_of-group_headers key [] m = sym (append-nil (values_of key m))
  values_of-group_headers key ((k, v) ∷ raw) m =
      let j = unsafe_slice mem k in
      let value = unsafe_slice mem v in
      let vs = values_of j m ++ (value ∷ []) in
      let rest = values_of-group_headers key raw (insert j vs m) in
      let here = values_of-insert key j vs m in
      elim (Bool-cases (bytes_eq j key)) [
        | inl same ↦
            let e = (bytes_eq_iff j key).0 same in
            let now : values_of key (insert j vs m) ≡ vs = ground arith in
            rw same (
              rest
              ∙ ap (λ (l : List Bytes). l ++ wire_values key raw) now
              ∙ append_assoc (values_of j m) (value ∷ []) (wire_values key raw)
              ∙ ap (λ (i : Bytes). values_of i m ++ (value ∷ wire_values key raw)) e)
        | inr other ↦
            let now : values_of key (insert j vs m) ≡ values_of key m = ground arith in
            rw other (rest ∙ ap (λ (l : List Bytes). l ++ wire_values key raw) now)
      ]

  -- No key has an empty list, so the first value of each can be taken.
  abbrev pub AllNonempty : GoMap (List Bytes) → Type 0
  AllNonempty [] = Unit
  AllNonempty ((k, vs) ∷ m) = (vs ≢ []) × AllNonempty m

  insert-AllNonempty :
      (k : Bytes) (vs : List Bytes) (m : GoMap (List Bytes))
      → vs ≢ []
      → AllNonempty m
      → AllNonempty (insert k vs m)
  unfolding insert
  insert-AllNonempty k vs [] ne all = (ne, tt)
  insert-AllNonempty k vs ((j, ws) ∷ m) ne all = ground (arith, insert-AllNonempty k vs m ne)

  append-ne_nil : (vs : List Bytes) (v : Bytes) → vs ++ (v ∷ []) ≢ []
  append-ne_nil [] v e = cc
  append-ne_nil (w ∷ vs) v e = cc

  pub group_headers-AllNonempty :
      (raw : List (EnvoySlice × EnvoySlice)) (m : GoMap (List Bytes))
      → AllNonempty m
      → AllNonempty (group_headers mem raw m)
  unfolding group_headers
  group_headers-AllNonempty [] m all = all
  group_headers-AllNonempty ((k, v) ∷ raw) m all =
      group_headers-AllNonempty raw _ (insert-AllNonempty _ _ m (append-ne_nil _ _) all)

  pub group_headers-NodupKeys :
      (raw : List (EnvoySlice × EnvoySlice)) (m : GoMap (List Bytes))
      → NodupKeys m
      → NodupKeys (group_headers mem raw m)
  unfolding group_headers
  group_headers-NodupKeys [] m all = all
  group_headers-NodupKeys ((k, v) ∷ raw) m all =
      group_headers-NodupKeys raw _ (insert-NodupKeys _ _ m all)

-- What Envoy documents of a set of headers: the array gets exactly as many pairs as were counted,
-- and a key's first value is found under index 0.
pub record IsHeaders (H : Host) (c : HeaderCallbacks H.State) (raw : ℕ) : Type 0 where
  pub entries : H.State → List (EnvoySlice × EnvoySlice)
  pub counted : (s : H.State) → c.count s raw ≡ length (entries s)
  pub written : (s : H.State) → c.all s raw ≡ (true, entries s)

module _ (H : Host) {c : HeaderCallbacks H.State} (e : EnvoyFilter) (is : IsHeaders H c e.raw)
    (s : H.State) where
  -- A map with the values of every key in wire order, no key twice, and no key without a value.
  pub record IsGrouped (headers : GoMap (List Bytes)) : Type 0 where
    pub values : (key : Bytes) → values_of key headers ≡ wire_values (H.memory s) key (is.entries s)
    pub nonempty : AllNonempty (H.memory s) headers
    pub nodup : NodupKeys headers

  -- Where Envoy has a header, `GetRequestHeaders` and `GetResponseHeaders` return a map with all
  -- values of every key in wire order, no key twice, and no key without a value.
  pub get_headers-IsGrouped :
      is.entries s ≢ []
      → (headers : GoMap (List Bytes)) × (get_headers H c e s ≡ ok headers) × IsGrouped headers
  unfolding get_headers lookup
  get_headers-IsGrouped ne = (
    group_headers (H.memory s) (is.entries s) [],
    (let empty : EnvoySlice × EnvoySlice = (zero_slice, zero_slice) in
        let there : (length (is.entries s) == 0) ≡ false =
          ground (arith, length-pos (is.entries s) ne) in
        let whole =
          overwrite_whole (replicate (length (is.entries s)) empty) (is.entries s)
            (omega (arith, length-replicate (length (is.entries s)) empty)) in
        rw (is.counted s, is.written s, there, whole)),
    record {
      values = λ key. values_of-group_headers (H.memory s) key (is.entries s) [];
      nonempty = group_headers-AllNonempty (H.memory s) (is.entries s) [] tt;
      nodup = group_headers-NodupKeys (H.memory s) (is.entries s) [] tt;
    },
  )

-- What Envoy documents of `get`: the count of the values under a key, and the value at index 0.
pub record IsLookup (H : Host) (c : HeaderCallbacks H.State) (raw : ℕ) : Type 0 where
  pub values : H.State → Bytes → List Bytes
  pub counted : (s : H.State) (key : Bytes) → (c.get s raw key 0).0 ≡ length (values s key)
  pub first :
      (s : H.State) (key v : Bytes) (vs : List Bytes)
      → values s key ≡ v ∷ vs
      → unsafe_slice (H.memory s) (c.get s raw key 0).1 ≡ v

abbrev pub first_value : List Bytes → Bytes × Bool
first_value [] = ([], false)
first_value (v ∷ _) = (v, true)

-- `GetRequestHeader` and `GetResponseHeader` return the first value of the key and true, or the
-- empty string and false where the key has no value.
pub get_header-first_value :
    (H : Host) {c : HeaderCallbacks H.State} (e : EnvoyFilter) (is : IsLookup H c e.raw)
    (s : H.State) (key : Bytes)
    → get_header H c e key s ≡ first_value (is.values s key)
unfolding get_header
get_header-first_value H {c} e is s key = go (is.values s key) refl
  where
    go : (vs : List Bytes) → is.values s key ≡ vs → get_header H c e key s ≡ first_value vs
    go [] none_there = rw (is.counted s key, none_there)
    go (v ∷ vs) there =
        let nonzero : (length (v ∷ vs) == 0) ≡ false = ground arith in
        rw (is.counted s key, there, nonzero, is.first s key v vs there)
