-- ===== src/Filters/JavaScript/Copy.antt =====
-- The loops that copy the first value of each header, in `RequestHeaders` and `ResponseHeaders` of
-- go/javascript.go.
use dynamic_modules_examples.Base.{
  ◌≡◌, refl, sym, ap, ◌∙◌, ◌≢◌, Option, none, some, List, [], ◌∷◌, if◌then◌else◌, arith, Bool-cases,
  inl, inr,
}
use dynamic_modules_examples.Base.Bytes.{Bytes, bytes_eq, bytes_eq_iff, bytes_eq_refl}
use dynamic_modules_examples.Base.GoMap.{GoMap, lookup, insert, NodupKeys, lookup-insert}
use dynamic_modules_examples.Base.Outcome.{ok}
use dynamic_modules_examples.EnvoyFilter.{values_of}
use dynamic_modules_examples.Memory.{Memory}
use dynamic_modules_examples.EnvoyFilter.Headers.{AllNonempty}
use dynamic_modules_examples.Filters.JavaScript.{copy_first}

-- What Go documents of a range over a map: each entry comes once, in any order.
pub record IsRange (range : GoMap (List Bytes) → GoMap (List Bytes)) : Type 0 where
  pub nodup : (m : GoMap (List Bytes)) → NodupKeys m → NodupKeys (range m)
  pub same : (m : GoMap (List Bytes)) → NodupKeys m → (k : Bytes) → lookup k (range m) ≡ lookup k m

-- No key leads to an empty list.
abbrev pub AllFilled : GoMap (List Bytes) → Type 0
AllFilled m = (k : Bytes) (vs : List Bytes) → lookup k m ≡ some vs → vs ≢ []

abbrev pub first_or : List Bytes → Option Bytes → Option Bytes
first_or [] old = old
first_or (v ∷ _) old = some v

pub AllNonempty-AllFilled :
    (mem : Memory) (m : GoMap (List Bytes)) → AllNonempty mem m → AllFilled m
unfolding lookup
AllNonempty-AllFilled mem [] all k vs there = cc
AllNonempty-AllFilled mem ((j, ws) ∷ m) (ne, all) k vs there =
    ground (arith, AllNonempty-AllFilled mem m all k vs)

AllFilled-tail :
    (k : Bytes) (vs : List Bytes) (m : GoMap (List Bytes))
    → lookup k m ≡ none
    → AllFilled ((k, vs) ∷ m)
    → AllFilled m
unfolding lookup
AllFilled-tail k vs m fresh all j ws there = ground (arith, all j ws, bytes_eq_iff k j)

values_of-cons :
    (j k : Bytes) (vs : List Bytes) (m : GoMap (List Bytes))
    → values_of j ((k, vs) ∷ m) ≡ (if bytes_eq k j then vs else values_of j m)
unfolding lookup
values_of-cons j k vs m = ground arith

step :
    (k v : Bytes) (vs : List Bytes) (entries : GoMap (List Bytes)) (headers : GoMap Bytes)
    → lookup k entries ≡ none
    → (j : Bytes)
    → first_or (values_of j entries) (lookup j (insert k v headers))
      ≡ first_or (values_of j ((k, v ∷ vs) ∷ entries)) (lookup j headers)
step k v vs entries headers fresh j = elim (Bool-cases (bytes_eq k j)) [
  | inl same ↦
      let e = (bytes_eq_iff k j).0 same in
      let gone : lookup j entries ≡ none = ap (λ i. lookup i entries) (sym e) ∙ fresh in
      rw (values_of-cons j k (v ∷ vs) entries, lookup-insert j k v headers, same, values_of, gone)
  | inr other ↦ rw (values_of-cons j k (v ∷ vs) entries, lookup-insert j k v headers, other)
]

-- Over a range that has no key twice and no empty list, the loop returns, and each key of the range
-- then has its first value, and each other key what it had.
pub copy_first-first_or :
    (entries : GoMap (List Bytes)) (headers : GoMap Bytes)
    → NodupKeys entries
    → AllFilled entries
    → (copied : GoMap Bytes) × (copy_first entries headers ≡ ok copied)
      × ((j : Bytes) → lookup j copied ≡ first_or (values_of j entries) (lookup j headers))
unfolding copy_first lookup
copy_first-first_or [] headers u all = (headers, refl, λ j. refl)
copy_first-first_or ((k, []) ∷ entries) headers (fresh, u) all =
    elim (all k [] (rw (bytes_eq_refl k)) refl) [ ]
copy_first-first_or ((k, v ∷ vs) ∷ entries) headers (fresh, u) all =
    let (copied, done, same) =
      copy_first-first_or entries (insert k v headers) u
        (AllFilled-tail k (v ∷ vs) entries fresh all) in
    (copied, done, λ j. same j ∙ step k v vs entries headers fresh j)
