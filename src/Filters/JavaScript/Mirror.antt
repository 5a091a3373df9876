-- ===== src/Filters/JavaScript/Mirror.antt =====
-- The map that a handler of go/javascript.go keeps for the script, against the headers that Envoy
-- has. The map tells names apart by case, and Envoy does not.
pub mod Request
pub mod Response
use dynamic_modules_examples.Base.{
  ℕ, ◌≡◌, sym, ap, ◌∙◌, ◌≢◌, Option, none, some, List, [], ◌∷◌, if◌then◌else◌, Bool-cases, inl, inr,
}
use dynamic_modules_examples.Base.Bytes.{Bytes, bytes_eq}
use dynamic_modules_examples.Base.GoMap.{GoMap, lookup, insert, lookup-insert}
use dynamic_modules_examples.Base.Outcome.{ok}
use dynamic_modules_examples.Host.{HeaderCallbacks, Host}
use dynamic_modules_examples.EnvoyFilter.{EnvoyFilter, get_headers}
use dynamic_modules_examples.EnvoyFilter.Headers.{
  IsHeaders, IsLookup, wire_values, get_headers-IsGrouped,
}
use dynamic_modules_examples.Status.{RequestHeadersStatus}
use dynamic_modules_examples.Filters.JavaScript.{JavaScriptFilter, copy_first, Handled, Ended}
use dynamic_modules_examples.Filters.JavaScript.Copy.{
  IsRange, AllFilled, first_or, AllNonempty-AllFilled, copy_first-first_or,
}
use dynamic_modules_examples.Filters.JavaScript.Script.{
  JsValue, undefined, Run, finished, log, call, RequestMethod,
}
use dynamic_modules_examples.Filters.JavaScript.Vm.{Goja, JavaScriptVm}
use dynamic_modules_examples.Filters.JavaScript.Handlers.{
  run_request, finish_request, request_headers,
}

-- What Envoy documents of setting a header: all values of the name are replaced by the new one.
-- Names are equal if their canonical forms are.
pub record IsSetting (H : Host) (raw : ℕ) {c : HeaderCallbacks H.State} (is : IsLookup H c raw)
    : Type 0 where
  pub canonical : Bytes → Bytes
  pub set :
      (s : H.State) (key value j : Bytes)
      → is.values (c.set s raw key value).1 j
        ≡ (if bytes_eq (canonical key) (canonical j) then value ∷ [] else is.values s j)
  pub print : (s : H.State) (text j : Bytes) → is.values (H.print s text) j ≡ is.values s j

module _ (H : Host) (e : EnvoyFilter) {c : HeaderCallbacks H.State} {is : IsLookup H c e.raw}
    (law : IsSetting H e.raw is) where
  unfoldable pub Canonical : Bytes → Type 0
  Canonical key = law.canonical key ≡ key

  -- The map has the first value of each header with a canonical name.
  unfoldable pub Mirrors : GoMap Bytes → H.State → Type 0
  Mirrors headers s =
      (key : Bytes) → Canonical key → lookup key headers ≡ first_or (is.values s key) none

  pub set-Mirrors :
      (key value : Bytes) (headers : GoMap Bytes) (s : H.State)
      → Canonical key
      → Mirrors headers s
      → Mirrors (insert key value headers) (c.set s e.raw key value).1
  unfolding Canonical Mirrors
  set-Mirrors key value headers s own m j d = elim (Bool-cases (bytes_eq key j)) [
    | inl same ↦ rw (lookup-insert j key value headers, law.set s key value j, own, d, same)
    | inr other ↦
        rw (lookup-insert j key value headers, law.set s key value j, own, d, other, m j d)
  ]

  pub print-Mirrors :
      (text : Bytes) (headers : GoMap Bytes) (s : H.State)
      → Mirrors headers s
      → Mirrors headers (H.print s text)
  unfolding Canonical Mirrors
  print-Mirrors text headers s m j d = rw (law.print s text j, m j d)

  -- What Envoy documents of its two ways to read the headers: they agree, and names are canonical.
  pub record IsAgreeing (hs : IsHeaders H c e.raw) : Type 0 where
    pub agree :
        (s : H.State) (key : Bytes)
        → Canonical key
        → wire_values (H.memory s) key (hs.entries s) ≡ is.values s key

  pub copied_Mirrors :
      (hs : IsHeaders H c e.raw)
      → IsAgreeing hs
      → (range : GoMap (List Bytes) → GoMap (List Bytes)) → IsRange range
      → (s : H.State) → hs.entries s ≢ []
      → (headers : GoMap (List Bytes)) × (copied : GoMap Bytes) × (get_headers H c e s ≡ ok headers)
        × (copy_first (range headers) [] ≡ ok copied)
        × Mirrors copied s
  unfolding Mirrors Canonical lookup
  copied_Mirrors hs agreeing range r s ne =
      let (headers, got, grouped) = get_headers-IsGrouped H e hs s ne in
      let filled : AllFilled (range headers) = λ k vs there.
        AllNonempty-AllFilled (H.memory s) headers grouped.nonempty k vs
          (sym (r.same headers grouped.nodup k) ∙ there) in
      let (copied, done, firsts) =
        copy_first-first_or (range headers) [] (r.nodup headers grouped.nodup) filled in
      (
        headers,
        copied,
        got,
        done,
        λ key own.
            firsts key
            ∙ ap (λ (o : Option (List Bytes)). first_or (elim o [ none ↦ [] | some vs ↦ vs ]) none)
                (r.same headers grouped.nodup key)
            ∙ ap (λ (vs : List Bytes). first_or vs none)
                (grouped.values key ∙ agreeing.agree s key own),
      )
