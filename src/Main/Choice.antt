-- ===== src/Main/Choice.antt =====
-- The configurations that `newHttpFilterConfig` of go/main.go returns, and the filters they make.
use mathlib.Core.Path.{subst}
use mathlib.Core.Option.{some-injective}
use dynamic_modules_examples.Base.{
  ℕ, zero, suc, ◌+◌, ◌<◌, ◌≡◌, refl, Option, none, some, List, [], ◌∷◌, ◌==◌, length, get_elem?,
  arith, Bool-cases, inl, inr,
}
use dynamic_modules_examples.Base.Bytes.{Bytes, codes, bytes_eq}
use dynamic_modules_examples.Base.Outcome.{Outcome, ok, panic}
use dynamic_modules_examples.Host.{Host}
use dynamic_modules_examples.Filters.JavaScript.Handlers
use dynamic_modules_examples.Filters.JavaScript.Vm.{
  Goja, JavaScriptVm, new_java_script_vm, new_vms, new_java_script_filter_config,
}
use dynamic_modules_examples.Main.{
  HttpFilterConfig, HttpFilter, new_filter, Vms, store_vms, addresses, NewConfig,
  new_http_filter_config,
}

module _ (G : Goja) (H : Host) where
  -- A pool that is made has an interpreter for every round.
  new_vms-length :
      (left place : ℕ) (code : Bytes) (s : H.State) (pool : List (JavaScriptVm G))
      → (new_vms G H left place code s).0 ≡ some pool
      → length pool ≡ left
  unfolding new_vms
  new_vms-length zero place code s pool made = grind arith
  new_vms-length (suc left) place code s pool made =
      grind (arith, new_vms-length left (place + 1) code (new_java_script_vm G H place code s).1)

  -- The filter's interpreter is on the heap.
  pub HasVm : Vms G H → HttpFilter → Type 0
  HasVm vms (HttpFilter.java_script p) = (vm : JavaScriptVm G) × (vms p.vm ≡ some vm)
  HasVm vms _ = Unit

  kept :
      (fresh_vm : ℕ → ℕ) (place : ℕ) (pool : List (JavaScriptVm G)) (vms : Vms G H) (a : ℕ)
      → ((vm : JavaScriptVm G) × (vms a ≡ some vm))
      → (vm : JavaScriptVm G) × (store_vms G H fresh_vm place pool vms a ≡ some vm)
  unfolding store_vms
  kept fresh_vm place [] vms a live = live
  kept fresh_vm place (new ∷ pool) vms a (vm, live) =
      kept fresh_vm (place + 1) pool _ a (elim (Bool-cases (fresh_vm place == a)) [
        | inl same ↦ (new, rw same refl)
        | inr other ↦ (vm, rw other live)
      ])

  in_pool :
      (fresh_vm : ℕ → ℕ) (place : ℕ) (pool : List (JavaScriptVm G)) (vms : Vms G H) (i : ℕ)
      → i < length pool
      → (a : ℕ) × (vm : JavaScriptVm G) × (get_elem? (addresses G H fresh_vm place pool) i ≡ some a)
        × (store_vms G H fresh_vm place pool vms a ≡ some vm)
  unfolding store_vms addresses
  in_pool fresh_vm place [] vms i lt = (let no : ⊥ = omega arith in elim no [ ])
  in_pool fresh_vm place (new ∷ pool) vms zero lt =
      let (vm, live) = kept fresh_vm (place + 1) pool _ (fresh_vm place) (new, ground arith) in
      (fresh_vm place, vm, refl, live)
  in_pool fresh_vm place (new ∷ pool) vms (suc i) lt =
      in_pool fresh_vm (place + 1) pool _ i (omega arith)

  -- A configuration from which a filter can be made, whatever number is drawn for its interpreter.
  MakesFilters : Vms G H → HttpFilterConfig → Type 0
  MakesFilters vms c =
      (choice : ℕ) → choice < 24 → (f : HttpFilter) × (new_filter choice c ≡ ok f) × HasVm vms f

  pool-MakesFilters :
      (fresh_vm : ℕ → ℕ) (pool : List (JavaScriptVm G)) (vms : Vms G H)
      → length pool ≡ 24
      → MakesFilters
          (store_vms G H fresh_vm 0 pool vms)
          (HttpFilterConfig.java_script (addresses G H fresh_vm 0 pool))
  unfolding MakesFilters HasVm new_filter Handlers.new_filter
  pool-MakesFilters fresh_vm pool vms full choice lt =
      let (a, vm, there, live) = in_pool fresh_vm 0 pool vms choice (omega arith) in
      (
        HttpFilter.java_script (record { vm = a; request_headers = []; response_headers = [] }),
        rw there refl,
        (vm, live),
      )

  AllMakeFilters : Outcome (NewConfig G H) → Type 0
  AllMakeFilters (panic _) = Unit
  AllMakeFilters (ok r) = (c : HttpFilterConfig) → r.config ≡ some c → MakesFilters r.vms c

  -- The case of javascript, with its nil configuration.
  java_script-AllMakeFilters :
      (fresh_vm : ℕ → ℕ) (o : Option (List (JavaScriptVm G))) (vms : Vms G H) (s : H.State)
      → ((pool : List (JavaScriptVm G)) → o ≡ some pool → length pool ≡ 24)
      → AllMakeFilters (
          ok (elim o [
            | none ↦ record { config = none; vms = vms; state = s }
            | some pool ↦ record {
              config = some (HttpFilterConfig.java_script (addresses G H fresh_vm 0 pool));
              vms = store_vms G H fresh_vm 0 pool vms;
              state = s;
            }
          ]))
  unfolding AllMakeFilters
  java_script-AllMakeFilters fresh_vm none vms s full c is = cc
  java_script-AllMakeFilters fresh_vm (some pool) vms s full c is =
      subst (MakesFilters (store_vms G H fresh_vm 0 pool vms)) (some-injective _ _ is)
        (pool-MakesFilters fresh_vm pool vms (full pool refl))

  plain-MakesFilters :
      (vms : Vms G H) (p c : HttpFilterConfig)
      → MakesFilters vms p
      → some p ≡ some c
      → MakesFilters vms c
  plain-MakesFilters vms p c makes is = subst (MakesFilters vms) (some-injective _ _ is) makes

  new_http_filter_config-AllMakeFilters :
      (fresh_vm : ℕ → ℕ) (name code : Bytes) (vms : Vms G H) (s : H.State)
      → AllMakeFilters (new_http_filter_config G H fresh_vm name code vms s)
  unfolding new_http_filter_config AllMakeFilters MakesFilters HasVm new_filter
      new_java_script_filter_config
  new_http_filter_config-AllMakeFilters fresh_vm name code vms s =
      elim (Bool-cases (bytes_eq name (codes "passthrough"))) [
        | inl is_pass ↦ rw is_pass (λ c is.
            plain-MakesFilters vms _ c (λ choice lt. (HttpFilter.passthrough, refl, tt)) is)
        | inr not_pass ↦ rw not_pass (elim (Bool-cases (bytes_eq name (codes "header_auth"))) [
          | inl is_auth ↦ rw is_auth (λ c is.
              plain-MakesFilters vms _ c (λ choice lt. (HttpFilter.header_auth _, refl, tt)) is)
          | inr not_auth ↦ rw not_auth (elim (Bool-cases (bytes_eq name (codes "delay"))) [
            | inl is_delay ↦ rw is_delay (λ c is.
                plain-MakesFilters vms _ c (λ choice lt. (HttpFilter.delay _, refl, tt)) is)
            | inr not_delay ↦ rw not_delay (elim (Bool-cases (bytes_eq name (codes "javascript"))) [
              | inl is_js ↦ rw is_js (
                  java_script-AllMakeFilters fresh_vm (new_java_script_filter_config G H code s).0
                    vms (new_java_script_filter_config G H code s).1 (new_vms-length 24 0 code s))
              | inr not_js ↦ rw not_js tt
            ])
          ])
        ])
      ]

  -- Every configuration that `newHttpFilterConfig` returns makes a filter for each number below 24,
  -- which are those that the random choice may draw, and the interpreter of that filter, if it has
  -- one, is on the heap.
  pub new_http_filter_config-new_filter :
      (fresh_vm : ℕ → ℕ) (name code : Bytes) (vms : Vms G H) (s : H.State)
      → {r : NewConfig G H} {c : HttpFilterConfig} (choice : ℕ)
      → new_http_filter_config G H fresh_vm name code vms s ≡ ok r
      → r.config ≡ some c
      → choice < 24
      → (f : HttpFilter) × (new_filter choice c ≡ ok f) × HasVm r.vms f
  unfolding AllMakeFilters MakesFilters
  new_http_filter_config-new_filter fresh_vm name code vms s {c} choice made is lt =
      subst AllMakeFilters made (new_http_filter_config-AllMakeFilters fresh_vm name code vms s) c
        is choice lt
