-- ===== src/Abi/Reachable/Created.antt =====
-- What a hook that returned has left in the memory manager.
use dynamic_modules_examples.Base.{ℕ, ◌≡◌, ◌≢◌, refl, sym, ap, ◌∙◌, Option, none, some, List}
use mathlib.Core.Path.{subst}
use dynamic_modules_examples.Base.Bytes.{Bytes}
use dynamic_modules_examples.Base.GoMap.{GoMap}
use dynamic_modules_examples.Base.Int.{ℤ}
use dynamic_modules_examples.Base.Outcome.{Fault, Outcome, ok, panic, ◌>>=◌}
use dynamic_modules_examples.Host.{Host}
use dynamic_modules_examples.Mem.{Ptr, null, MemoryManager, mem_manager, pin_http_filter_config}
use dynamic_modules_examples.Mem.Manager.{Pool, insert, Represents}
use dynamic_modules_examples.Mem.Manager.Refine.{
  pin_http_filter_config-insert, unwrap_pinned_http_filter_config-lookup,
}
use dynamic_modules_examples.Filters.JavaScript.Vm.{Goja}
use dynamic_modules_examples.Main.{HttpFilterConfig, HttpFilter, new_filter, new_http_filter_config}
use dynamic_modules_examples.Abi.{World, go_bytes, on_http_filter_config_new, on_http_filter_new}
use dynamic_modules_examples.Abi.Events.{Served}
use dynamic_modules_examples.Abi.Events.Laws.{IsServed, returned, panicked}

module _ (G : Goja) (H : Host) (range : GoMap (List Bytes) → GoMap (List Bytes)) (show : ℤ → Bytes)
    (itoa : ℕ → Bytes) where
  panic-ne_ok : {A : Type 0} {fault : Fault} {a : A} → ¬ (◌≡◌ {A = Outcome A} (panic fault) (ok a))
  panic-ne_ok e = cc

  manager_of :
      {A : Type 0} → (A → World G H) → Outcome A → MemoryManager HttpFilterConfig HttpFilter
  manager_of world (ok a) = (world a).manager
  manager_of world (panic _) = mem_manager

  -- Two results of one call have one manager.
  pub same_manager :
      {A : Type 0} (world : A → World G H) {o : Outcome A} {a b : A}
      → o ≡ ok a
      → o ≡ ok b
      → (world b).manager ≡ (world a).manager
  unfolding manager_of
  same_manager world e f = ap (manager_of world) (sym f ∙ e)

  -- `on_http_filter_config_new` returned `fresh` only with a configuration pinned there.
  unfoldable pub Created :
      (fresh : Ptr) → Pool HttpFilterConfig → Pool HttpFilter → Outcome (Ptr × World G H) → Type 0
  Created fresh configs filters (panic _) = Unit
  Created fresh configs filters (ok (q, w)) =
      q ≡ fresh → (c : HttpFilterConfig) × Represents w.manager (insert configs fresh c) filters

  after-Created :
      {A : Type 0} (fresh : Ptr) (configs : Pool HttpFilterConfig) (filters : Pool HttpFilter)
      (o : Outcome A) (f : A → Outcome (Ptr × World G H))
      → ((a : A) → Created fresh configs filters (f a))
      → Created fresh configs filters (o >>= f)
  unfolding Created
  after-Created fresh configs filters (ok a) f each = each a
  after-Created fresh configs filters (panic _) f each = tt

  pub config_new-Created :
      (fresh : Ptr) (fresh_vm : ℕ → ℕ) (name config : Bytes) (w : World G H)
      {configs : Pool HttpFilterConfig} {filters : Pool HttpFilter}
      → Represents w.manager configs filters
      → fresh ≢ null
      → configs fresh ≡ none
      → Created fresh configs filters (on_http_filter_config_new G H fresh fresh_vm name config w)
  unfolding on_http_filter_config_new Created
  config_new-Created fresh fresh_vm name config w {configs} {filters} r ne unused =
      after-Created fresh configs filters (go_bytes name) _ λ name'.
        after-Created fresh configs filters (go_bytes config) _ λ config'.
          after-Created fresh configs filters
            (new_http_filter_config G H fresh_vm name' config' w.vms w.host) _
            λ created. pinned (record w { vms = created.vms; host = created.state }) created.config
    where
      pinned :
          (w' : World G H) (o : Option HttpFilterConfig)
          → Created fresh configs filters (elim o [
            | none ↦ ok (null, w')
            | some c ↦ do
              (p, m) ← pin_http_filter_config fresh w.manager c
              ok (p, record w' { manager = m })
          ])
      pinned w' none = λ e. absurd (ne (sym e))
      pinned w' (some c) =
          let (m, done, r') = pin_http_filter_config-insert r c ne unused in rw done (λ _. (c, r'))

  -- `on_http_filter_new` returned, so the configuration made a filter.
  pub made_filter :
      (fresh p : Ptr) (choice : ℕ) (w : World G H) {configs : Pool HttpFilterConfig}
      {filters : Pool HttpFilter} {c : HttpFilterConfig} {result : Ptr × World G H}
      → Represents w.manager configs filters
      → configs p ≡ some c
      → on_http_filter_new G H fresh choice p w ≡ ok result
      → (f : HttpFilter) × (new_filter choice c ≡ ok f)
  unfolding on_http_filter_new
  made_filter fresh p choice w {c} {result} r there e = go (new_filter choice c) refl
    where
      go :
          (o : Outcome HttpFilter)
          → new_filter choice c ≡ o
          → (f : HttpFilter) × (new_filter choice c ≡ ok f)
      go (ok f) made = (f, made)
      go (panic fault) failed =
          let (n, got, same) = unwrap_pinned_http_filter_config-lookup r there in
          let stuck : on_http_filter_new G H fresh choice p w ≡ panic fault =
            rw (got, same, failed) in
          let no : ◌≡◌ {A = Outcome (Ptr × World G H)} (panic fault) (ok result) = sym stuck ∙ e in
          absurd (panic-ne_ok no)

  pub served_manager :
      {w : World G H} {configs : Pool HttpFilterConfig} {filters : Pool HttpFilter}
      {Result : Type 0} (p : Ptr) {o : Outcome (Served G H range show itoa Result)}
      {x : Outcome (Result × World G H)} {b : Result × World G H}
      → IsServed G H range show itoa w configs filters p o x
      → x ≡ ok b
      → (f : HttpFilter) × Represents b.1.manager configs (insert filters p f)
  served_manager {configs} {filters} p (returned {served} r _ _ _) e = (
    served.filter,
    subst (λ m. Represents m configs (insert filters p served.filter))
        (same_manager (λ a. a.1) e refl) r,
  )
  served_manager p panicked e = absurd (panic-ne_ok e)
