-- ===== src/Main.antt =====
-- go/main.go: the choice of a filter by its name. `HttpFilterConfig` and `HttpFilter` are the
-- values behind the interfaces of go/gosdk/gosdk.go, one constructor for each type that the program
-- has, with the state of the object behind it.
pub mod Choice
use dynamic_modules_examples.Base.{
  ℕ, zero, suc, ◌+◌, Bool, true, false, Option, none, some, List, [], ◌∷◌, ◌++◌, if◌then◌else◌,
  ◌==◌,
}
use dynamic_modules_examples.Base.Bytes.{Bytes, codes, bytes_eq}
use dynamic_modules_examples.Base.Outcome.{Outcome, ok, panic, message, ◌>>=◌}
use dynamic_modules_examples.Host.{Host}
use dynamic_modules_examples.Filters.HeaderAuth
use dynamic_modules_examples.Filters.HeaderAuth.{HeaderAuthFilterConfig, HeaderAuthFilter}
use dynamic_modules_examples.Filters.Delay
use dynamic_modules_examples.Filters.Delay.{DelayFilter}
use dynamic_modules_examples.Filters.JavaScript.{JavaScriptFilter}
use dynamic_modules_examples.Filters.JavaScript.Handlers
use dynamic_modules_examples.Filters.JavaScript.Vm.{
  Goja, JavaScriptVm, new_java_script_filter_config,
}

-- A configuration of javascript holds the addresses of its interpreters.
pub data HttpFilterConfig : Type 0 where
  passthrough : HttpFilterConfig
  header_auth : HeaderAuthFilterConfig → HttpFilterConfig
  delay : HttpFilterConfig
  java_script : (vms : List ℕ) → HttpFilterConfig

pub data HttpFilter : Type 0 where
  passthrough : HttpFilter
  header_auth : HeaderAuthFilter → HttpFilter
  delay : DelayFilter → HttpFilter
  java_script : JavaScriptFilter → HttpFilter

-- `NewFilter` of each configuration.
unfoldable pub new_filter : (choice : ℕ) → HttpFilterConfig → Outcome HttpFilter
new_filter choice HttpFilterConfig.passthrough = ok HttpFilter.passthrough
new_filter choice (HttpFilterConfig.header_auth p) =
    ok (HttpFilter.header_auth (HeaderAuth.new_filter p))
new_filter choice HttpFilterConfig.delay = ok (HttpFilter.delay Delay.new_filter)
new_filter choice (HttpFilterConfig.java_script vms) = do
  p ← Handlers.new_filter vms choice
  ok (HttpFilter.java_script p)

module _ (G : Goja) (H : Host) where
  -- The interpreters on the heap.
  abbrev pub Vms : Type 0
  Vms = ℕ → Option (JavaScriptVm G)

  -- Interpreters are allocated at the addresses `fresh_vm`, from a place of the pool on.
  unfoldable pub store_vms : (fresh_vm : ℕ → ℕ) → (place : ℕ) → List (JavaScriptVm G) → Vms → Vms
  store_vms fresh_vm place [] vms = vms
  store_vms fresh_vm place (vm ∷ rest) vms =
      store_vms fresh_vm (place + 1) rest (λ a. if fresh_vm place == a then some vm else vms a)

  unfoldable pub addresses : (fresh_vm : ℕ → ℕ) → (place : ℕ) → List (JavaScriptVm G) → List ℕ
  addresses fresh_vm place [] = []
  addresses fresh_vm place (vm ∷ rest) = fresh_vm place ∷ addresses fresh_vm (place + 1) rest

  -- What `newHttpFilterConfig` leaves: the configuration, `none` where it is nil, and the heap and
  -- host.
  pub record NewConfig : Type 0 where
    pub config : Option HttpFilterConfig
    pub vms : Vms
    pub state : H.State

  unfoldable pub new_http_filter_config :
      (fresh_vm : ℕ → ℕ) → (name config : Bytes) → Vms → H.State → Outcome NewConfig
  new_http_filter_config fresh_vm name config vms s =
      let (created, s') = new_java_script_filter_config G H config s in
      if bytes_eq name (codes "passthrough")
      then ok (record { config = some HttpFilterConfig.passthrough; vms = vms; state = s })
      else if bytes_eq name (codes "header_auth")
      then ok (record {
        config = some (HttpFilterConfig.header_auth (record { auth_header_name = config }));
        vms = vms;
        state = s;
      })
      else if bytes_eq name (codes "delay")
      then ok (record { config = some HttpFilterConfig.delay; vms = vms; state = s })
      else if bytes_eq name (codes "javascript")
      then ok (elim created [
        | none ↦ record { config = none; vms = vms; state = s' }
        | some pool ↦ record {
          config = some (HttpFilterConfig.java_script (addresses fresh_vm 0 pool));
          vms = store_vms fresh_vm 0 pool vms;
          state = s';
        }
      ])
      else panic (message (codes "unknown filter: " ++ name))
