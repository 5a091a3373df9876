-- ===== src/Abi/Configured.antt =====
-- `envoy_dynamic_module_on_http_filter_config_new` of go/gosdk/abi.go on every branch: the sizes that
-- are cut to a `C.int`, the configuration that is nil, the one that is pinned, and the panic.
use dynamic_modules_examples.Base.{
  ℕ, ◌+◌, ◌-◌, ◌^◌, ◌<◌, ◌≡◌, ◌≢◌, refl, ◌∙◌, none, some, ltb, length, take, take_of_le,
  if◌then◌else◌, arith, Option-cases, inl, inr,
}
use dynamic_modules_examples.Base.Bytes.{Bytes}
use dynamic_modules_examples.Base.Outcome.{Fault, Outcome, ok, panic, negative_length, ◌>>=◌}
use dynamic_modules_examples.Host.{Host}
use dynamic_modules_examples.Mem.{Ptr, null, pin_http_filter_config}
use dynamic_modules_examples.Mem.Manager.{Pool, insert, Represents}
use dynamic_modules_examples.Mem.Manager.Refine.{pin_http_filter_config-insert}
use dynamic_modules_examples.Filters.JavaScript.Vm.{Goja}
use dynamic_modules_examples.Main.{HttpFilterConfig, HttpFilter, NewConfig, new_http_filter_config}
use dynamic_modules_examples.Abi.{World, go_bytes, on_http_filter_config_new}

-- A size below 6 GiB: below 2 GiB the bytes are read whole, below 4 GiB the process stops, and above
-- only the bytes past the first 4 GiB are counted, so that the rest is lost.
pub go_bytes-cut :
    (bytes : Bytes)
    → length bytes < 2 ^ 32 + 2 ^ 31
    → go_bytes bytes ≡ (
        if ltb (length bytes) (2 ^ 31)
        then ok bytes
        else if ltb (length bytes) (2 ^ 32)
        then panic negative_length
        else ok (take (length bytes - 2 ^ 32) bytes))
unfolding go_bytes
go_bytes-cut bytes lt = ground (arith, take_of_le (length bytes) bytes)

module _ (G : Goja) (H : Host) where
  -- What the hook makes of the outcome of `NewHttpFilterConfig`: the configuration pinned at `fresh`,
  -- or the null pointer and the memory manager as it was, or the same panic.
  pub data IsConfigured (w : World G H) (configs : Pool HttpFilterConfig)
      (filters : Pool HttpFilter) (fresh : Ptr)
      : Outcome (NewConfig G H) → Outcome (Ptr × World G H) → Type 0 where
    pinned :
        {r : NewConfig G H} {w' : World G H} (c : HttpFilterConfig)
        → r.config ≡ some c
        → Represents w'.manager (insert configs fresh c) filters
        → w'.vms ≡ r.vms
        → w'.host ≡ r.state
        → IsConfigured w configs filters fresh (ok r) (ok (fresh, w'))
    refused :
        {r : NewConfig G H} {w' : World G H}
        → r.config ≡ none
        → w'.manager ≡ w.manager
        → w'.vms ≡ r.vms
        → w'.host ≡ r.state
        → IsConfigured w configs filters fresh (ok r) (ok (null, w'))
    panicked : {fault : Fault} → IsConfigured w configs filters fresh (panic fault) (panic fault)

  module _ (w : World G H) {configs : Pool HttpFilterConfig} {filters : Pool HttpFilter}
      (r : Represents w.manager configs filters) {fresh : Ptr} where
    outcome-IsConfigured :
        fresh ≢ null
        → configs fresh ≡ none
        → (o : Outcome (NewConfig G H))
        → IsConfigured w configs filters fresh o (
            o >>= λ created.
            (let w' = record w { vms = created.vms; host = created.state } in
              elim created.config [
                | none ↦ ok (null, w')
                | some c ↦ do
                  (p, m) ← pin_http_filter_config fresh w.manager c
                  ok (p, record w' { manager = m })
              ]))
    outcome-IsConfigured ne unused (panic fault) = panicked
    outcome-IsConfigured ne unused (ok created) = elim (Option-cases created.config) [
      | inl nil ↦ rw nil (
          refused {r = record { config = none; vms = created.vms; state = created.state }} refl refl
            refl refl)
      | inr (c, there) ↦
          let (m, done, r') = pin_http_filter_config-insert r c ne unused in
          rw (there, done)
            (pinned {r = record { config = some c; vms = created.vms; state = created.state }} c
              refl r' refl refl)
    ]

    -- A name and a configuration below 2 GiB, and an allocator that returns an address that is not null
    -- and holds no configuration. Where `NewHttpFilterConfig` returns a configuration, the hook returns
    -- the address with that configuration pinned there and nothing else changed in the memory manager;
    -- where it returns nil, the hook returns 0 and pins nothing; where it panics, so does the hook.
    pub on_http_filter_config_new-IsConfigured :
        (fresh_vm : ℕ → ℕ) (name config : Bytes)
        → length name < 2 ^ 31
        → length config < 2 ^ 31
        → fresh ≢ null
        → configs fresh ≡ none
        → IsConfigured w configs filters fresh
            (new_http_filter_config G H fresh_vm name config w.vms w.host)
            (on_http_filter_config_new G H fresh fresh_vm name config w)
    unfolding on_http_filter_config_new
    on_http_filter_config_new-IsConfigured fresh_vm name config short_name short_config ne unused =
        let whole_name : go_bytes name ≡ ok name = go_bytes-cut name (omega arith) ∙ ground arith in
        let whole_config : go_bytes config ≡ ok config =
          go_bytes-cut config (omega arith) ∙ ground arith in
        rw (whole_name, whole_config)
          (outcome-IsConfigured ne unused
            (new_http_filter_config G H fresh_vm name config w.vms w.host))
