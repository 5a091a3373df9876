-- ===== src/Abi/Reachable.antt =====
-- The states of the module under the calls that Envoy makes: it hands back only pointers that it
-- holds. Between two calls, Envoy and the goroutines change everything but the memory manager.
pub mod Created
pub mod Pinned
use dynamic_modules_examples.Base.{
  ℕ, ◌≡◌, ◌≢◌, refl, sym, ap, ◌∙◌, Bool, true, false, Option, none, some, List, ◌⊎◌, inl, inr,
  if◌then◌else◌, ◌==◌, is_some, arith, Bool-cases, Option-cases, ==_iff,
}
use mathlib.Core.Path.{subst}
use dynamic_modules_examples.Base.Bytes.{Bytes}
use dynamic_modules_examples.Base.GoMap.{GoMap}
use dynamic_modules_examples.Base.Int.{ℤ}
use dynamic_modules_examples.Base.Outcome.{Fault, Outcome, ok, panic, ◌>>=◌}
use dynamic_modules_examples.Host.{Host}
use dynamic_modules_examples.Mem.{
  Ptr, null, LinkedList, MemoryManager, mem_manager, pin_http_filter_config,
  unwrap_pinned_http_filter,
}
use dynamic_modules_examples.Mem.Manager.{Pool, insert, delete, Represents, mem_manager-Represents}
use dynamic_modules_examples.Mem.Manager.Refine.{
  pin_http_filter_config-insert, unwrap_pinned_http_filter-lookup,
  unwrap_pinned_http_filter_config-lookup,
}
use dynamic_modules_examples.Filters.JavaScript.Vm.{Goja}
use dynamic_modules_examples.Main.{
  HttpFilterConfig, HttpFilter, new_filter, NewConfig, new_http_filter_config,
}
use dynamic_modules_examples.Abi.{
  World, go_bytes, on_http_filter_config_new, on_http_filter_config_destroy, on_http_filter_new,
  on_http_filter_destroy,
}
use dynamic_modules_examples.Abi.Lifecycle.{
  on_http_filter_new-insert, on_http_filter_destroy-delete, on_http_filter_config_destroy-delete,
}
use dynamic_modules_examples.Abi.Events.{Served, with_filter}
use dynamic_modules_examples.Abi.Events.Laws.{IsServed, returned, panicked, with_filter-IsServed}
use dynamic_modules_examples.Abi.Held.{Held, take_up, give_up}

module _ (G : Goja) (H : Host) (range : GoMap (List Bytes) → GoMap (List Bytes)) (show : ℤ → Bytes)
    (itoa : ℕ → Bytes) where
  -- The worlds that calls lead to, with the configurations and the filters that Envoy holds. An
  -- allocator returns no address that is in use.
  pub data Reachable : World G H → Held → Held → Type 1 where
    loaded : {w : World G H} → w.manager ≡ mem_manager → Reachable w (λ _. false) (λ _. false)
    config_created :
        {w w' : World G H} {cs fs : Held} (fresh : Ptr) (fresh_vm : ℕ → ℕ) (name config : Bytes)
        → Reachable w cs fs
        → fresh ≢ null
        → cs fresh ≡ false
        → on_http_filter_config_new G H fresh fresh_vm name config w ≡ ok (fresh, w')
        → Reachable w' (take_up cs fresh) fs
    config_destroyed :
        {w w' : World G H} {cs fs : Held} (p : Ptr)
        → Reachable w cs fs
        → cs p ≡ true
        → on_http_filter_config_destroy G H p w ≡ ok w'
        → Reachable w' (give_up cs p) fs
    filter_created :
        {w w' : World G H} {cs fs : Held} (fresh p : Ptr) (choice : ℕ)
        → Reachable w cs fs
        → cs p ≡ true
        → fresh ≢ null
        → fs fresh ≡ false
        → on_http_filter_new G H fresh choice p w ≡ ok (fresh, w')
        → Reachable w' cs (take_up fs fresh)
    filter_destroyed :
        {w w' : World G H} {cs fs : Held} (p : Ptr)
        → Reachable w cs fs
        → fs p ≡ true
        → on_http_filter_destroy G H p w ≡ ok w'
        → Reachable w' cs (give_up fs p)
    handled :
        {w w' : World G H} {cs fs : Held} {Result : Type 0} {result : Result} (p : Ptr)
        (run : HttpFilter → World G H → Outcome (Served G H range show itoa Result))
        → Reachable w cs fs
        → fs p ≡ true
        → with_filter G H range show itoa run p w ≡ ok (result, w')
        → Reachable w' cs fs
    elsewhere :
        {w w' : World G H} {cs fs : Held}
        → Reachable w cs fs
        → w'.manager ≡ w.manager
        → Reachable w' cs fs
