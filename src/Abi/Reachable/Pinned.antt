-- ===== src/Abi/Reachable/Pinned.antt =====
-- What the memory manager of a reachable world holds, and the hooks at the pointers of Envoy.
use dynamic_modules_examples.Base.{ℕ, ◌≡◌, refl, sym, ◌∙◌, true, none, List, is_some}
use mathlib.Core.Path.{subst}
use dynamic_modules_examples.Base.Bytes.{Bytes}
use dynamic_modules_examples.Base.GoMap.{GoMap}
use dynamic_modules_examples.Base.Int.{ℤ}
use dynamic_modules_examples.Base.Outcome.{ok}
use dynamic_modules_examples.Host.{Host}
use dynamic_modules_examples.Mem.{Ptr, LinkedList, unwrap_pinned_http_filter}
use dynamic_modules_examples.Mem.Manager.{Pool, insert, delete, Represents, mem_manager-Represents}
use dynamic_modules_examples.Mem.Manager.Refine.{unwrap_pinned_http_filter-lookup}
use dynamic_modules_examples.Filters.JavaScript.Vm.{Goja}
use dynamic_modules_examples.Main.{HttpFilterConfig, HttpFilter}
use dynamic_modules_examples.Abi.{World, on_http_filter_config_destroy, on_http_filter_destroy}
use dynamic_modules_examples.Abi.Lifecycle.{
  on_http_filter_new-insert, on_http_filter_destroy-delete, on_http_filter_config_destroy-delete,
}
use dynamic_modules_examples.Abi.Events.Laws.{with_filter-IsServed}
use dynamic_modules_examples.Abi.Held.{
  Held, of_held, of_free, held-insert, held-delete, held-replace,
}
use dynamic_modules_examples.Abi.Reachable.{
  Reachable, loaded, config_created, config_destroyed, filter_created, filter_destroyed, handled,
  elsewhere,
}
use dynamic_modules_examples.Abi.Reachable.Created.{
  same_manager, Created, config_new-Created, made_filter, served_manager,
}

module _ (G : Goja) (H : Host) (range : GoMap (List Bytes) → GoMap (List Bytes)) (show : ℤ → Bytes)
    (itoa : ℕ → Bytes) where
  -- What is pinned is what Envoy holds.
  pub record IsPinned (w : World G H) (cs fs : Held) : Type 0 where
    pub configs : Pool HttpFilterConfig
    pub filters : Pool HttpFilter
    pub represents : Represents w.manager configs filters
    pub held_configs : (p : Ptr) → is_some (configs p) ≡ cs p
    pub held_filters : (p : Ptr) → is_some (filters p) ≡ fs p

  open_IsPinned :
      {w w' : World G H} {cs fs : Held} (pinned : IsPinned w cs fs)
      → w'.manager ≡ w.manager
      → IsPinned w' cs fs
  open_IsPinned pinned same = record {
    configs = pinned.configs;
    filters = pinned.filters;
    represents =
        subst (λ m. Represents m pinned.configs pinned.filters) (sym same) pinned.represents;
    held_configs = pinned.held_configs;
    held_filters = pinned.held_filters;
  }

  Reachable-IsPinned :
      {w : World G H} {cs fs : Held} → Reachable G H range show itoa w cs fs → IsPinned w cs fs
  unfolding Created
  Reachable-IsPinned (loaded fresh) = record {
    configs = λ _. none;
    filters = λ _. none;
    represents =
        subst (λ m. Represents m (λ _. none) (λ _. none)) (sym fresh) mem_manager-Represents;
    held_configs = λ p. refl;
    held_filters = λ p. refl;
  }
  Reachable-IsPinned
        (config_created {w} {w'} {cs} {fs} fresh fresh_vm name config before ne unused e) =
      let is = Reachable-IsPinned before in
      let free = of_free is.configs fresh (is.held_configs fresh ∙ unused) in
      let (c, r) =
        subst (Created G H range show itoa fresh is.configs is.filters) e
          (config_new-Created G H range show itoa fresh fresh_vm name config w is.represents ne
            free)
          refl in
      record {
        configs = insert is.configs fresh c;
        filters = is.filters;
        represents = r;
        held_configs = held-insert is.configs cs fresh c is.held_configs;
        held_filters = is.held_filters;
      }
  Reachable-IsPinned (config_destroyed {w} {w'} {cs} p before held e) =
      let is = Reachable-IsPinned before in
      let (c, there) = of_held is.configs p (is.held_configs p ∙ held) in
      let (w2, e2, r) = on_http_filter_config_destroy-delete w is.represents there in
      record {
        configs = delete is.configs p;
        filters = is.filters;
        represents =
            subst (λ m. Represents m (delete is.configs p) is.filters)
              (same_manager G H range show itoa (λ a. a) e e2) r;
        held_configs = held-delete is.configs cs p is.held_configs;
        held_filters = is.held_filters;
      }
  Reachable-IsPinned (filter_destroyed {w} {w'} {cs} {fs} p before held e) =
      let is = Reachable-IsPinned before in
      let (f, there) = of_held is.filters p (is.held_filters p ∙ held) in
      let (w2, e2, r) = on_http_filter_destroy-delete w is.represents there in
      record {
        configs = is.configs;
        filters = delete is.filters p;
        represents =
            subst (λ m. Represents m is.configs (delete is.filters p))
              (same_manager G H range show itoa (λ a. a) e e2) r;
        held_configs = is.held_configs;
        held_filters = held-delete is.filters fs p is.held_filters;
      }
  Reachable-IsPinned (filter_created {w} {w'} {cs} {fs} fresh p choice before held ne unused e) =
      let is = Reachable-IsPinned before in
      let (c, there) = of_held is.configs p (is.held_configs p ∙ held) in
      let free = of_free is.filters fresh (is.held_filters fresh ∙ unused) in
      let (f, made) = made_filter G H range show itoa fresh p choice w is.represents there e in
      let (w2, e2, r) = on_http_filter_new-insert w is.represents choice there made ne free in
      record {
        configs = is.configs;
        filters = insert is.filters fresh f;
        represents =
            subst (λ m. Represents m is.configs (insert is.filters fresh f))
              (same_manager G H range show itoa (λ a. a.1) e e2) r;
        held_configs = is.held_configs;
        held_filters = held-insert is.filters fs fresh f is.held_filters;
      }
  Reachable-IsPinned (handled {w} {w'} {cs} {fs} {Result} {result} p run before held e) =
      let is = Reachable-IsPinned before in
      let (f, there) = of_held is.filters p (is.held_filters p ∙ held) in
      let served = with_filter-IsServed G H range show itoa run w p is.represents there in
      let (f', r) = served_manager G H range show itoa p served e in
      record {
        configs = is.configs;
        filters = insert is.filters p f';
        represents = r;
        held_configs = is.held_configs;
        held_filters = held-replace is.filters fs p f' held is.held_filters;
      }
  Reachable-IsPinned (elsewhere before same) = open_IsPinned (Reachable-IsPinned before) same

  -- In every reachable world, destroying a filter that Envoy holds returns, and so does the read of
  -- the filter at the start of each hook.
  pub on_http_filter_destroy_of_Reachable :
      {w : World G H} {cs fs : Held} {p : Ptr}
      → Reachable G H range show itoa w cs fs
      → fs p ≡ true
      → ((w' : World G H) × (on_http_filter_destroy G H p w ≡ ok w'))
        × ((n : LinkedList HttpFilter) × (unwrap_pinned_http_filter w.manager p ≡ ok n))
  on_http_filter_destroy_of_Reachable {w} {p} before held =
      let is = Reachable-IsPinned before in
      let (f, there) = of_held is.filters p (is.held_filters p ∙ held) in
      let (w', e, _) = on_http_filter_destroy-delete w is.represents there in
      let (n, got, _) = unwrap_pinned_http_filter-lookup is.represents there in ((w', e), (n, got))

  -- In every reachable world, destroying a configuration that Envoy holds returns.
  pub on_http_filter_config_destroy_of_Reachable :
      {w : World G H} {cs fs : Held} {p : Ptr}
      → Reachable G H range show itoa w cs fs
      → cs p ≡ true
      → (w' : World G H) × (on_http_filter_config_destroy G H p w ≡ ok w')
  on_http_filter_config_destroy_of_Reachable {w} {p} before held =
      let is = Reachable-IsPinned before in
      let (c, there) = of_held is.configs p (is.held_configs p ∙ held) in
      let (w', e, _) = on_http_filter_config_destroy-delete w is.represents there in (w', e)
