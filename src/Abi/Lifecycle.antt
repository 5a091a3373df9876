-- ===== src/Abi/Lifecycle.antt =====
-- Creating and destroying configurations and filters, against the maps of what is pinned.
use dynamic_modules_examples.Base.{ℕ, ◌≡◌, ◌≢◌, refl, none, some}
use dynamic_modules_examples.Base.Outcome.{ok}
use dynamic_modules_examples.Host.{Host}
use dynamic_modules_examples.Mem.{Ptr, null}
use dynamic_modules_examples.Mem.Manager.{Pool, insert, delete, Represents}
use dynamic_modules_examples.Mem.Manager.Refine.{
  pin_http_filter-insert, unpin_http_filter-delete, unwrap_pinned_http_filter_config-lookup,
  unwrap_pinned_http_filter-lookup, unpin_http_filter_config-delete,
}
use dynamic_modules_examples.Filters.JavaScript.Vm.{Goja}
use dynamic_modules_examples.Main.{HttpFilterConfig, HttpFilter, new_filter}
use dynamic_modules_examples.Abi.{
  World, destroy, config_destroy, on_http_filter_new, on_http_filter_destroy,
  on_http_filter_config_destroy,
}

-- No `Destroy` of the program does anything.
destroy_same : {G : Goja} {H : Host} (f : HttpFilter) (w : World G H) → destroy G H f w ≡ w
unfolding destroy
destroy_same HttpFilter.passthrough w = refl
destroy_same (HttpFilter.header_auth p) w = refl
destroy_same (HttpFilter.delay p) w = refl
destroy_same (HttpFilter.java_script p) w = refl

config_destroy_same :
    {G : Goja} {H : Host} (c : HttpFilterConfig) (w : World G H) → config_destroy G H c w ≡ w
unfolding config_destroy
config_destroy_same HttpFilterConfig.passthrough w = refl
config_destroy_same (HttpFilterConfig.header_auth p) w = refl
config_destroy_same HttpFilterConfig.delay w = refl
config_destroy_same (HttpFilterConfig.java_script vms) w = refl

module _ {G : Goja} {H : Host} (w : World G H) {configs : Pool HttpFilterConfig}
    {filters : Pool HttpFilter} (r : Represents w.manager configs filters) where
  -- A pinned configuration that makes a filter, and an allocator that returns an address that is not
  -- null and holds no filter: the hook returns that address, with the filter pinned there.
  pub on_http_filter_new-insert :
      (choice : ℕ)
      → {fresh p : Ptr} {c : HttpFilterConfig} {f : HttpFilter} → configs p ≡ some c
      → new_filter choice c ≡ ok f
      → fresh ≢ null
      → filters fresh ≡ none
      → (w' : World G H) × (on_http_filter_new G H fresh choice p w ≡ ok (fresh, w'))
        × Represents w'.manager configs (insert filters fresh f)
  unfolding on_http_filter_new
  on_http_filter_new-insert choice {f} pinned made ne unused =
      let (n, got, same) = unwrap_pinned_http_filter_config-lookup r pinned in
      let (m, done, r') = pin_http_filter-insert r f ne unused in
      (record w { manager = m }, rw (got, same, made, done), r')

  -- Destroying a pinned filter returns and unpins it, and nothing else.
  pub on_http_filter_destroy-delete :
      {p : Ptr} {f : HttpFilter}
      → filters p ≡ some f
      → (w' : World G H) × (on_http_filter_destroy G H p w ≡ ok w')
        × Represents w'.manager configs (delete filters p)
  unfolding on_http_filter_destroy
  on_http_filter_destroy-delete pinned =
      let (n, got, same) = unwrap_pinned_http_filter-lookup r pinned in
      let (m, done, r') = unpin_http_filter-delete r pinned in
      (record w { manager = m }, rw (got, destroy_same n.obj w, done), r')

  -- Destroying a pinned configuration returns and unpins it, and leaves the filters.
  pub on_http_filter_config_destroy-delete :
      {p : Ptr} {c : HttpFilterConfig}
      → configs p ≡ some c
      → (w' : World G H) × (on_http_filter_config_destroy G H p w ≡ ok w')
        × Represents w'.manager (delete configs p) filters
  unfolding on_http_filter_config_destroy
  on_http_filter_config_destroy-delete pinned =
      let (n, got, same) = unwrap_pinned_http_filter_config-lookup r pinned in
      let (m, done, r') = unpin_http_filter_config-delete r pinned in
      (record w { manager = m }, rw (got, config_destroy_same n.obj w, done), r')
