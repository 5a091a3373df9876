-- ===== src/Mem/Manager/Refine.antt =====
-- Each operation of go/gosdk/mem.go against the maps of what is pinned.
use dynamic_modules_examples.Base.{
  ◌≡◌, ◌∙◌, ◌≢◌, none, some, ◌∷◌, arith, ◌==◌, if◌then◌else◌, false, Bool-cases, inl, inr,
}
use dynamic_modules_examples.Base.Outcome.{ok}
use dynamic_modules_examples.Mem.{
  Ptr, null, LinkedList, load, MemoryManager, update, pin_http_filter_config, pin_http_filter,
  unpin_http_filter_config, unpin_http_filter, unwrap_pinned_http_filter,
  unwrap_pinned_http_filter_config,
}
use dynamic_modules_examples.Mem.Chain.{◌∈◌, head_of, erase}
use dynamic_modules_examples.Mem.Chain.Splice.{splice, before_of, after_of, splice-IsList}
use dynamic_modules_examples.Mem.Pin.{
  pushed, push-IsList, pin_http_filter_config-ok, pin_http_filter-ok,
}
use dynamic_modules_examples.Mem.Unpin.{unpin_http_filter_config-ok, unpin_http_filter-ok}
use dynamic_modules_examples.Mem.Sharding.{sharding_key}
use dynamic_modules_examples.Mem.Manager.Placed.{
  IsPlaced, pin-IsPlaced, unpin-IsPlaced, mem_of_pinned, not-mem_of_unpinned,
}
use dynamic_modules_examples.Mem.Manager.Shards.{spliced_elsewhere, pushed_elsewhere}
use dynamic_modules_examples.Mem.Manager.{
  Pool, insert, delete, not-mem_of_find, mem_of_find, find-erase, find_node, Represents,
}

module _ {C F : Type 0} {m : MemoryManager C F} {configs : Pool C} {filters : Pool F}
    (r : Represents m configs filters) where
  -- Pinning a configuration at an address that is not null and holds no configuration returns that
  -- address and inserts the configuration there; everything else that is pinned stays.
  pub pin_http_filter_config-insert :
      {fresh : Ptr} (c : C)
      → fresh ≢ null
      → configs fresh ≡ none
      → (m' : MemoryManager C F) × (pin_http_filter_config fresh m c ≡ ok (fresh, m'))
        × Represents m' (insert configs fresh c) filters
  pin_http_filter_config-insert {fresh} c ne unused = (
    record m {
      configs = pushed m.configs m.http_filter_configs fresh c;
      http_filter_configs = fresh;
    },
    pin_http_filter_config-ok m ne c r.config_list,
    record {
      cs = (fresh, c) ∷ r.cs;
      fs = r.fs;
      config_list =
          push-IsList c ne r.config_list
            (not-mem_of_find fresh r.cs (r.find_config fresh ∙ unused));
      shards = r.shards;
      placed = r.placed;
      find_config = λ p. ground (arith, r.find_config p);
      find_filter = r.find_filter;
    },
  )

  -- Unpinning a pinned configuration returns and deletes it; everything else that is pinned stays.
  pub unpin_http_filter_config-delete :
      {p : Ptr} {c : C}
      → configs p ≡ some c
      → (m' : MemoryManager C F) × (unpin_http_filter_config m p ≡ ok m')
        × Represents m' (delete configs p) filters
  unpin_http_filter_config-delete {p} {c} pinned =
      let i : p ∈ r.cs = mem_of_find p r.cs c (r.find_config p ∙ pinned) in
      (
        record m {
          configs = splice m.configs (before_of null p r.cs) (after_of p r.cs);
          http_filter_configs = head_of (erase p r.cs);
        },
        unpin_http_filter_config-ok m p r.config_list i,
        record {
          cs = erase p r.cs;
          fs = r.fs;
          config_list = splice-IsList p r.config_list i;
          shards = r.shards;
          placed = r.placed;
          find_config = λ q. find-erase p q r.config_list.chain ∙ ground (arith, r.find_config q);
          find_filter = r.find_filter;
        },
      )

  -- Pinning a filter at an address that is not null and holds no filter returns that address and
  -- inserts the filter there, in the shard of the address; everything else that is pinned stays.
  pub pin_http_filter-insert :
      {fresh : Ptr} (f : F)
      → fresh ≢ null
      → filters fresh ≡ none
      → (m' : MemoryManager C F) × (pin_http_filter fresh m f ≡ ok (fresh, m'))
        × Represents m' configs (insert filters fresh f)
  pin_http_filter-insert {fresh} f ne unused =
      let key = sharding_key fresh in
      let old : IsPlaced r.fs filters = record { placed = r.placed; found = r.find_filter } in
      let new = not-mem_of_unpinned old fresh key unused in
      let is = pin-IsPlaced old fresh f in
      (
        record m {
          filters = pushed m.filters (m.http_filter_lists key) fresh f;
          http_filter_lists = update m.http_filter_lists key fresh;
        },
        pin_http_filter-ok m ne f (r.shards key),
        record {
          cs = r.cs;
          fs = λ i. if key == i then (fresh, f) ∷ r.fs key else r.fs i;
          config_list = r.config_list;
          shards = λ i. elim (Bool-cases (key == i)) [
            | inl same ↦ rw same (push-IsList f ne (r.shards key) new)
            | inr other ↦ rw other (pushed_elsewhere r i f unused (ground arith))
          ];
          placed = is.placed;
          find_config = r.find_config;
          find_filter = is.found;
        },
      )

  -- Unpinning a pinned filter returns and deletes it from its shard; everything else that is pinned
  -- stays.
  pub unpin_http_filter-delete :
      {p : Ptr} {f : F}
      → filters p ≡ some f
      → (m' : MemoryManager C F) × (unpin_http_filter m p ≡ ok m')
        × Represents m' configs (delete filters p)
  unpin_http_filter-delete {p} {f} pinned =
      let key = sharding_key p in
      let old : IsPlaced r.fs filters = record { placed = r.placed; found = r.find_filter } in
      let i = mem_of_pinned old pinned in
      let is = unpin-IsPlaced old p (r.shards key).chain in
      (
        record m {
          filters = splice m.filters (before_of null p (r.fs key)) (after_of p (r.fs key));
          http_filter_lists = update m.http_filter_lists key (head_of (erase p (r.fs key)));
        },
        unpin_http_filter-ok m p (r.shards key) i,
        record {
          cs = r.cs;
          fs = λ i. if key == i then erase p (r.fs key) else r.fs i;
          config_list = r.config_list;
          shards = λ i'. elim (Bool-cases (key == i')) [
            | inl same ↦ rw same (splice-IsList p (r.shards key) i)
            | inr other ↦ rw other (spliced_elsewhere r i' p (ground arith))
          ];
          placed = is.placed;
          find_config = r.find_config;
          find_filter = is.found;
        },
      )

  -- The raw pointer of a pinned filter leads back to the filter.
  pub unwrap_pinned_http_filter-lookup :
      {p : Ptr} {f : F}
      → filters p ≡ some f
      → (n : LinkedList F) × (unwrap_pinned_http_filter m p ≡ ok n) × (n.obj ≡ f)
  unfolding unwrap_pinned_http_filter load
  unwrap_pinned_http_filter-lookup {p} {f} pinned =
      let (n, e, same, ne) =
        find_node p (r.shards (sharding_key p)).chain (r.find_filter p ∙ pinned) in
      let there : (p == null) ≡ false = ground arith in (n, rw (there, e), same)

  -- The raw pointer of a pinned configuration leads back to the configuration.
  pub unwrap_pinned_http_filter_config-lookup :
      {p : Ptr} {c : C}
      → configs p ≡ some c
      → (n : LinkedList C) × (unwrap_pinned_http_filter_config m p ≡ ok n) × (n.obj ≡ c)
  unfolding unwrap_pinned_http_filter_config load
  unwrap_pinned_http_filter_config-lookup {p} {c} pinned =
      let (n, e, same, ne) = find_node p r.config_list.chain (r.find_config p ∙ pinned) in
      let there : (p == null) ≡ false = ground arith in (n, rw (there, e), same)
