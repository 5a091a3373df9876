-- ===== src/Mem/Pin.antt =====
-- `pinHttpFilterConfig` and `pinHttpFilter`: a node is pushed in front of a list.
use mathlib.Core.Path.{fun_ext}
use dynamic_modules_examples.Base.{
  ◌≡◌, refl, ap, ◌≢◌, Bool-cases, inl, inr, some, ◌∷◌, arith, ◌==◌, false, true, ltb,
}
use dynamic_modules_examples.Base.Outcome.{ok}
use dynamic_modules_examples.Mem.{
  Ptr, null, LinkedList, Heap, write, load, set_next, MemoryManager, update, check_index,
  pin_http_filter_config, pin_http_filter,
}
use dynamic_modules_examples.Mem.Chain.{
  Cells, ◌∉◌, head_of, Chain, nil, cons, IsList, frame, ne_null, front_node,
}
use dynamic_modules_examples.Mem.Chain.Splice.{link_prev, guarded_prev}
use dynamic_modules_examples.Mem.Sharding.{sharding_key, sharding_size}
use dynamic_modules_examples.Mem.Sharding.Mix.{sharding_key-lt}

module _ {T : Type 0} where
  -- The heap after a push in front of the list at `head`.
  abbrev pub pushed : Heap T → Ptr → Ptr → T → Heap T
  pushed h head fresh o =
      link_prev (write h fresh (record { obj = o; next = head; prev = null })) head fresh

  module _ {h : Heap T} where
    -- A chain that does not hold the old front is not touched.
    pub pushed-frame :
        (fresh head : Ptr) {before : Ptr} {xs : Cells T} (o : T)
        → Chain h before xs
        → fresh ∉ xs
        → head ∉ xs
        → Chain (pushed h head fresh o) before xs
    unfolding write
    pushed-frame fresh head o c new out = frame c (λ a i. ground arith)

    pub push-Chain :
        {fresh : Ptr} {xs : Cells T} (o : T)
        → fresh ≢ null
        → Chain h null xs
        → fresh ∉ xs
        → Chain (pushed h (head_of xs) fresh o) null ((fresh, o) ∷ xs)
    unfolding write
    push-Chain o ne nil new = cons ne (ground arith) refl nil
    push-Chain o ne (cons {a} ne' e out c) new =
        cons ne (ground arith) new
          (cons ne' (ground arith) out (frame c (λ x i. ground (arith, ne_null x c))))

  pub push-IsList :
      {h : Heap T} {head fresh : Ptr} {xs : Cells T} (o : T)
      → fresh ≢ null
      → IsList h head xs
      → fresh ∉ xs
      → IsList (pushed h head fresh o) fresh ((fresh, o) ∷ xs)
  push-IsList o ne is new = record {
    front = refl;
    chain = rw is.front (push-Chain o ne is.chain new);
  }

  -- The front holds a node once the new node is written.
  front_held :
      {h : Heap T} {xs : Cells T} (fresh : Ptr) (n : LinkedList T)
      → Chain h null xs
      → head_of xs ≢ null
      → (k : LinkedList T) × (write h fresh n (head_of xs) ≡ some k)
  unfolding write
  front_held {xs} fresh n c ne = elim (Bool-cases (fresh == head_of xs)) [
    | inl new ↦ (n, ground arith)
    | inr old ↦ let (k, e) = front_node c ne in (k, ground arith)
  ]

  -- The new node's `next` is written before the node is linked.
  overwritten :
      (h : Heap T) (fresh head : Ptr) (o : T)
      → fresh ≢ null
      → set_next (write h fresh (record { obj = o; next = null; prev = null })) fresh head
        ≡ ok (write h fresh (record { obj = o; next = head; prev = null }))
  unfolding set_next load write
  overwritten h fresh head o ne =
      let there : (fresh == null) ≡ false = ground arith in
      let here : (fresh == fresh) ≡ true = ground arith in
      rw (there, here) (ap ok (fun_ext (λ a. ground arith)))

pub check_key : (key : Ptr) → check_index (sharding_key key) ≡ ok (sharding_key key)
unfolding check_index
check_key key =
    let inside : ltb (sharding_key key) sharding_size ≡ true =
      ground (arith, sharding_key-lt key) in
    rw inside

module _ {C F : Type 0} (m : MemoryManager C F) {fresh : Ptr} (ne : fresh ≢ null) where
  -- Both functions return the new node's address and leave the pushed heap.
  pub pin_http_filter_config-ok :
      (c : C) {xs : Cells C}
      → IsList m.configs m.http_filter_configs xs
      → pin_http_filter_config fresh m c
        ≡ ok (
          fresh,
          record m {
            configs = pushed m.configs m.http_filter_configs fresh c;
            http_filter_configs = fresh;
          },
        )
  unfolding pin_http_filter_config
  pin_http_filter_config-ok c {xs} is =
      rw is.front (rw (guarded_prev _ (head_of xs) fresh (front_held fresh _ is.chain)))

  pub pin_http_filter-ok :
      (f : F) {xs : Cells F}
      → IsList m.filters (m.http_filter_lists (sharding_key fresh)) xs
      → pin_http_filter fresh m f
        ≡ ok (
          fresh,
          record m {
            filters = pushed m.filters (m.http_filter_lists (sharding_key fresh)) fresh f;
            http_filter_lists = update m.http_filter_lists (sharding_key fresh) fresh;
          },
        )
  unfolding pin_http_filter
  pin_http_filter-ok f {xs} is =
      rw (check_key, is.front, overwritten m.filters fresh (head_of xs) f ne)
        (rw (guarded_prev _ (head_of xs) fresh (front_held fresh _ is.chain)))
