-- ===== src/Abi/Events/Laws.antt =====
-- The hooks of go/gosdk/abi.go that run a method, against the maps of what is pinned.
use mathlib.Core.Option
use dynamic_modules_examples.Base.{
  ℕ, ◌≡◌, refl, sym, ap, ◌∙◌, false, some, List, [], ◌∷◌, if◌then◌else◌, ◌==◌, ==_iff, arith,
  Bool-cases, inl, inr,
}
use dynamic_modules_examples.Base.Bytes.{Bytes}
use dynamic_modules_examples.Base.GoMap.{GoMap}
use dynamic_modules_examples.Base.Int.{ℤ}
use dynamic_modules_examples.Base.Outcome.{Fault, Outcome, ok, panic, ◌>>=◌}
use dynamic_modules_examples.Host.{Host}
use dynamic_modules_examples.Mem.{
  Ptr, null, LinkedList, Heap, write, load, MemoryManager, unwrap_pinned_http_filter,
}
use dynamic_modules_examples.Mem.Chain.{Cells, has, head_of, Chain, nil, cons, IsList, frame-write}
use dynamic_modules_examples.Mem.Manager.{Pool, insert, find, find_node, Represents}
use dynamic_modules_examples.Mem.Sharding.{sharding_key}
use dynamic_modules_examples.Filters.JavaScript.Vm.{Goja}
use dynamic_modules_examples.Main.{HttpFilterConfig, HttpFilter}
use dynamic_modules_examples.Abi.{World, store_filter}
use dynamic_modules_examples.Abi.Events.{Served, with_filter}

module _ {T : Type 0} where
  abbrev set_obj : Ptr → T → Cells T → Cells T
  set_obj p f [] = []
  set_obj p f ((a, o) ∷ xs) = if a == p then (a, f) ∷ xs else (a, o) ∷ set_obj p f xs

  has-set_obj : (q p : Ptr) (f : T) (xs : Cells T) → has q (set_obj p f xs) ≡ has q xs
  has-set_obj q p f [] = refl
  has-set_obj q p f (x ∷ xs) = ground (arith, has-set_obj q p f xs)

  head_of-set_obj : (p : Ptr) (f : T) (xs : Cells T) → head_of (set_obj p f xs) ≡ head_of xs
  head_of-set_obj p f [] = refl
  head_of-set_obj p f (x ∷ xs) = ground arith

  find-set_obj :
      (q p : Ptr) (f : T) (xs : Cells T)
      → find q (set_obj p f xs)
        ≡ (if p == q then Option.map {A = T} {B = T} (λ _. f) (find q xs) else find q xs)
  find-set_obj q p f [] = ground arith
  find-set_obj q p f (x ∷ xs) = ground (arith, find-set_obj q p f xs)

  -- The node at `p` gets another object: its links stay.
  Chain-set_obj :
      {h : Heap T} {before : Ptr} {xs : Cells T} (p : Ptr) (n : LinkedList T) (f : T)
      → h p ≡ some n
      → Chain h before xs
      → Chain (write h p (record n { obj = f })) before (set_obj p f xs)
  unfolding write
  Chain-set_obj p n f held nil = nil
  Chain-set_obj p n f held (cons {a} {xs} ne e out c) = elim (Bool-cases (a == p)) [
    | inl here ↦ rw here (cons ne (ground arith) out (frame-write p _ c (ground arith)))
    | inr other ↦ rw other (
        cons ne (ground (arith, head_of-set_obj p f xs)) (has-set_obj a p f xs ∙ out)
          (Chain-set_obj p n f held c))
  ]

  IsList-set_obj :
      {h : Heap T} {head : Ptr} {xs : Cells T} (p : Ptr) (n : LinkedList T) (f : T)
      → h p ≡ some n
      → IsList h head xs
      → IsList (write h p (record n { obj = f })) head (set_obj p f xs)
  IsList-set_obj {xs} p n f held is = record {
    front = is.front ∙ sym (head_of-set_obj p f xs);
    chain = Chain-set_obj p n f held is.chain;
  }

  found_again :
      (q p : Ptr) (f old : T) (pool : Pool T)
      → pool p ≡ some old
      → (if p == q then Option.map {A = T} {B = T} (λ _. f) (pool q) else pool q)
        ≡ insert pool p f q
  found_again q p f old pool there = elim (Bool-cases (p == q)) [
    | inl here ↦
        let e : pool q ≡ some old = ap pool (sym ((==_iff p q).0 here)) ∙ there in rw (here, e)
    | inr other ↦ rw other
  ]

-- A changed object is what is pinned from then on, at the same address.
store_filter-insert :
    {m : MemoryManager HttpFilterConfig HttpFilter} {configs : Pool HttpFilterConfig}
    {filters : Pool HttpFilter} (r : Represents m configs filters) (p : Ptr)
    (n : LinkedList HttpFilter) (f : HttpFilter) {old : HttpFilter}
    → m.filters p ≡ some n
    → filters p ≡ some old
    → Represents (store_filter m p n f) configs (insert filters p f)
unfolding store_filter
store_filter-insert {filters} r p n f {old} held there = record {
  cs = r.cs;
  fs = λ i. set_obj p f (r.fs i);
  config_list = r.config_list;
  shards = λ i. IsList-set_obj p n f held (r.shards i);
  placed = λ i q h. r.placed i q (sym (has-set_obj q p f (r.fs i)) ∙ h);
  find_config = r.find_config;
  find_filter = λ q.
      find-set_obj q p f (r.fs (sharding_key q))
      ∙ ap (λ o. if p == q then Option.map {A = HttpFilter} {B = HttpFilter} (λ _. f) o else o)
          (r.find_filter q)
      ∙ found_again q p f old filters there;
}

module _ (G : Goja) (H : Host) (range : GoMap (List Bytes) → GoMap (List Bytes)) (show : ℤ → Bytes)
    (itoa : ℕ → Bytes) where
  -- The outcome of a hook at a pinned filter: that of the method, with the object that the method
  -- left now pinned under the same pointer, or the method's panic.
  pub data IsServed {Result : Type 0} (w : World G H) (configs : Pool HttpFilterConfig)
      (filters : Pool HttpFilter) (p : Ptr)
      : Outcome (Served G H range show itoa Result) → Outcome (Result × World G H) → Type 0 where
    returned :
        {served : Served G H range show itoa Result} {w' : World G H}
        → Represents w'.manager configs (insert filters p served.filter)
        → w'.host ≡ served.world.host
        → w'.vms ≡ served.world.vms
        → w'.goroutines ≡ served.world.goroutines
        → IsServed w configs filters p (ok served) (ok (served.result, w'))
    panicked : {fault : Fault} → IsServed w configs filters p (panic fault) (panic fault)

  -- A hook at the pointer of a pinned filter runs the method of that filter: it returns or panics as
  -- the method does, and when it returns the object that the method left is pinned at that pointer,
  -- and nothing else is pinned or unpinned.
  pub with_filter-IsServed :
      {Result : Type 0} (run : HttpFilter → World G H → Outcome (Served G H range show itoa Result))
      (w : World G H) {configs : Pool HttpFilterConfig} {filters : Pool HttpFilter} (p : Ptr)
      {f : HttpFilter}
      → Represents w.manager configs filters
      → filters p ≡ some f
      → IsServed w configs filters p (run f w) (with_filter G H range show itoa run p w)
  unfolding with_filter unwrap_pinned_http_filter load
  with_filter-IsServed {Result} run w {configs} {filters} p {f} r there =
      let (n, held, same, ne) =
        find_node p (r.shards (sharding_key p)).chain (r.find_filter p ∙ there) in
      let nonzero : (p == null) ≡ false = ground arith in
      rw (nonzero, held, same) (outcome n held (run f w))
    where
      outcome :
          (n : LinkedList HttpFilter)
          → w.manager.filters p ≡ some n
          → (o : Outcome (Served G H range show itoa Result))
          → IsServed w configs filters p o (
              o >>= λ served. ok (
                served.result,
                record served.world { manager = store_filter w.manager p n served.filter },
              ))
      outcome n held (ok served) =
          returned (store_filter-insert r p n served.filter held there) refl refl refl
      outcome n held (panic fault) = panicked
