-- ===== src/Mem/Manager.antt =====
-- The memory manager of go/gosdk/mem.go as two finite maps: the pinned configurations and the
-- pinned filters, by address. The order of the lists and the shard of a filter are not part of that view.
pub mod Placed
pub mod Refine
pub mod Shards
use mathlib.Core.Path.{fun_ext}
use dynamic_modules_examples.Base.{
  ℕ, ◌≡◌, ◌∙◌, sym, refl, ap, ◌≢◌, ◌<◌, Option, none, some, ◌∷◌, [], arith, ◌==◌, if◌then◌else◌,
  false, true, Bool-cases, inl, inr,
}
use dynamic_modules_examples.Base.Outcome.{Outcome, ok, panic, invalid_pointer}
use dynamic_modules_examples.Mem.{
  Ptr, null, LinkedList, Heap, write, load, MemoryManager, mem_manager, update,
  pin_http_filter_config, pin_http_filter, unpin_http_filter_config, unpin_http_filter,
  unwrap_pinned_http_filter, unwrap_pinned_http_filter_config,
}
use dynamic_modules_examples.Mem.Chain.{
  Cells, has, ◌∈◌, ◌∉◌, head_of, erase, Chain, nil, cons, IsList, frame, not-mem-erase, ne_null,
}
use dynamic_modules_examples.Mem.Chain.Splice.{splice, before_of, after_of, splice-Chain}
use dynamic_modules_examples.Mem.Pin.{
  pushed-frame, push-Chain, pin_http_filter_config-ok, pin_http_filter-ok,
}
use dynamic_modules_examples.Mem.Unpin.{unpin_http_filter_config-ok, unpin_http_filter-ok}
use dynamic_modules_examples.Mem.Sharding.{sharding_key}

-- A finite map from addresses.
abbrev pub Pool : Type 0 → Type 0
Pool T = Ptr → Option T

module _ {T : Type 0} where
  abbrev pub empty : Pool T
  empty _ = none

  abbrev pub insert : Pool T → Ptr → T → Pool T
  insert pool p o q = if p == q then some o else pool q

  abbrev pub delete : Pool T → Ptr → Pool T
  delete pool p q = if p == q then none else pool q

  abbrev pub find : Ptr → Cells T → Option T
  find p [] = none
  find p ((a, o) ∷ xs) = if a == p then some o else find p xs

  pub not-mem_of_find : (p : Ptr) (xs : Cells T) → find p xs ≡ none → p ∉ xs
  not-mem_of_find p [] e = refl
  not-mem_of_find p (x ∷ xs) e = ground (arith, not-mem_of_find p xs)

  pub find_of_not_mem : (p : Ptr) (xs : Cells T) → p ∉ xs → find p xs ≡ none
  find_of_not_mem p [] e = refl
  find_of_not_mem p (x ∷ xs) e = ground (arith, find_of_not_mem p xs)

  pub mem_of_find : (p : Ptr) (xs : Cells T) (o : T) → find p xs ≡ some o → p ∈ xs
  mem_of_find p [] o e = cc
  mem_of_find p (x ∷ xs) o e = ground (arith, mem_of_find p xs o)

  pub find_of_mem : (p : Ptr) (xs : Cells T) → p ∈ xs → (o : T) × (find p xs ≡ some o)
  find_of_mem p [] i = cc
  find_of_mem p ((a, o) ∷ xs) i = elim (Bool-cases (a == p)) [
    | inl first ↦ (o, rw first refl)
    | inr later ↦ rw later (find_of_mem p xs (rw later at i))
  ]

  pub mem_of_mem-erase : (p q : Ptr) (xs : Cells T) → p ∈ erase q xs → p ∈ xs
  mem_of_mem-erase p q [] i = cc
  mem_of_mem-erase p q (x ∷ xs) i = ground (arith, mem_of_mem-erase p q xs)

  pub find-erase :
      {h : Heap T} {before : Ptr} {xs : Cells T} (p q : Ptr)
      → Chain h before xs
      → find q (erase p xs) ≡ (if p == q then none else find q xs)
  find-erase p q nil = ground arith
  find-erase p q (cons {xs} ne e out c) = ground (arith, find-erase p q c, find_of_not_mem p xs)

  -- A pinned object is read through its address.
  pub find_node :
      {h : Heap T} {before : Ptr} {xs : Cells T} (p : Ptr) {o : T}
      → Chain h before xs
      → find p xs ≡ some o
      → (n : LinkedList T) × (h p ≡ some n) × (n.obj ≡ o) × (p ≢ null)
  find_node p nil f = cc
  find_node {before} p (cons {a} {o = o'} {xs} ne e out c) f = elim (Bool-cases (a == p)) [
    | inl here ↦
        let n : LinkedList T = record { obj = o'; next = head_of xs; prev = before } in
        (n, ground arith, ground arith, ground arith)
    | inr later ↦ find_node p c (ground arith)
  ]

module _ {C F : Type 0} where
  -- The lists are well formed, a filter stands in the shard of its address, and the maps say what
  -- is pinned.
  pub record Represents (m : MemoryManager C F) (configs : Pool C) (filters : Pool F) : Type 0 where
    pub cs : Cells C
    pub fs : ℕ → Cells F
    pub config_list : IsList m.configs m.http_filter_configs cs
    pub shards : (i : ℕ) → IsList m.filters (m.http_filter_lists i) (fs i)
    pub placed : (i : ℕ) (p : Ptr) → p ∈ fs i → sharding_key p ≡ i
    pub find_config : (p : Ptr) → find p cs ≡ configs p
    pub find_filter : (p : Ptr) → find p (fs (sharding_key p)) ≡ filters p

  pub mem_manager-Represents : Represents mem_manager empty empty
  mem_manager-Represents = record {
    cs = [];
    fs = λ _. [];
    config_list = record { front = refl; chain = nil };
    shards = λ i. record { front = refl; chain = nil };
    placed = λ i p h. cc;
    find_config = λ p. refl;
    find_filter = λ p. refl;
  }
