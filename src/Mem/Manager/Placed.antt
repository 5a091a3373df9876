-- ===== src/Mem/Manager/Placed.antt =====
-- Which addresses stand in which shard, against the map of the pinned filters.
use dynamic_modules_examples.Base.{
  ℕ, ◌≡◌, ◌∙◌, sym, ap, none, some, ◌∷◌, arith, ◌==◌, if◌then◌else◌, Bool-cases, inl, inr, ==_iff,
  true, false,
}
use dynamic_modules_examples.Mem.{Ptr, Heap}
use dynamic_modules_examples.Mem.Chain.{Cells, has, ◌∈◌, ◌∉◌, erase, Chain}
use dynamic_modules_examples.Mem.Sharding.{sharding_key}
use dynamic_modules_examples.Mem.Manager.{
  Pool, insert, delete, find, find-erase, not-mem_of_find, mem_of_find, mem_of_mem-erase,
}

-- A filter stands in the shard of its address, and nowhere else.
pub record IsPlaced {F : Type 0} (fs : ℕ → Cells F) (filters : Pool F) : Type 0 where
  pub placed : (i : ℕ) (p : Ptr) → p ∈ fs i → sharding_key p ≡ i
  pub found : (p : Ptr) → find p (fs (sharding_key p)) ≡ filters p

module _ {F : Type 0} {fs : ℕ → Cells F} {filters : Pool F} (is : IsPlaced fs filters) where
  open is use {placed, found}

  -- One shard's list is replaced by another with addresses of that shard.
  placed_update :
      (key : ℕ) (zs : Cells F)
      → ((p : Ptr) → p ∈ zs → sharding_key p ≡ key)
      → (i : ℕ) (p : Ptr) → p ∈ (if key == i then zs else fs i)
      → sharding_key p ≡ i
  placed_update key zs inside i p there = elim (Bool-cases (key == i)) [
    | inl same ↦ inside p (rw same at there) ∙ (==_iff key i).0 same
    | inr other ↦ placed i p (rw other at there)
  ]

  find_update :
      (key : ℕ) (zs : Cells F) (p : Ptr)
      → find p (if key == sharding_key p then zs else fs (sharding_key p))
        ≡ (if key == sharding_key p then find p zs else filters p)
  find_update key zs p = elim (Bool-cases (key == sharding_key p)) [
    | inl same ↦ rw same
    | inr other ↦ rw other (found p)
  ]

  find_in_shard : (key : ℕ) (p : Ptr) → key ≡ sharding_key p → find p (fs key) ≡ filters p
  find_in_shard key p e = ap (λ k. find p (fs k)) e ∙ found p

  -- With `fresh` in front of its shard, every address is looked up as in the longer map.
  find_pinned :
      (fresh : Ptr) (f : F) (p : Ptr)
      → (if sharding_key fresh == sharding_key p
          then find p ((fresh, f) ∷ fs (sharding_key fresh))
          else filters p)
        ≡ insert filters fresh f p
  find_pinned fresh f p = elim (Bool-cases (fresh == p)) [
    | inl here ↦
        let e : sharding_key fresh ≡ sharding_key p = ap sharding_key ((==_iff fresh p).0 here) in
        ground arith
    | inr older ↦ ground (arith, find_in_shard (sharding_key fresh) p)
  ]

  find_unpinned :
      (q p : Ptr) {h : Heap F} {before : Ptr}
      → Chain h before (fs (sharding_key q))
      → (if sharding_key q == sharding_key p
          then find p (erase q (fs (sharding_key q)))
          else filters p)
        ≡ delete filters q p
  find_unpinned q p c = elim (Bool-cases (q == p)) [
    | inl here ↦
        let e : sharding_key q ≡ sharding_key p = ap sharding_key ((==_iff q p).0 here) in
        ground (arith, find-erase q p c)
    | inr other ↦ ground (arith, find_in_shard (sharding_key q) p, find-erase q p c)
  ]

  -- The shards with one list replaced.
  abbrev pub replaced : (key : ℕ) → Cells F → ℕ → Cells F
  replaced key zs i = if key == i then zs else fs i

  pub pin-IsPlaced :
      (fresh : Ptr) (f : F)
      → IsPlaced
          (replaced (sharding_key fresh) ((fresh, f) ∷ fs (sharding_key fresh)))
          (insert filters fresh f)
  pin-IsPlaced fresh f =
      let key = sharding_key fresh in
      record {
        placed = placed_update key ((fresh, f) ∷ fs key) (λ p there.
            elim (Bool-cases (fresh == p)) [
              | inl here ↦ ap sharding_key (sym ((==_iff fresh p).0 here))
              | inr older ↦ placed key p (ground arith)
            ]);
        found = λ p. find_update key ((fresh, f) ∷ fs key) p ∙ find_pinned fresh f p;
      }

  pub unpin-IsPlaced :
      (p : Ptr) {h : Heap F} {before : Ptr}
      → Chain h before (fs (sharding_key p))
      → IsPlaced (replaced (sharding_key p) (erase p (fs (sharding_key p)))) (delete filters p)
  unpin-IsPlaced p c =
      let key = sharding_key p in
      record {
        placed =
            placed_update key (erase p (fs key))
              (λ q there. placed key q (mem_of_mem-erase q p (fs key) there));
        found = λ q. find_update key (erase p (fs key)) q ∙ find_unpinned p q c;
      }

  pub mem_of_pinned : {p : Ptr} {f : F} → filters p ≡ some f → p ∈ fs (sharding_key p)
  mem_of_pinned {p} {f} there = mem_of_find p (fs (sharding_key p)) f (found p ∙ there)

  pub not-mem_of_unpinned : (p : Ptr) (i : ℕ) → filters p ≡ none → p ∉ fs i
  not-mem_of_unpinned p i unused = elim (Bool-cases (has p (fs i))) [
    | inl there ↦
        let out = not-mem_of_find p (fs (sharding_key p)) (found p ∙ unused) in
        let e = placed i p there in
        let there' : p ∈ fs (sharding_key p) = ap (λ k. has p (fs k)) e ∙ there in
        (let no : true ≡ false = sym there' ∙ out in cc)
    | inr out ↦ out
  ]
