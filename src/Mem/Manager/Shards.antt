-- ===== src/Mem/Manager/Shards.antt =====
-- The shards side by side: what a change of one list does to the others.
use dynamic_modules_examples.Base.{ℕ, ◌≡◌, ◌∙◌, sym, ◌≢◌, none, arith, Bool-cases, inl, inr}
use dynamic_modules_examples.Mem.{Ptr, null, MemoryManager}
use dynamic_modules_examples.Mem.Chain.{
  has, ◌∈◌, ◌∉◌, head_of, head_of-mem, IsList, frame, null-not-mem,
}
use dynamic_modules_examples.Mem.Chain.Splice.{
  splice, before_of, after_of, before_of-mem, after_of-mem,
}
use dynamic_modules_examples.Mem.Pin.{pushed, pushed-frame}
use dynamic_modules_examples.Mem.Sharding.{sharding_key}
use dynamic_modules_examples.Mem.Manager.{Pool, Represents}

module _ {C F : Type 0} {m : MemoryManager C F} {configs : Pool C} {filters : Pool F}
    (r : Represents m configs filters) where
  -- Two shards share no address.
  apart : (p : Ptr) (i j : ℕ) → i ≢ j → p ∈ r.fs j → p ∉ r.fs i
  apart p i j ne there = elim (Bool-cases (has p (r.fs i))) [
    | inl here ↦ absurd (ne (sym (r.placed i p here) ∙ r.placed j p there))
    | inr out ↦ out
  ]

  -- The neighbours of a filter in its shard stand in no other shard.
  pub spliced_elsewhere :
      (i : ℕ) (p : Ptr)
      → sharding_key p ≢ i
      → IsList
          (splice m.filters
            (before_of null p (r.fs (sharding_key p)))
            (after_of p (r.fs (sharding_key p))))
          (m.http_filter_lists i)
          (r.fs i)
  spliced_elsewhere i p ne = record {
    front = (r.shards i).front;
    chain =
        let key = sharding_key p in
        let c = (r.shards key).chain in
        let nil_out = null-not-mem (r.shards i).chain in
        frame (r.shards i).chain (λ a here.
          let not_null : a ≢ null = ground arith in
          let not_there = apart a key i ne here in
          ground (arith, before_of-mem a null p c, after_of-mem a p c));
  }

  -- A new front of one shard changes no other shard.
  pub pushed_elsewhere :
      {fresh : Ptr} (i : ℕ) (f : F)
      → filters fresh ≡ none
      → sharding_key fresh ≢ i
      → IsList
          (pushed m.filters (m.http_filter_lists (sharding_key fresh)) fresh f)
          (m.http_filter_lists i)
          (r.fs i)
  pushed_elsewhere {fresh} i f unused ne = record {
    front = (r.shards i).front;
    chain =
        let key = sharding_key fresh in
        let new : fresh ∉ r.fs i = elim (Bool-cases (has fresh (r.fs i))) [
          | inl here ↦ absurd (ne (r.placed i fresh here))
          | inr out ↦ out
        ] in
        let out : head_of (r.fs key) ∉ r.fs i = elim (head_of-mem (r.fs key)) [
          | inl gone ↦ rw gone (null-not-mem (r.shards i).chain)
          | inr there ↦ apart _ i key (λ e. ne (sym e)) there
        ] in
        pushed-frame fresh (m.http_filter_lists key) f (r.shards i).chain new
          (rw (r.shards key).front out);
  }
