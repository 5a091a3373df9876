-- ===== src/Abi/Held.antt =====
-- The pointers that Envoy holds, against the map of what is pinned.
use dynamic_modules_examples.Base.{
  ◌≡◌, sym, ap, ◌∙◌, Bool, true, false, none, some, inl, inr, if◌then◌else◌, ◌==◌, is_some, arith,
  Bool-cases, Option-cases, ==_iff,
}
use dynamic_modules_examples.Mem.{Ptr}
use dynamic_modules_examples.Mem.Manager.{Pool, insert, delete}

-- The pointers that Envoy holds.
abbrev pub Held : Type 0
Held = Ptr → Bool

abbrev pub take_up : Held → Ptr → Held
take_up held p q = if p == q then true else held q

abbrev pub give_up : Held → Ptr → Held
give_up held p q = if p == q then false else held q

pub of_held :
    {T : Type 0} (pool : Pool T) (p : Ptr) → is_some (pool p) ≡ true → (o : T) × (pool p ≡ some o)
of_held pool p held = elim (Option-cases (pool p)) [
  | inl gone ↦ (let no : false ≡ true = ap is_some (sym gone) ∙ held in cc)
  | inr there ↦ there
]

pub of_free : {T : Type 0} (pool : Pool T) (p : Ptr) → is_some (pool p) ≡ false → pool p ≡ none
of_free pool p free = elim (Option-cases (pool p)) [
  | inl gone ↦ gone
  | inr (o, there) ↦ (let no : true ≡ false = ap is_some (sym there) ∙ free in cc)
]

pub held-insert :
    {T : Type 0} (pool : Pool T) (held : Held) (p : Ptr) (o : T)
    → ((q : Ptr) → is_some (pool q) ≡ held q)
    → (q : Ptr) → is_some (insert pool p o q) ≡ take_up held p q
held-insert pool held p o same q = ground (arith, same q)

pub held-delete :
    {T : Type 0} (pool : Pool T) (held : Held) (p : Ptr)
    → ((q : Ptr) → is_some (pool q) ≡ held q)
    → (q : Ptr) → is_some (delete pool p q) ≡ give_up held p q
held-delete pool held p same q = ground (arith, same q)

-- A filter that is replaced in place stays held.
pub held-replace :
    {T : Type 0} (pool : Pool T) (held : Held) (p : Ptr) (o : T)
    → held p ≡ true
    → ((q : Ptr) → is_some (pool q) ≡ held q)
    → (q : Ptr) → is_some (insert pool p o q) ≡ held q
held-replace pool held p o there same q = elim (Bool-cases (p == q)) [
  | inl here ↦ rw here (sym there ∙ ap held ((==_iff p q).0 here))
  | inr other ↦ rw other (same q)
]
