-- ===== src/Examples/Wire.antt =====
-- A concrete host for the examples: the headers and the body of a stream, laid out one after
-- another in memory. Request and response share them.
use dynamic_modules_examples.Base.{
  ℕ, zero, suc, ◌+◌, ◌≡◌, refl, sym, ap, ◌∙◌, List, [], ◌∷◌, ◌++◌, if◌then◌else◌, length, arith,
  Bool-cases, inl, inr,
}
use dynamic_modules_examples.Base.Bytes.{Bytes, bytes_eq, bytes_eq_iff}
use dynamic_modules_examples.Memory.{Memory, EnvoySlice, zero_slice, bytes_at, unsafe_slice}
use dynamic_modules_examples.EnvoyFilter.Headers.{wire_values}

abbrev pub cell : Bytes → Memory
cell [] a = 0
cell (b ∷ bs) zero = b
cell (b ∷ bs) (suc a) = cell bs a

skip_cell :
    (b : ℕ) (bs : Bytes) (start n : ℕ)
    → bytes_at (cell (b ∷ bs)) (suc start) n ≡ bytes_at (cell bs) start n
unfolding bytes_at
skip_cell b bs start zero = refl
skip_cell b bs start (suc n) =
    let e : suc start + 1 ≡ suc (start + 1) = omega arith in
    ap (λ i. cell bs start ∷ bytes_at (cell (b ∷ bs)) i n) e
    ∙ ap (λ l. cell bs start ∷ l) (skip_cell b bs (start + 1) n)

-- Bytes that are laid out in memory from an address on.
unfoldable pub Laid : Memory → ℕ → Bytes → Type 0
Laid mem start bytes = bytes_at mem start (length bytes) ≡ bytes

pub cell-Laid : (bs : Bytes) → Laid (cell bs) 0 bs
unfolding bytes_at Laid
cell-Laid [] = refl
cell-Laid (b ∷ bs) = ap (λ l. b ∷ l) (skip_cell b bs 0 (length bs) ∙ cell-Laid bs)

pub split_Laid :
    (mem : Memory) (start : ℕ) (xs ys : Bytes)
    → Laid mem start (xs ++ ys)
    → Laid mem start xs × Laid mem (start + length xs) ys
unfolding bytes_at Laid
split_Laid mem start [] ys laid =
    let e : start ≡ start + 0 = omega arith in
    (refl, ap (λ i. bytes_at mem i (length ys)) (sym e) ∙ laid)
split_Laid mem start (x ∷ xs) ys laid =
    let rest : bytes_at mem (start + 1) (length (xs ++ ys)) ≡ xs ++ ys = cc in
    let here : mem start ≡ x = cc in
    let (l, r) = split_Laid mem (start + 1) xs ys rest in
    let e : start + 1 + length xs ≡ start + length (x ∷ xs) = omega arith in
    (rw (here, l), ap (λ i. bytes_at mem i (length ys)) (sym e) ∙ r)

abbrev pub Fields : Type 0
Fields = List (Bytes × Bytes)

unfoldable pub blob : Fields → Bytes
blob [] = []
blob ((k, v) ∷ fields) = k ++ (v ++ blob fields)

unfoldable pub layout : ℕ → Fields → List (EnvoySlice × EnvoySlice)
layout start [] = []
layout start ((k, v) ∷ fields) =
    let behind = start + length k in
    (record { start = start; length = length k }, record { start = behind; length = length v })
    ∷ layout (behind + length v) fields

unfoldable pub field_values : Bytes → Fields → List Bytes
field_values key [] = []
field_values key ((k, v) ∷ fields) =
    let rest = field_values key fields in if bytes_eq k key then v ∷ rest else rest

unfoldable pub remove : Bytes → Fields → Fields
remove key [] = []
remove key ((k, v) ∷ fields) =
    let rest = remove key fields in if bytes_eq k key then rest else (k, v) ∷ rest

-- The slice of the first value of a name.
unfoldable pub locate : Bytes → ℕ → Fields → EnvoySlice
locate key start [] = zero_slice
locate key start ((k, v) ∷ fields) =
    let behind = start + length k in
    let later = locate key (behind + length v) fields in
    if bytes_eq k key then record { start = behind; length = length v } else later

pub wire_values-layout :
    (mem : Memory) (key : Bytes) (start : ℕ) (fields : Fields)
    → Laid mem start (blob fields)
    → wire_values mem key (layout start fields) ≡ field_values key fields
unfolding wire_values layout field_values blob Laid unsafe_slice
wire_values-layout mem key start [] laid = refl
wire_values-layout mem key start ((k, v) ∷ fields) laid =
    let (name, behind) = split_Laid mem start k (v ++ blob fields) laid in
    let (value, later) = split_Laid mem (start + length k) v (blob fields) behind in
    rw (name, value, wire_values-layout mem key (start + length k + length v) fields later)

pub locate-first :
    (mem : Memory) (key : Bytes) (start : ℕ) (fields : Fields) (v : Bytes) (vs : List Bytes)
    → Laid mem start (blob fields)
    → field_values key fields ≡ v ∷ vs
    → unsafe_slice mem (locate key start fields) ≡ v
unfolding locate field_values blob Laid unsafe_slice
locate-first mem key start [] v vs laid there = cc
locate-first mem key start ((k, w) ∷ fields) v vs laid there =
    let (name, behind) = split_Laid mem start k (w ++ blob fields) laid in
    let (value, later) = split_Laid mem (start + length k) w (blob fields) behind in
    elim (Bool-cases (bytes_eq k key)) [
      | inl same ↦ rw same (value ∙ ground arith)
      | inr other ↦
          rw other
            (locate-first mem key (start + length k + length w) fields v vs later (ground arith))
    ]

pub field_values-remove :
    (key j : Bytes) (fields : Fields)
    → field_values j (remove key fields) ≡ (if bytes_eq key j then [] else field_values j fields)
unfolding field_values remove
field_values-remove key j [] = ground arith
field_values-remove key j ((k, v) ∷ fields) = ground (
  arith,
  bytes_eq_iff k key,
  bytes_eq_iff k j,
  bytes_eq_iff key j,
  field_values-remove key j fields,
)
