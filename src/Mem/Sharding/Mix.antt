-- ===== src/Mem/Sharding/Mix.antt =====
-- `splitmix64` and `shardingKey` of go/gosdk/mem.go, with the inverse of the hash.
use native.Mathlib.Nat.{mul_assoc, le_trans, div-le_self}
use Prim.Native.Nat.{suc-le-suc}
use dynamic_modules_examples.Base.{
  ℕ, ◌≢◌, ◌+◌, ◌-◌, ◌*◌, ◌/◌, ◌^◌, ◌<◌, bit_xor, ◌≡◌, refl, sym, ap, ◌∙◌, arith,
}
use dynamic_modules_examples.Base.Bits.{
  bit_xor_assoc, bit_xor_self, bit_xor-zero, bit_xor_shift, bit_xor-lt, bit_and-le, zero-bit_xor,
}
use dynamic_modules_examples.Mem.Sharding.{sharding_size, sharding_key, u64, xor_shift, splitmix64}

-- Every key is an index of the arrays of shards.
pub sharding_key-lt : (key : ℕ) → sharding_key key < sharding_size
unfolding sharding_key
sharding_key-lt key = omega (arith, bit_and-le (splitmix64 key) 255)

-- `x ^ (x >> k)` undone: for `k` above 21, three shifts leave nothing of 64 bits.
unshift : ℕ → ℕ → ℕ
unshift k y = bit_xor (bit_xor y (y / 2 ^ k)) (y / 2 ^ k / 2 ^ k)

xor_cancel : (a b c : ℕ) → bit_xor (bit_xor a b) (bit_xor b c) ≡ bit_xor a c
xor_cancel a b c =
    rw (bit_xor_assoc a b (bit_xor b c), ← bit_xor_assoc b b c, bit_xor_self b, zero-bit_xor c)

unshift-xor_shift : (k x : ℕ) → x / 2 ^ k / 2 ^ k / 2 ^ k ≡ 0 → unshift k (xor_shift k x) ≡ x
unfolding unshift xor_shift
unshift-xor_shift k x gone =
    let once = bit_xor_shift k x (x / 2 ^ k) in
    let twice = bit_xor_shift k (x / 2 ^ k) (x / 2 ^ k / 2 ^ k) in
    rw (once, twice, gone, xor_cancel x (x / 2 ^ k) (x / 2 ^ k / 2 ^ k), xor_cancel)
      (bit_xor-zero x)

-- Multiplication by an odd constant undone, by the constant's inverse.
mul_inverse : (a b t x : ℕ) → a * b ≡ 2 ^ 64 * t + 1 → x < 2 ^ 64 → u64 (u64 (x * a) * b) ≡ x
mul_inverse a b t x one small =
    let q = x * a / 2 ^ 64 in
    let parts : u64 (x * a) + 2 ^ 64 * q ≡ x * a = omega arith in
    omega (arith, ap (λ (n : ℕ). n * b) parts, mul_assoc x a b, ap (λ (n : ℕ). x * n) one)

add_inverse : (a x : ℕ) → a < 2 ^ 64 → x < 2 ^ 64 → u64 (u64 (x + a) + (2 ^ 64 - a)) ≡ x
add_inverse a x p small = omega arith

-- The steps of `splitmix64` undone, in the opposite order.
unsplitmix64 : ℕ → ℕ
unsplitmix64 y =
    let c = unshift 31 y in
    let b = unshift 27 (u64 (c * 0x319642b2d24d8ec3)) in
    let a = unshift 30 (u64 (b * 0x96de1b173f119089)) in u64 (a + (2 ^ 64 - 0x9e3779b97f4a7c15))

shifted_out :
    (x : ℕ)
    → x < 2 ^ 64
    → (x / 2 ^ 27 / 2 ^ 27 / 2 ^ 27 ≡ 0)
      × (x / 2 ^ 30 / 2 ^ 30 / 2 ^ 30 ≡ 0)
      × (x / 2 ^ 31 / 2 ^ 31 / 2 ^ 31 ≡ 0)
shifted_out x small = (omega arith, omega arith, omega arith)

xor_shift-lt : (k x : ℕ) → x < 2 ^ 64 → xor_shift k x < 2 ^ 64
unfolding xor_shift
xor_shift-lt k x small =
    bit_xor-lt 64 x (x / 2 ^ k) small (le_trans (suc-le-suc (div-le_self x (2 ^ k))) small)

mixed :
    (k a b t x : ℕ)
    → a * b ≡ 2 ^ 64 * t + 1
    → x < 2 ^ 64
    → x / 2 ^ k / 2 ^ k / 2 ^ k ≡ 0
    → unshift k (u64 (u64 (xor_shift k x * a) * b)) ≡ x
mixed k a b t x one small gone =
    rw (mul_inverse a b t (xor_shift k x) one (xor_shift-lt k x small)) (unshift-xor_shift k x gone)

-- `splitmix64` maps 64-bit words to 64-bit words.
pub splitmix64-lt : (x : ℕ) → splitmix64 x < 2 ^ 64
unfolding splitmix64
splitmix64-lt x = xor_shift-lt 31 _ (omega arith)

unsplitmix64-splitmix64 : (x : ℕ) → x < 2 ^ 64 → unsplitmix64 (splitmix64 x) ≡ x
unfolding splitmix64 unsplitmix64
unsplitmix64-splitmix64 x small =
    let a = u64 (x + 0x9e3779b97f4a7c15) in
    let b = u64 (xor_shift 30 a * 0xbf58476d1ce4e5b9) in
    let c = u64 (xor_shift 27 b * 0x94d049bb133111eb) in
    let undo_c = unshift-xor_shift 31 c (shifted_out c (omega arith)).2 in
    let undo_b =
      mixed 27 0x94d049bb133111eb 0x319642b2d24d8ec3 0x1cd336eda85f1453 b refl (omega arith)
        (shifted_out b (omega arith)).0 in
    let undo_a =
      mixed 30 0xbf58476d1ce4e5b9 0x96de1b173f119089 0x70c3bca78f27f46c a refl (omega arith)
        (shifted_out a (omega arith)).1 in
    rw (undo_c, undo_b, undo_a) (add_inverse 0x9e3779b97f4a7c15 x (omega arith) small)

-- Distinct 64-bit addresses have distinct hashes.
pub splitmix64-distinct : (x y : ℕ) → x < 2 ^ 64 → y < 2 ^ 64 → x ≢ y → splitmix64 x ≢ splitmix64 y
splitmix64-distinct x y p q ne e =
    ne (sym (unsplitmix64-splitmix64 x p) ∙ ap unsplitmix64 e ∙ unsplitmix64-splitmix64 y q)
