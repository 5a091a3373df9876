-- ===== src/Mem/Sharding.antt =====
-- `shardingKey` and `splitmix64`. A `uintptr` is a 64-bit word, and its arithmetic wraps.
pub mod Mix
use dynamic_modules_examples.Base.{ℕ, ◌+◌, ◌-◌, ◌*◌, ◌/◌, ◌%◌, ◌^◌, bit_and, bit_xor}

abbrev pub sharding_size : ℕ
sharding_size = 256

abbrev pub sharding_mask : ℕ
sharding_mask = sharding_size - 1

abbrev pub u64 : ℕ → ℕ
u64 n = n % 2 ^ 64

-- `x ^ (x >> k)`
unfoldable pub xor_shift : ℕ → ℕ → ℕ
xor_shift k x = bit_xor x (x / 2 ^ k)

unfoldable pub splitmix64 : ℕ → ℕ
unfolding xor_shift
splitmix64 x =
    let a = u64 (x + 0x9e3779b97f4a7c15) in
    let b = u64 (xor_shift 30 a * 0xbf58476d1ce4e5b9) in
    let c = u64 (xor_shift 27 b * 0x94d049bb133111eb) in xor_shift 31 c

unfoldable pub sharding_key : ℕ → ℕ
sharding_key key = bit_and (splitmix64 key) sharding_mask
