-- ===== src/Memory.antt =====
-- Memory of the host process as the SDK reads it: `envoySlice` of go/gosdk/abi.go and
-- `unsafe.Slice`. `size_t` and `int` values are natural numbers: the length of a piece of memory
-- is below 2 ^ 63, where the conversions between the two change nothing.
use dynamic_modules_examples.Base.{ℕ, zero, suc, ◌+◌, ◌≡◌, refl, List, [], ◌∷◌, ◌++◌, arith, length}
use dynamic_modules_examples.Base.Bytes.{Bytes}

-- The byte at each address.
abbrev pub Memory : Type 0
Memory = ℕ → ℕ

pub record EnvoySlice : Type 0 where
  pub start : ℕ
  pub length : ℕ

-- A slice that `make` has filled with zeros.
abbrev pub zero_slice : EnvoySlice
zero_slice = record { start = 0; length = 0 }

unfoldable pub bytes_at : Memory → ℕ → ℕ → Bytes
bytes_at mem start zero = []
bytes_at mem start (suc n) = mem start ∷ bytes_at mem (start + 1) n

-- `unsafe.Slice((*byte)(unsafe.Pointer(s.data)), s.length)`, and its copy into a string.
unfoldable pub unsafe_slice : Memory → EnvoySlice → Bytes
unfolding bytes_at
unsafe_slice mem s = bytes_at mem s.start s.length

-- The bytes of several slices, one after the other.
unfoldable pub contents : Memory → List EnvoySlice → Bytes
contents mem [] = []
contents mem (s ∷ slices) = unsafe_slice mem s ++ contents mem slices

length-bytes_at : (mem : Memory) (start n : ℕ) → length (bytes_at mem start n) ≡ n
unfolding bytes_at
length-bytes_at mem start zero = refl
length-bytes_at mem start (suc n) = omega (arith, length-bytes_at mem (start + 1) n)

pub length-unsafe_slice : (mem : Memory) (s : EnvoySlice) → length (unsafe_slice mem s) ≡ s.length
unfolding unsafe_slice
length-unsafe_slice mem s = length-bytes_at mem s.start s.length
