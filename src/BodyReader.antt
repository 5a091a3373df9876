-- ===== src/BodyReader.antt =====
-- `bodyReader` of go/gosdk/abi.go, and `io.ReadAll` over it as the filters use it.
pub mod Read
pub mod ReadAll
use dynamic_modules_examples.Base.{
  ℕ, zero, suc, ◌+◌, ◌-◌, Bool, true, false, Option, none, some, List, [], ◌++◌, ◌==◌, leb,
  if◌then◌else◌, length, get_elem?, take, drop,
}
use dynamic_modules_examples.Base.Bytes.{Bytes}
use dynamic_modules_examples.Memory.{Memory, EnvoySlice, unsafe_slice}

pub record BodyReader : Type 0 where
  pub chunks : List EnvoySlice
  pub index : ℕ
  pub offset : ℕ

-- What `Read` leaves: the bytes copied into the front of `p`, whether the error is `io.EOF` (it is
-- nil otherwise), and the reader.
pub record ReadResult : Type 0 where
  pub copied : Bytes
  pub eof : Bool
  pub reader : BodyReader

module _ (mem : Memory) where
  -- The last three lines of `Read`. `copy` stops at the shorter of its arguments.
  copy_chunk : ℕ → EnvoySlice → BodyReader → ReadResult
  copy_chunk len_p chunk b =
      let copied = take len_p (drop b.offset (unsafe_slice mem chunk)) in
      record {
        copied = copied;
        eof = false;
        reader = record b { offset = b.offset + length copied };
      }

  -- `Read`, into a buffer of `len_p` bytes. `get_elem?` is none exactly from `len(b.chunks)` on.
  unfoldable pub read : ℕ → BodyReader → ReadResult
  unfolding copy_chunk
  read len_p b = elim (get_elem? b.chunks b.index) [
    | none ↦ record { copied = []; eof = true; reader = b }
    | some chunk ↦
        if leb chunk.length b.offset
        then (let b' = record b { index = b.index + 1; offset = 0 } in
            elim (get_elem? b.chunks (b.index + 1)) [
              | none ↦ record { copied = []; eof = true; reader = b' }
              | some chunk' ↦ copy_chunk len_p chunk' b'
            ])
        else copy_chunk len_p chunk b
  ]

  -- The loop of `io.ReadAll`: `buf` has capacity `cap`, and the runtime chooses the next capacity
  -- when it is full. `none` means that the fuel ran out.
  unfoldable pub read_all_loop :
      (grow : ℕ → ℕ) → ℕ → (buf : Bytes) → (cap : ℕ) → BodyReader → Option (Bytes × BodyReader)
  read_all_loop grow zero buf cap b = none
  read_all_loop grow (suc fuel) buf cap b =
      let r = read (cap - length buf) b in
      let buf' = buf ++ r.copied in
      let cap' = if length buf' == cap then grow cap else cap in
      let rest = read_all_loop grow fuel buf' cap' r.reader in
      if r.eof then some (buf', r.reader) else rest

  -- `io.ReadAll` starts with 512 bytes of capacity.
  unfoldable pub read_all : (grow : ℕ → ℕ) → ℕ → BodyReader → Option (Bytes × BodyReader)
  read_all grow fuel b = read_all_loop grow fuel [] 512 b

-- `&bodyReader{chunks: chunks}`
abbrev pub new_reader : List EnvoySlice → BodyReader
new_reader chunks = record { chunks = chunks; index = 0; offset = 0 }
