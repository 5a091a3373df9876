-- ===== src/BodyReader/Read.antt =====
-- `bodyReader.Read` of go/gosdk/abi.go, against the bytes that a reader has still to yield.
use dynamic_modules_examples.Base.{
  ℕ, ◌⊎◌, ◌+◌, ◌-◌, ◌≤◌, ◌<◌, ◌≡◌, refl, ◌∙◌, ap, true, false, none, some, List, [], ◌∷◌, ◌++◌, leb,
  length, get_elem?, take, drop, arith, take-append-drop, drop_of_some, drop_of_none, lt_of_some,
  drop_of_le, length-take, length-drop, drop-drop, Bool-cases, inl, inr, length-append,
  Option-cases, drop-length-take, min,
}
use mathlib.Core.List.{append_assoc}
use dynamic_modules_examples.Base.Bytes.{Bytes}
use dynamic_modules_examples.Memory.{
  Memory, EnvoySlice, unsafe_slice, contents, length-unsafe_slice,
}
use dynamic_modules_examples.BodyReader.{BodyReader, ReadResult, copy_chunk, read, new_reader}

-- The reader moves on to the next chunk, which may be empty.
abbrev next_chunk : BodyReader → BodyReader
next_chunk b = record b { index = b.index + 1; offset = 0 }

module _ (mem : Memory) where
  -- What a reader has still to yield: the rest of its chunk, and the chunks behind it.
  rest_of : List EnvoySlice → ℕ → Bytes
  rest_of [] offset = []
  rest_of (chunk ∷ chunks) offset = drop offset (unsafe_slice mem chunk) ++ contents mem chunks

  unfoldable pub remaining : BodyReader → Bytes
  unfolding rest_of
  remaining b = rest_of (drop b.index b.chunks) b.offset

  -- Bytes and chunks that are left.
  abbrev pub measure : BodyReader → ℕ
  measure b = length (remaining b) + (length b.chunks - b.index)

  pub record IsRead (len_p : ℕ) (b : BodyReader) (r : ReadResult) : Type 0 where
    pub in_order : remaining b ≡ r.copied ++ remaining r.reader
    pub fits : length r.copied ≤ len_p
    pub at_end : r.eof ≡ true → remaining b ≡ []
    pub progress : r.eof ≡ false → 0 < len_p → measure r.reader < measure b

  take-drop_rest :
      (n off : ℕ) (xs ys : Bytes)
      → drop off xs ++ ys
        ≡ take n (drop off xs) ++ (drop (off + length (take n (drop off xs))) xs ++ ys)
  take-drop_rest n off xs ys = rw (
    ← drop-drop off (length (take n (drop off xs))) xs,
    drop-length-take n (drop off xs),
    ← append_assoc (take n (drop off xs)) (drop n (drop off xs)) ys,
    take-append-drop n (drop off xs),
  )

  module _ (len_p : ℕ) (b : BodyReader) (chunk : EnvoySlice)
      (e : get_elem? b.chunks b.index ≡ some chunk) where
    chunk_remaining :
        remaining b
        ≡ drop b.offset (unsafe_slice mem chunk) ++ contents mem (drop (b.index + 1) b.chunks)
    unfolding remaining
    chunk_remaining = rw (drop_of_some b.index b.chunks chunk e)

    copied_length :
        length (copy_chunk mem len_p chunk b).copied ≡ min len_p (chunk.length - b.offset)
    unfolding copy_chunk
    copied_length = omega (
      arith,
      length-take len_p (drop b.offset (unsafe_slice mem chunk)),
      length-drop b.offset (unsafe_slice mem chunk),
      length-unsafe_slice mem chunk,
    )

    copy_chunk-in_order :
        remaining b
        ≡ (copy_chunk mem len_p chunk b).copied ++ remaining (copy_chunk mem len_p chunk b).reader
    unfolding copy_chunk remaining
    copy_chunk-in_order = rw (drop_of_some b.index b.chunks chunk e) (
        take-drop_rest len_p b.offset (unsafe_slice mem chunk)
          (contents mem (drop (b.index + 1) b.chunks)))

    -- The chunk under the reader is used up: what is left is in the chunks behind it.
    skip_remaining :
        chunk.length ≤ b.offset → remaining b ≡ contents mem (drop (b.index + 1) b.chunks)
    skip_remaining done =
        chunk_remaining
        ∙ rw (
            drop_of_le b.offset (unsafe_slice mem chunk)
              (omega (arith, length-unsafe_slice mem chunk)))

    copy_chunk-IsRead : b.offset < chunk.length → IsRead len_p b (copy_chunk mem len_p chunk b)
    unfolding copy_chunk
    copy_chunk-IsRead more = record {
      in_order = copy_chunk-in_order;
      fits = omega (arith, copied_length);
      at_end = λ h. cc;
      progress = λ _ room. omega (
        arith,
        copied_length,
        ap length copy_chunk-in_order,
        length-append (copy_chunk mem len_p chunk b).copied
            (remaining (copy_chunk mem len_p chunk b).reader),
      );
    }

  module _ (len_p : ℕ) (b : BodyReader) (chunk : EnvoySlice)
      (e : get_elem? b.chunks b.index ≡ some chunk) (done : chunk.length ≤ b.offset) where
    next_remaining : remaining b ≡ remaining (next_chunk b)
    unfolding remaining contents
    next_remaining = skip_remaining len_p b chunk e done ∙ at (drop (b.index + 1) b.chunks)
      where
        at : (slices : List EnvoySlice) → contents mem slices ≡ rest_of slices 0
        at [] = refl
        at (slice ∷ slices) = refl

    next_measure : measure (next_chunk b) < measure b
    next_measure = omega (arith, ap length next_remaining, lt_of_some b.index b.chunks chunk e)

    next_chunk-IsRead :
        (chunk' : EnvoySlice)
        → get_elem? b.chunks (b.index + 1) ≡ some chunk'
        → IsRead len_p b (copy_chunk mem len_p chunk' (next_chunk b))
    unfolding copy_chunk
    next_chunk-IsRead chunk' e' =
        let r = copy_chunk mem len_p chunk' (next_chunk b) in
        record {
          in_order = next_remaining ∙ copy_chunk-in_order len_p (next_chunk b) chunk' e';
          fits = omega (arith, copied_length len_p (next_chunk b) chunk' e');
          at_end = λ h. cc;
          progress = λ _ _. omega (
            arith,
            next_measure,
            ap length (copy_chunk-in_order len_p (next_chunk b) chunk' e'),
            length-append r.copied (remaining r.reader),
          );
        }

  nothing_remains : (b : BodyReader) → get_elem? b.chunks b.index ≡ none → remaining b ≡ []
  unfolding remaining
  nothing_remains b e = rw (drop_of_none b.index b.chunks e)

  eof-IsRead :
      (len_p : ℕ) (b : BodyReader)
      → remaining b ≡ []
      → IsRead len_p b (record { copied = []; eof = true; reader = b })
  eof-IsRead len_p b empty = record {
    in_order = refl;
    fits = omega arith;
    at_end = λ _. empty;
    progress = λ h. cc;
  }

  pub read-IsRead : (len_p : ℕ) (b : BodyReader) → IsRead len_p b (read mem len_p b)
  unfolding read
  read-IsRead len_p b = elim (Option-cases (get_elem? b.chunks b.index)) [
    | inl none_left ↦ rw (none_left, read) (eof-IsRead len_p b (nothing_remains b none_left))
    | inr (chunk, e) ↦ elim (Bool-cases (leb chunk.length b.offset)) [
      | inr more ↦ rw (e, read) (rw more (copy_chunk-IsRead len_p b chunk e (ground arith)))
      | inl done ↦
          let le : chunk.length ≤ b.offset = ground arith in
          elim (Option-cases (get_elem? b.chunks (b.index + 1))) [
            | inl last ↦
                rw (e, read)
                  (rw done (
                    rw (last, read)
                      (record {
                        in_order = next_remaining len_p b chunk e le;
                        fits = omega arith;
                        at_end = λ _.
                            next_remaining len_p b chunk e le ∙ nothing_remains (next_chunk b) last;
                        progress = λ h. cc;
                      })))
            | inr (chunk', e') ↦
                rw (e, read)
                  (rw done (rw (e', read) (next_chunk-IsRead len_p b chunk e le chunk' e')))
          ]
    ]
  ]

  -- Into a buffer with room, `Read` copies the next bytes of the body, in order and no more than fit,
  -- and either says `io.EOF` when nothing was left, or leaves fewer bytes and chunks to be read.
  pub read-remaining :
      (len_p : ℕ) (b : BodyReader)
      → 0 < len_p
      → (let r = read mem len_p b in
          (remaining b ≡ r.copied ++ remaining r.reader)
          × (length r.copied ≤ len_p)
          × (((r.eof ≡ true) × (remaining b ≡ []))
              ⊎ ((r.eof ≡ false) × (measure r.reader < measure b))))
  read-remaining len_p b room =
      let is = read-IsRead len_p b in
      (
        is.in_order,
        is.fits,
        elim (Bool-cases (read mem len_p b).eof) [
          | inl ended ↦ inl (ended, is.at_end ended)
          | inr more ↦ inr (more, is.progress more room)
        ],
      )

  -- A new reader has all chunks before it.
  pub remaining-new_reader :
      (chunks : List EnvoySlice) → remaining (new_reader chunks) ≡ contents mem chunks
  unfolding remaining contents
  remaining-new_reader [] = refl
  remaining-new_reader (chunk ∷ chunks) = refl
