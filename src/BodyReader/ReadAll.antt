-- ===== src/BodyReader/ReadAll.antt =====
-- `io.ReadAll` over a `bodyReader` of go/gosdk/abi.go, against the bytes of all chunks.
use mathlib.Core.List.{append_assoc}
use dynamic_modules_examples.Base.{
  ℕ, zero, suc, ◌+◌, ◌-◌, ◌<◌, ◌≡◌, refl, ◌∙◌, ap, sym, some, List, [], ◌∷◌, ◌++◌, ◌==◌,
  if◌then◌else◌, length, arith, Bool-cases, inl, inr, length-append,
}
use dynamic_modules_examples.Base.Bytes.{Bytes}
use dynamic_modules_examples.Memory.{Memory, EnvoySlice, contents}
use dynamic_modules_examples.BodyReader.{BodyReader, read, read_all_loop, read_all, new_reader}
use dynamic_modules_examples.BodyReader.Read.{remaining, measure, read-IsRead, remaining-new_reader}

nil_of_append {ℓ} : {A : Type ℓ} (xs ys : List A) → xs ++ ys ≡ [] → xs ≡ []
nil_of_append [] ys e = refl
nil_of_append (x ∷ xs) ys e = cc

module _ (mem : Memory) (grow : ℕ → ℕ) (grows : (n : ℕ) → n < grow n) where
  read_all_loop-contents :
      (fuel : ℕ) (buf : Bytes) (cap : ℕ) (b : BodyReader)
      → measure mem b < fuel
      → length buf < cap
      → (b' : BodyReader) × (read_all_loop mem grow fuel buf cap b
          ≡ some (buf ++ remaining mem b, b'))
  unfolding read_all_loop
  read_all_loop-contents zero buf cap b enough room = absurd (omega arith)
  read_all_loop-contents (suc fuel) buf cap b enough room =
      let r = read mem (cap - length buf) b in
      let is = read-IsRead mem (cap - length buf) b in
      elim (Bool-cases r.eof) [
        | inl ended ↦
            let none_copied : r.copied ≡ [] =
              nil_of_append r.copied (remaining mem r.reader) (sym is.in_order ∙ is.at_end ended) in
            (r.reader, rw (ended, none_copied, is.at_end ended))
        | inr more ↦
            let cap' = if length (buf ++ r.copied) == cap then grow cap else cap in
            let (b', e) =
              read_all_loop-contents fuel (buf ++ r.copied) cap' r.reader
                (let further = is.progress more (omega arith) in omega arith)
                (ground (arith, is.fits, grows cap, length-append buf r.copied)) in
            (b', rw more (e ∙ rw (append_assoc, ← is.in_order)))
      ]

  -- From a new reader, with fuel for more steps than there are bytes and chunks, and with a runtime
  -- that always grows a full slice, `io.ReadAll` returns the contents of all chunks.
  pub read_all-contents :
      (fuel : ℕ) (chunks : List EnvoySlice)
      → length (contents mem chunks) + length chunks < fuel
      → (b : BodyReader) × (read_all mem grow fuel (new_reader chunks)
          ≡ some (contents mem chunks, b))
  unfolding read_all
  read_all-contents fuel chunks enough =
      let start = remaining-new_reader mem chunks in
      let (b, e) =
        read_all_loop-contents fuel [] 512 (new_reader chunks) (omega (arith, ap length start))
          (omega arith) in
      (b, e ∙ ap (λ (bytes : Bytes). some (bytes, b)) start)
