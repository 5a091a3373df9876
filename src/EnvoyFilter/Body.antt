-- ===== src/EnvoyFilter/Body.antt =====
-- `GetRequestBody` and `GetResponseBody`, read to the end, over a host that keeps to its
-- documentation.
use dynamic_modules_examples.Base.{
  ℕ, ◌+◌, ◌<◌, ◌≡◌, ◌≢◌, true, false, some, List, [], ◌++◌, ◌==◌, length, drop, replicate,
  length-replicate, length-pos, arith,
}
use dynamic_modules_examples.Base.Bytes.{Bytes}
use dynamic_modules_examples.Base.Outcome.{ok, panic, index_out_of_range}
use dynamic_modules_examples.Memory.{EnvoySlice, zero_slice, contents}
use dynamic_modules_examples.Host.{BodyCallbacks, Host}
use dynamic_modules_examples.BodyReader.{BodyReader, new_reader}
use dynamic_modules_examples.BodyReader.ReadAll.{read_all-contents}
use dynamic_modules_examples.EnvoyFilter.{EnvoyFilter, get_body, io_read_all}
use dynamic_modules_examples.EnvoyFilter.Headers.{overwrite_whole}

-- What Envoy documents of a buffered body: it is handed out as the slices that were counted,
-- `drain` takes bytes from its front, and `append` adds bytes behind it. What the filters print
-- does not touch it, and a full slice grows when it is appended to.
pub record IsBody (H : Host) (c : BodyCallbacks H.State) (raw : ℕ) : Type 0 where
  pub slices : H.State → List EnvoySlice
  pub sized : (s : H.State) → c.vector_size s raw ≡ (true, length (slices s))
  pub written : (s : H.State) → c.vector s raw ≡ (true, slices s)
  pub drained :
      (s : H.State) (n : ℕ)
      → let s' : H.State = (c.drain s raw n).1 in
        contents (H.memory s') (slices s') ≡ drop n (contents (H.memory s) (slices s))
  pub appended :
      (s : H.State) (bytes : Bytes)
      → let s' : H.State = (c.append s raw bytes).1 in
        contents (H.memory s') (slices s') ≡ contents (H.memory s) (slices s) ++ bytes
  pub printed :
      (s : H.State) (bytes : Bytes)
      → contents (H.memory (H.print s bytes)) (slices (H.print s bytes))
        ≡ contents (H.memory s) (slices s)
  pub grows : (n : ℕ) → n < H.grow n

module _ (H : Host) {c : BodyCallbacks H.State} (e : EnvoyFilter) (is : IsBody H c e.raw) where
  -- The bytes of the body.
  abbrev pub body : H.State → Bytes
  body s = contents (H.memory s) (is.slices s)

  pub slices_of_body : (s : H.State) → body s ≢ [] → is.slices s ≢ []
  unfolding contents
  slices_of_body s ne none_there = ne (rw none_there)

  get_body-new_reader :
      (s : H.State) → is.slices s ≢ [] → get_body H c e s ≡ ok (some (new_reader (is.slices s)))
  unfolding get_body
  get_body-new_reader s ne =
      let n = length (is.slices s) in
      let there : (n == 0) ≡ false = ground (arith, length-pos (is.slices s) ne) in
      let whole =
        overwrite_whole (replicate n zero_slice) (is.slices s)
          (omega (arith, length-replicate n zero_slice)) in
      rw (is.sized s, is.written s, there, whole)

  -- A body that Envoy hands out with a slice is read whole by `io.ReadAll` over `GetRequestBody` or
  -- `GetResponseBody`.
  pub io_read_all-body :
      (s : H.State)
      → is.slices s ≢ []
      → (r : BodyReader) × (get_body H c e s ≡ ok (some r)) × (io_read_all H r s ≡ ok (body s))
  unfolding io_read_all
  io_read_all-body s ne =
      let fuel = length (body s) + length (is.slices s) + 1 in
      let (b, all) =
        read_all-contents (H.memory s) H.grow is.grows fuel (is.slices s) (omega arith) in
      (new_reader (is.slices s), get_body-new_reader s ne, rw all)

  -- Where the body has no slice, `GetRequestBody` and `GetResponseBody` panic at `&chunks[0]`.
  pub get_body-panic :
      (s : H.State) → is.slices s ≡ [] → get_body H c e s ≡ panic index_out_of_range
  unfolding get_body
  get_body-panic s none_there = rw (is.sized s, none_there)
