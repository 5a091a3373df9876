-- ===== src/Filters/Passthrough/Swap.antt =====
-- The replacement of a body and its return, over any implementation of the three methods that keeps
-- to what the SDK documents of them.
use dynamic_modules_examples.Base.{
  ℕ, ◌≡◌, refl, ◌∙◌, ap, sym, ◌≢◌, some, [], ◌++◌, length, drop, drop-length,
}
use dynamic_modules_examples.Base.Bytes.{Bytes, bytes_eq_refl}
use dynamic_modules_examples.Base.Outcome.{ok}
use dynamic_modules_examples.BodyReader.{BodyReader}
use dynamic_modules_examples.EnvoyFilter.{io_read_all}
use dynamic_modules_examples.Host.{Host}
use dynamic_modules_examples.Filters.Passthrough.{
  BodyMethods, hello_world, read_body, replace_body, check_body, swap_body, print_line,
}

-- A body that is not empty is read whole, bytes are drained from its front and appended behind it,
-- and printing does not touch it.
pub record IsBodyMethods (H : Host) (c : BodyMethods H.State) : Type 0 where
  pub body : H.State → Bytes
  pub read :
      (s : H.State)
      → body s ≢ []
      → (r : BodyReader) × (c.get s ≡ ok (some r)) × (io_read_all H r s ≡ ok (body s))
  pub drained : (s : H.State) (n : ℕ) → body (c.drain n s).1 ≡ drop n (body s)
  pub appended : (s : H.State) (bytes : Bytes) → body (c.append bytes s).1 ≡ body s ++ bytes
  pub printed : (s : H.State) (text : Bytes) → body (H.print s text) ≡ body s

module _ (H : Host) {c : BodyMethods H.State} (is : IsBodyMethods H c) where
  open is use {body, read, drained, appended, printed}

  read_body-body :
      (missing bytes : Bytes) (s : H.State)
      → body s ≡ bytes
      → bytes ≢ []
      → read_body H c missing s ≡ ok bytes
  unfolding read_body
  read_body-body missing bytes s holds ne =
      let (r, got, all) = read s (λ gone. ne (sym holds ∙ gone)) in rw (got, all, holds)

  check_body_same : (wrong bytes : Bytes) → check_body H wrong bytes bytes ≡ ok tt
  unfolding check_body
  check_body_same wrong bytes = rw (bytes_eq_refl bytes)

  -- Draining the whole body and appending other bytes leaves those.
  body-replace_body :
      (old new : Bytes) (s : H.State) → body s ≡ old → body (replace_body H c old new s) ≡ new
  body-replace_body old new s holds =
      appended _ new
      ∙ ap (λ (l : Bytes). l ++ new)
          (drained s (length old) ∙ ap (drop (length old)) holds ∙ drop-length old)

  pub swap_body-restores :
      (missing wrong label : Bytes) (s : H.State)
      → body s ≢ []
      → (s' : H.State) × (swap_body H c missing wrong label s ≡ ok s') × (body s' ≡ body s)
  unfolding swap_body
  swap_body-restores missing wrong label s ne =
      let original = body s in
      let s1 = print_line H (label ++ original) s in
      let s2 = replace_body H c original hello_world s1 in
      let s3 = replace_body H c hello_world original s2 in
      let held2 = body-replace_body original hello_world s1 (printed s _) in
      let held3 = body-replace_body hello_world original s2 held2 in
      let read1 = read_body-body missing original s refl ne in
      let read2 = read_body-body missing hello_world s2 held2 (λ h. cc) in
      let read3 = read_body-body missing original s3 held3 ne in
      (
        s3,
        rw (read1, read2, check_body_same wrong hello_world, read3, check_body_same wrong original),
        held3,
      )
