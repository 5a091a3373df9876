-- ===== src/Mem/Threads/Alone.antt =====
-- A critical section that no other thread disturbs, from a list to a list.
use mathlib.Core.Path.{fun_ext, subst}
use dynamic_modules_examples.Base.{none, some, ◌∷◌, ◌≡◌, ◌≢◌, refl, sym, ap, ◌∙◌, arith}
use dynamic_modules_examples.Base.Outcome.{Outcome, ok, ◌>>=◌, of_bind}
use dynamic_modules_examples.Mem.{Ptr, null, Heap, write, MemoryManager, update}
use dynamic_modules_examples.Mem.Chain.{Cells, ◌∈◌, ◌∉◌, head_of, erase, IsList}
use dynamic_modules_examples.Mem.Chain.Splice.{splice, before_of, after_of, splice-IsList}
use dynamic_modules_examples.Mem.Pin.{pushed, push-IsList, pin_http_filter-ok}
use dynamic_modules_examples.Mem.Unpin.{unpin_http_filter-ok}
use dynamic_modules_examples.Mem.Sharding.{sharding_key}
use dynamic_modules_examples.Mem.Threads.{
  Line, pin_next, unpin_test, unlock, run_lines, returned, Op, pin, unpin, first_line,
}
use dynamic_modules_examples.Mem.Threads.Lines.{
  pin_http_filter-run_lines, unpin_http_filter-run_lines,
}

-- The list that a call makes of the list of its shard.
abbrev pub applied : {F : Type 0} → Op F → Ptr → Cells F → Cells F
applied (pin f) p xs = (p, f) ∷ xs
applied unpin p xs = erase p xs

returned-eq-ok :
    {A : Type 0} (l : Line) {a b : A} → returned l (ok a) ≡ ok b → (l ≡ unlock) × (a ≡ b)
returned-eq-ok l e = ground arith

module _ {F : Type 0} where
  -- A call that is known as a method is known as its lines.
  lines_of_call :
      {B : Type 0} (K : Heap F → Ptr → B) (filters_of : B → Heap F) (front_of : B → Ptr)
      → ((h : Heap F) (front : Ptr) → filters_of (K h front) ≡ h)
      → ((h : Heap F) (front : Ptr) → front_of (K h front) ≡ front)
      → (o : Outcome (Line × Heap F × Ptr)) {h : Heap F} {front : Ptr}
      → (do (l, h', front') ← o; returned l (ok (K h' front'))) ≡ ok (K h front)
      → o ≡ ok (unlock, h, front)
  lines_of_call K filters_of front_of fh ff o {h} {front} e =
      let ((l, h', front'), done, ran) = of_bind o e in
      let (last, same) = returned-eq-ok l done in
      let eh : h' ≡ h = sym (fh h' front') ∙ ap filters_of same ∙ fh h front in
      let ef : front' ≡ front = sym (ff h' front') ∙ ap front_of same ∙ ff h front in
      let end : ◌≡◌ {A = Outcome (Line × Heap F × Ptr)} (ok (l, h', front'))
          (ok (unlock, h, front)) =
        rw (last, eh, ef) in
      ran ∙ end

  -- A manager that is this heap and this front in every shard.
  abbrev over : Heap F → Ptr → MemoryManager (Unit {0}) F
  over h front = record {
    http_filter_configs = null;
    http_filter_lists = λ _. front;
    configs = λ _. none;
    filters = h;
  }

  abbrev leaving : Ptr → Heap F → Ptr → Heap F → Ptr → MemoryManager (Unit {0}) F
  leaving p h front h' front' = record (over h front) {
    filters = h';
    http_filter_lists = update (λ _. front) (sharding_key p) front';
  }

  pin-run_lines :
      {h : Heap F} {front p : Ptr} {xs : Cells F} (f : F)
      → p ≢ null
      → h p ≡ some (record { obj = f; next = null; prev = null })
      → IsList h front xs
      → run_lines 4 p pin_next h front ≡ ok (unlock, pushed h front p f, p)
  unfolding write
  pin-run_lines {h} {front} {p} f ne there is =
      let written : write h p (record { obj = f; next = null; prev = null }) ≡ h =
        fun_ext (λ a. ground arith) in
      let call =
        sym (pin_http_filter-run_lines (over h front) p f)
        ∙ pin_http_filter-ok (over h front) ne f is in
      let lines =
        lines_of_call (λ h' front'. (p, leaving p h front h' front')) (λ r. r.1.filters)
          (λ r. r.1.http_filter_lists (sharding_key p)) (λ h' front'. refl)
          (λ h' front'. ground arith)
          (run_lines 4 p pin_next (write h p (record { obj = f; next = null; prev = null })) front)
          call in
      subst (λ g. run_lines 4 p pin_next g front ≡ ok (unlock, pushed h front p f, p)) written lines

  unpin-run_lines :
      (p : Ptr) {h : Heap F} {front : Ptr} {xs : Cells F}
      → IsList h front xs
      → p ∈ xs
      → run_lines 4 p unpin_test h front
        ≡ ok (unlock, splice h (before_of null p xs) (after_of p xs), head_of (erase p xs))
  unpin-run_lines p {h} {front} is i =
      let call =
        sym (unpin_http_filter-run_lines (over h front) p)
        ∙ unpin_http_filter-ok (over h front) p is i in
      lines_of_call (leaving p h front) (λ m. m.filters) (λ m. m.http_filter_lists (sharding_key p))
        (λ h' front'. refl) (λ h' front'. ground arith) (run_lines 4 p unpin_test h front) call

  -- The call of a thread whose facts hold, in the state of its lock.
  abbrev pub IsReady : Heap F → Op F → Ptr → Cells F → Type 0
  IsReady h (pin f) p xs =
      (p ≢ null) × (h p ≡ some (record { obj = f; next = null; prev = null })) × (p ∉ xs)
  IsReady h unpin p xs = p ∈ xs

  -- From a list, four lines lead to the unlock, and to the list after the call.
  pub alone-IsList :
      (op : Op F) (p : Ptr) {h : Heap F} {front : Ptr} {xs : Cells F}
      → IsList h front xs
      → IsReady h op p xs
      → (h' : Heap F) × (front' : Ptr) × (run_lines 4 p (first_line op) h front
          ≡ ok (unlock, h', front'))
        × IsList h' front' (applied op p xs)
  alone-IsList (pin f) p {h} {front} is (ne, there, new) =
      (pushed h front p f, p, pin-run_lines f ne there is, push-IsList f ne is new)
  alone-IsList unpin p {h} {xs} is i = (
    splice h (before_of null p xs) (after_of p xs),
    head_of (erase p xs),
    unpin-run_lines p is i,
    splice-IsList p is i,
  )
