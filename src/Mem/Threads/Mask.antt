-- ===== src/Mem/Threads/Mask.antt =====
-- The part of the heap that belongs to one shard: what a line does to it, and to the rest.
use mathlib.Core.Path.{fun_ext}
use dynamic_modules_examples.Base.{
  Bool, true, false, none, ◌≡◌, refl, if◌then◌else◌, arith, inl, inr,
}
use dynamic_modules_examples.Base.Outcome.{Outcome, ok, panic, Outcome-cases, of_bind}
use dynamic_modules_examples.Mem.{Ptr, LinkedList, Heap, write, load, set_next, set_prev}
use dynamic_modules_examples.Mem.Threads.{
  Line, pin_next, pin_test, pin_back, pin_front, unpin_test, unpin_link, unpin_front,
  unpin_test_next, unpin_back, unlock, line,
}

module _ {F : Type 0} (owns : Ptr → Bool) where
  abbrev pub mask : Heap F → Heap F
  mask h a = if owns a then h a else none

  -- The heap `h` becomes `h'`: on the part as `g` says, and not at all elsewhere.
  pub record IsInside (h g h' : Heap F) : Type 0 where
    pub part : mask h' ≡ g
    pub rest : (a : Ptr) → owns a ≡ false → h' a ≡ h a

  load-mask :
      (h : Heap F) (q : Ptr) (n : LinkedList F)
      → load (mask h) q ≡ ok n
      → (load h q ≡ ok n) × (owns q ≡ true)
  unfolding load
  load-mask h q n there = (ground arith, ground arith)

  write-IsInside :
      (h : Heap F) (q : Ptr) (n : LinkedList F)
      → owns q ≡ true
      → IsInside h (write (mask h) q n) (write h q n)
  unfolding write
  write-IsInside h q n own = record {
    part = fun_ext (λ a. ground arith);
    rest = λ a out. ground arith;
  }

  set_next-mask :
      (h g : Heap F) (q r : Ptr)
      → set_next (mask h) q r ≡ ok g
      → (h' : Heap F) × (set_next h q r ≡ ok h') × IsInside h g h'
  unfolding set_next
  set_next-mask h g q r done = elim (Outcome-cases (load (mask h) q)) [
    | inl (fault, e) ↦ (let no : panic fault ≡ ok g = rw e at done in cc)
    | inr (n, e) ↦
        let (e', own) = load-mask h q n e in
        let same : ok (write (mask h) q (record n { next = r })) ≡ ok g = rw e at done in
        let as_g : write (mask h) q (record n { next = r }) ≡ g = cc in
        (
          write h q (record n { next = r }),
          rw e',
          rw (← as_g) (write-IsInside h q (record n { next = r }) own),
        )
  ]

  set_prev-mask :
      (h g : Heap F) (q r : Ptr)
      → set_prev (mask h) q r ≡ ok g
      → (h' : Heap F) × (set_prev h q r ≡ ok h') × IsInside h g h'
  unfolding set_prev
  set_prev-mask h g q r done = elim (Outcome-cases (load (mask h) q)) [
    | inl (fault, e) ↦ (let no : panic fault ≡ ok g = rw e at done in cc)
    | inr (n, e) ↦
        let (e', own) = load-mask h q n e in
        let same : ok (write (mask h) q (record n { prev = r })) ≡ ok g = rw e at done in
        let as_g : write (mask h) q (record n { prev = r }) ≡ g = cc in
        (
          write h q (record n { prev = r }),
          rw e',
          rw (← as_g) (write-IsInside h q (record n { prev = r }) own),
        )
  ]

  -- What a line over the part returns, the line over the heap returns too.
  abbrev pub Follows : Heap F → Heap F → Outcome (Line × Heap F × Ptr) → Line → Ptr → Type 0
  Follows h g o l front = (h' : Heap F) × (o ≡ ok (l, h', front)) × IsInside h g h'

  follow :
      {h g g' h' : Heap F} {l l' : Line} {front front' : Ptr}
      → IsInside h g' h'
      → ◌≡◌ {A = Outcome (Line × Heap F × Ptr)} (ok (l, g', front)) (ok (l', g, front'))
      → Follows h g (ok (l, h', front)) l' front'
  follow {h} {g} {g'} {h'} inside e = let same : g' ≡ g = cc in (h', cc, rw (← same) inside)

  unchanged : (h : Heap F) → IsInside h (mask h) h
  unchanged h = record { part = refl; rest = λ a out. refl }

  pub line-mask :
      (p : Ptr) (l l' : Line) (h g : Heap F) (front front' : Ptr)
      → line p l (mask h) front ≡ ok (l', g, front')
      → Follows h g (line p l h front) l' front'
  unfolding line
  line-mask p pin_next l' h g front front' e =
      let (g1, e1, done) = of_bind (set_next (mask h) p front) e in
      let (h1, done', inside) = set_next-mask h g1 p front done in rw done' (follow inside e1)
  line-mask p pin_test l' h g front front' e = follow (unchanged h) e
  line-mask p pin_back l' h g front front' e =
      let (g1, e1, done) = of_bind (set_prev (mask h) front p) e in
      let (h1, done', inside) = set_prev-mask h g1 front p done in rw done' (follow inside e1)
  line-mask p pin_front l' h g front front' e = follow (unchanged h) e
  line-mask p unpin_test l' h g front front' e =
      let (n, e1, there) = of_bind (load (mask h) p) e in
      rw (load-mask h p n there).0 (follow (unchanged h) e1)
  line-mask p unpin_link l' h g front front' e =
      let (n, e1, there) = of_bind (load (mask h) p) e in
      let (g1, e2, done) = of_bind (set_next (mask h) n.prev n.next) e1 in
      let (h1, done', inside) = set_next-mask h g1 n.prev n.next done in
      rw ((load-mask h p n there).0, done') (follow inside e2)
  line-mask p unpin_front l' h g front front' e =
      let (n, e1, there) = of_bind (load (mask h) p) e in
      rw (load-mask h p n there).0 (follow (unchanged h) e1)
  line-mask p unpin_test_next l' h g front front' e =
      let (n, e1, there) = of_bind (load (mask h) p) e in
      rw (load-mask h p n there).0 (follow (unchanged h) e1)
  line-mask p unpin_back l' h g front front' e =
      let (n, e1, there) = of_bind (load (mask h) p) e in
      let (g1, e2, done) = of_bind (set_prev (mask h) n.next n.prev) e1 in
      let (h1, done', inside) = set_prev-mask h g1 n.next n.prev done in
      rw ((load-mask h p n there).0, done') (follow inside e2)
  line-mask p unlock l' h g front front' e = follow (unchanged h) e
