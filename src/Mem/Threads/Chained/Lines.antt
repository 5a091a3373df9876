-- ===== src/Mem/Threads/Chained/Lines.antt =====
-- What each line of go/gosdk/mem.go does to the `next` pointers of its shard.
use dynamic_modules_examples.Base.{
  ℕ, zero, suc, Bool, true, false, ◌≡◌, refl, ap, ◌==◌, arith, if◌then◌else◌,
}
use dynamic_modules_examples.Base.Outcome.{Outcome, ok, of_bind}
use dynamic_modules_examples.Mem.{Ptr, null, Heap, load, set_next, set_prev}
use dynamic_modules_examples.Mem.Chain.{Cells, ◌∈◌, ◌∉◌}
use dynamic_modules_examples.Mem.Threads.{
  Line, pin_next, pin_test, pin_back, pin_front, unpin_test, unpin_link, unpin_front,
  unpin_test_next, unpin_back, unlock, line, run_lines,
}
use dynamic_modules_examples.Mem.Threads.Chained.{
  Nexts, KeepsAt, Nexts-KeepsAt, KeepsAt-same, set_prev-KeepsAt, set_next-elsewhere,
}

-- The lines behind the change of a `next` pointer or of the front in an unpin, and the unlock.
abbrev pub is_linked : Line → Bool
is_linked unpin_test_next = true
is_linked unpin_back = true
is_linked unlock = true
is_linked _ = false

linked_if : (b : Bool) → is_linked (if b then unlock else unpin_back) ≡ true
linked_if true = refl
linked_if false = refl

module _ {F : Type 0} where
  linked_eq :
      {l l' : Line} {h h' : Heap F} {from from' : Ptr}
      → is_linked l ≡ true
      → ◌≡◌ {A = Outcome (Line × Heap F × Ptr)} (ok (l, h, from)) (ok (l', h', from'))
      → (is_linked l' ≡ true) × (from' ≡ from) × (h ≡ h')
  linked_eq is e = (ground arith, cc, cc)

  -- They change no `next` pointer and not the front.
  linked-line :
      (p : Ptr) (l l' : Line) (h h' : Heap F) (from from' : Ptr)
      → is_linked l ≡ true
      → line p l h from ≡ ok (l', h', from')
      → (is_linked l' ≡ true) × (from' ≡ from) × ((a : Ptr) → KeepsAt h' h a)
  unfolding line
  linked-line p unpin_test_next l' h h' from from' is e =
      let (n, e1, there) = of_bind (load h p) e in
      let (is', at, same) = linked_eq (linked_if (n.next == null)) e1 in
      (is', at, λ a. KeepsAt-same h' h a (ap (λ (g : Heap F). g a) same))
  linked-line p unpin_back l' h h' from from' is e =
      let (n, e1, there) = of_bind (load h p) e in
      let (h1, e2, ran) = of_bind (set_prev h n.next n.prev) e1 in
      let (is', at, same) = linked_eq {l = unlock} refl e2 in
      (is', at, λ a. rw (← same) (set_prev-KeepsAt h h1 n.next n.prev a ran).1)
  linked-line p unlock l' h h' from from' is e =
      let (is', at, same) = linked_eq {l = unlock} refl e in
      (is', at, λ a. KeepsAt-same h' h a (ap (λ (g : Heap F). g a) same))
  linked-line p pin_next l' h h' from from' is e = cc
  linked-line p pin_test l' h h' from from' is e = cc
  linked-line p pin_back l' h h' from from' is e = cc
  linked-line p pin_front l' h h' from from' is e = cc
  linked-line p unpin_test l' h h' from from' is e = cc
  linked-line p unpin_link l' h h' from from' is e = cc
  linked-line p unpin_front l' h h' from from' is e = cc

  -- What the list is at the end, its `next` pointers are already.
  pub linked-Nexts :
      (n : ℕ) (p : Ptr) (l : Line) (h h' : Heap F) (from from' : Ptr) (xs : Cells F)
      → is_linked l ≡ true
      → run_lines n p l h from ≡ ok (unlock, h', from')
      → Nexts h' from' xs
      → Nexts h from xs
  unfolding run_lines
  linked-Nexts zero p l h h' from from' xs is ran end =
      let (is', at, same) = linked_eq is ran in rw (same, ← at) end
  linked-Nexts (suc n) p l h h' from from' xs is ran end =
      let ((l1, h1, from1), rest, first) = of_bind (line p l h from) ran in
      let (is', at, keeps) = linked-line p l l1 h h1 from from1 is first in
      let later = linked-Nexts n p l1 h1 h' from1 from' xs is' rest end in
      rw (← at) (Nexts-KeepsAt h1 h from1 xs later (λ a i. keeps a))

  -- Until then the old list stands, and a node that is to be pinned is not in it.
  abbrev pub IsChained : Heap F → Ptr → Cells F → Ptr → Line → Type 0
  IsChained h from xs p pin_next = Nexts h from xs × (p ∉ xs)
  IsChained h from xs p pin_test = Nexts h from xs × (p ∉ xs)
  IsChained h from xs p pin_back = Nexts h from xs × (p ∉ xs)
  IsChained h from xs p pin_front = Nexts h from xs × (p ∉ xs)
  IsChained h from xs p unpin_test = Nexts h from xs
  IsChained h from xs p unpin_link = Nexts h from xs
  IsChained h from xs p unpin_front = Nexts h from xs
  IsChained h from xs p unpin_test_next = Unit
  IsChained h from xs p unpin_back = Unit
  IsChained h from xs p unlock = Unit

  IsChained-after :
      (xs : Cells F) (p : Ptr) {l l' : Line} {h h' : Heap F} {from from' : Ptr}
      → ◌≡◌ {A = Outcome (Line × Heap F × Ptr)} (ok (l, h, from)) (ok (l', h', from'))
      → IsChained h from xs p l
      → IsChained h' from' xs p l'
  IsChained-after xs p {l} {l'} {h} {h'} {from} {from'} e is =
      let el : l ≡ l' = cc in
      let eh : h ≡ h' = cc in let ef : from ≡ from' = cc in rw (← el, ← eh, ← ef) is

  IsChained-if :
      (h : Heap F) (from : Ptr) (xs : Cells F) (p : Ptr) (b : Bool) (l m : Line)
      → IsChained h from xs p l
      → IsChained h from xs p m
      → IsChained h from xs p (if b then l else m)
  IsChained-if h from xs p true l m is is' = is
  IsChained-if h from xs p false l m is is' = is'

  -- A line keeps that.
  pub line-IsChained :
      (p : Ptr) (l l' : Line) (h h' : Heap F) (from from' : Ptr) (xs : Cells F)
      → IsChained h from xs p l
      → line p l h from ≡ ok (l', h', from')
      → IsChained h' from' xs p l'
  unfolding line
  line-IsChained p pin_next l' h h' from from' xs (list, new) e =
      let (h1, e1, ran) = of_bind (set_next h p from) e in
      let kept =
        Nexts-KeepsAt h h1 from xs list
          (λ a i. KeepsAt-same h h1 a (set_next-elsewhere h h1 p from a ran (ground arith))) in
      IsChained-after xs p e1 (kept, new)
  line-IsChained p pin_test l' h h' from from' xs is e =
      IsChained-after xs p e (IsChained-if h from xs p (from == null) pin_front pin_back is is)
  line-IsChained p pin_back l' h h' from from' xs (list, new) e =
      let (h1, e1, ran) = of_bind (set_prev h from p) e in
      let kept = Nexts-KeepsAt h h1 from xs list (λ a i. (set_prev-KeepsAt h h1 from p a ran).0) in
      IsChained-after xs p e1 (kept, new)
  line-IsChained p pin_front l' h h' from from' xs is e = IsChained-after xs p e tt
  line-IsChained p unpin_test l' h h' from from' xs is e =
      let (n, e1, there) = of_bind (load h p) e in
      IsChained-after xs p e1
        (IsChained-if h from xs p (n.prev == null) unpin_front unpin_link is is)
  line-IsChained p unpin_link l' h h' from from' xs is e =
      let (n, e1, there) = of_bind (load h p) e in
      let (h1, e2, ran) = of_bind (set_next h n.prev n.next) e1 in IsChained-after xs p e2 tt
  line-IsChained p unpin_front l' h h' from from' xs is e =
      let (n, e1, there) = of_bind (load h p) e in IsChained-after xs p e1 tt
  line-IsChained p unpin_test_next l' h h' from from' xs is e =
      let (n, e1, there) = of_bind (load h p) e in
      IsChained-after xs p e1 (IsChained-if h from xs p (n.next == null) unlock unpin_back tt tt)
  line-IsChained p unpin_back l' h h' from from' xs is e =
      let (n, e1, there) = of_bind (load h p) e in
      let (h1, e2, ran) = of_bind (set_prev h n.next n.prev) e1 in IsChained-after xs p e2 tt
  line-IsChained p unlock l' h h' from from' xs is e = IsChained-after xs p e tt

  -- So does a change elsewhere.
  pub IsChained-frame :
      (h g : Heap F) (from : Ptr) (xs : Cells F) (p : Ptr) (l : Line)
      → IsChained h from xs p l
      → ((a : Ptr) → a ∈ xs → g a ≡ h a)
      → IsChained g from xs p l
  IsChained-frame h g from xs p l is same = frame_line l is
    where
      kept : Nexts h from xs → Nexts g from xs
      kept list = Nexts-KeepsAt h g from xs list (λ a i. KeepsAt-same h g a (same a i))

      frame_line : (l : Line) → IsChained h from xs p l → IsChained g from xs p l
      frame_line pin_next (list, new) = (kept list, new)
      frame_line pin_test (list, new) = (kept list, new)
      frame_line pin_back (list, new) = (kept list, new)
      frame_line pin_front (list, new) = (kept list, new)
      frame_line unpin_test list = kept list
      frame_line unpin_link list = kept list
      frame_line unpin_front list = kept list
      frame_line unpin_test_next list = tt
      frame_line unpin_back list = tt
      frame_line unlock list = tt

  -- Before a `next` pointer of the list or the front changes, the old list stands.
  pub IsChained-Nexts :
      (h : Heap F) (from : Ptr) (xs : Cells F) (p : Ptr) (l : Line)
      → IsChained h from xs p l
      → is_linked l ≡ false
      → Nexts h from xs
  IsChained-Nexts h from xs p pin_next is before = is.0
  IsChained-Nexts h from xs p pin_test is before = is.0
  IsChained-Nexts h from xs p pin_back is before = is.0
  IsChained-Nexts h from xs p pin_front is before = is.0
  IsChained-Nexts h from xs p unpin_test is before = is
  IsChained-Nexts h from xs p unpin_link is before = is
  IsChained-Nexts h from xs p unpin_front is before = is
  IsChained-Nexts h from xs p unpin_test_next is before = cc
  IsChained-Nexts h from xs p unpin_back is before = cc
  IsChained-Nexts h from xs p unlock is before = cc
