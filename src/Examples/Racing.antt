-- ===== src/Examples/Racing.antt =====
-- Two threads of Envoy at the lists of the filters.
use dynamic_modules_examples.Base.{
  ℕ, false, none, some, [], ◌∷◌, ◌≡◌, ◌≢◌, ◌<◌, ◌≤◌, refl, arith, if◌then◌else◌, ◌==◌,
}
use dynamic_modules_examples.Base.Outcome.{ok}
use dynamic_modules_examples.Mem.{
  Ptr, null, Heap, LinkedList, write, load, set_next, set_prev, unwrap_pinned_http_filter,
}
use dynamic_modules_examples.Mem.Sharding.{sharding_key, splitmix64}
use dynamic_modules_examples.Mem.Manager.{empty, Represents}
use dynamic_modules_examples.Mem.Threads.{
  Line, pin_next, pin_test, pin_front, unlock, line, lines_left, pin, unpin, inside, idle, waiting,
  target, Log, replay, System, call_pin, lock, go_on, release, Reach, start, later, Steps,
}
use dynamic_modules_examples.Mem.Threads.Safety.{Reach-alone, Reach-Represents}
use dynamic_modules_examples.Mem.Threads.Progress.{Reach-line, Reach-return}
use dynamic_modules_examples.Mem.Threads.Chained.{Reached}
use dynamic_modules_examples.Mem.Threads.Chained.Traced.{Traced}
use dynamic_modules_examples.Mem.Threads.Kept.{Reach-Reached, Reach-Traced}

abbrev Racing : Type 0
Racing = (s : System (Unit {0}) ℕ) × (log : Log ℕ) × Reach (Unit {0}) ℕ s log

-- Two addresses of one shard.
abbrev first : Ptr
first = 4096

abbrev second : Ptr
second = 4576

untargeted_second :
    (j : ℕ) → target {F = ℕ} (if 0 == j then waiting (pin 7) first else idle) ≢ some second
untargeted_second j e = ground arith

ne_first : first ≢ null
ne_first = omega arith

ne_second : second ≢ null
ne_second = omega arith

ne_none : none ≢ some first
ne_none e = cc

-- Both threads are called.
abbrev both_called : Racing
unfolding replay
both_called = (
  _,
  _,
  later (later start (call_pin 0 first 7 refl ne_first refl (λ j. ne_none)))
      (call_pin 1 second 8 refl ne_second refl untargeted_second),
)

pin_next-ne : pin_next ≢ unlock
pin_next-ne e = cc

pin_test-ne : pin_test ≢ unlock
pin_test-ne e = cc

pin_front-ne : pin_front ≢ unlock
pin_front-ne e = cc

-- One has the mutex and has run a line, the other waits.
abbrev one_inside : Racing
unfolding replay line write load set_next set_prev sharding_key splitmix64
one_inside = (
  _,
  _,
  later (later both_called.2 (lock 0 (pin 7) first refl refl))
      (go_on 0 (pin 7) first pin_next pin_test _ _ refl pin_next-ne refl),
)

-- It has returned.
abbrev one_returned : Racing
unfolding replay line write load set_next set_prev sharding_key splitmix64
one_returned = (
  _,
  _,
  later
      (later
        (later one_inside.2 (go_on 0 (pin 7) first pin_test pin_front _ _ refl pin_test-ne refl))
        (go_on 0 (pin 7) first pin_front unlock _ _ refl pin_front-ne refl))
      (release 0 (pin 7) first refl),
)

-- The other has linked its node to the first one.
abbrev other_inside : Racing
unfolding replay line write load set_next set_prev sharding_key splitmix64
other_inside = (
  _,
  _,
  later (later one_returned.2 (lock 1 (pin 8) second refl refl))
      (go_on 1 (pin 8) second pin_next pin_test _ _ refl pin_next-ne refl),
)

Reach-alone_example : ◌≡◌ {A = ℕ} 0 0
unfolding one_inside
Reach-alone_example =
    Reach-alone one_inside.2 0 0 (pin 7) (pin 7) first first pin_test pin_test refl refl refl

all_open : (k : ℕ) → (one_returned.0).locked k ≡ false
unfolding one_returned
all_open k = ground arith

Reach-Represents_example : Represents (one_returned.0).manager empty (replay ((pin 7, first) ∷ []))
unfolding one_returned
Reach-Represents_example = Reach-Represents one_returned.2 all_open

Reach-line_example :
    (l' : Line) × (h : Heap ℕ) × (front : Ptr) × (line first pin_test
        (one_inside.0).manager.filters
        ((one_inside.0).manager.http_filter_lists (sharding_key first))
      ≡ ok (l', h, front))
    × (lines_left l' < 3)
    × (3 ≤ 4)
unfolding one_inside
Reach-line_example = Reach-line one_inside.2 0 (pin 7) first pin_test refl pin_test-ne

Reach-return_example :
    (t : System (Unit {0}) ℕ) × (log' : Log ℕ) × Steps
      (Unit {0})
      ℕ
      (one_inside.0)
      []
      t
      ((pin 8, second) ∷ log')
    × (t.pc 1 ≡ idle)
unfolding one_inside both_called
Reach-return_example = Reach-return one_inside.2 1 (pin 8) second refl

first_kept : (i : ℕ) (l : Line) → (other_inside.0).pc i ≢ inside unpin first l
unfolding other_inside one_returned one_inside both_called
first_kept i l e = ground arith

Reach-Reached_example :
    Reached
      (other_inside.0).manager.filters
      ((other_inside.0).manager.http_filter_lists (sharding_key first))
      first
    × (n : LinkedList ℕ) × (unwrap_pinned_http_filter (other_inside.0).manager first ≡ ok n)
    × (n.obj ≡ 7)
unfolding replay other_inside one_returned one_inside both_called
Reach-Reached_example = Reach-Reached other_inside.2 first 7 refl first_kept

Reach-Traced_example :
    (sharding_key first ≡ sharding_key first)
    × (f : ℕ) × (replay ((pin 7, first) ∷ []) first ≡ some f)
unfolding one_returned sharding_key splitmix64
Reach-Traced_example =
    Reach-Traced one_returned.2 (sharding_key first) first (all_open (sharding_key first))
      (Traced.here ne_first)
