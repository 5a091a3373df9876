-- ===== src/Mem/Threads.antt =====
-- `pinHttpFilter` and `unpinHttpFilter` of go/gosdk/mem.go on several threads of Envoy: the mutex of
-- each shard, and one line of the source between two switches of the thread.
pub mod Alone
pub mod Chained
pub mod Invariant
pub mod Kept
pub mod Lines
pub mod Mask
pub mod Progress
pub mod Safety
use dynamic_modules_examples.Base.{
  ℕ, zero, suc, Bool, true, false, Option, none, some, List, [], ◌∷◌, ◌≡◌, ◌≢◌, if◌then◌else◌, ◌==◌,
}
use dynamic_modules_examples.Base.Outcome.{Outcome, ok, panic, out_of_fuel, ◌>>=◌}
use dynamic_modules_examples.Mem.{
  Ptr, null, LinkedList, Heap, write, load, set_next, set_prev, MemoryManager, mem_manager, update,
}
use dynamic_modules_examples.Mem.Sharding.{sharding_key}
use dynamic_modules_examples.Mem.Manager.{Pool, empty, insert, delete}

-- The line of the critical section that comes next. At `unlock` only the deferred call is left.
pub data Line : Type 0 where
  pin_next : Line  -- item.next = m.httpFilterLists[index]
  pin_test : Line  -- if m.httpFilterLists[index] != nil
  pin_back : Line  -- m.httpFilterLists[index].prev = item
  pin_front : Line  -- m.httpFilterLists[index] = item
  unpin_test : Line  -- if filter.prev != nil
  unpin_link : Line  -- filter.prev.next = filter.next
  unpin_front : Line  -- m.httpFilterLists[index] = filter.next
  unpin_test_next : Line  -- if filter.next != nil
  unpin_back : Line  -- filter.next.prev = filter.prev
  unlock : Line

module _ {F : Type 0} where
  -- One line, for the node at `p`, over the heap and the front of the shard.
  unfoldable pub line : Ptr → Line → Heap F → Ptr → Outcome (Line × Heap F × Ptr)
  line p pin_next h front = do h' ← set_next h p front; ok (pin_test, h', front)
  line p pin_test h front = ok (if front == null then pin_front else pin_back, h, front)
  line p pin_back h front = do h' ← set_prev h front p; ok (pin_front, h', front)
  line p pin_front h front = ok (unlock, h, p)
  line p unpin_test h front = do
    n ← load h p
    ok (if n.prev == null then unpin_front else unpin_link, h, front)
  line p unpin_link h front = do
    n ← load h p
    h' ← set_next h n.prev n.next
    ok (unpin_test_next, h', front)
  line p unpin_front h front = do n ← load h p; ok (unpin_test_next, h, n.next)
  line p unpin_test_next h front = do
    n ← load h p
    ok (if n.next == null then unlock else unpin_back, h, front)
  line p unpin_back h front = do n ← load h p; h' ← set_prev h n.next n.prev; ok (unlock, h', front)
  line p unlock h front = ok (unlock, h, front)

  -- As many lines, with no other thread between them.
  unfoldable pub run_lines : ℕ → Ptr → Line → Heap F → Ptr → Outcome (Line × Heap F × Ptr)
  run_lines zero p l h front = ok (l, h, front)
  run_lines (suc n) p l h front = do (l', h', front') ← line p l h front; run_lines n p l' h' front'

-- The call returns at its last line; the lines that are given must lead there.
abbrev pub returned : {A : Type 0} → Line → Outcome A → Outcome A
returned unlock result = result
returned _ result = panic out_of_fuel

-- The lines that are left, at most.
abbrev pub lines_left : Line → ℕ
lines_left pin_next = 4
lines_left pin_test = 3
lines_left pin_back = 2
lines_left pin_front = 1
lines_left unpin_test = 4
lines_left unpin_link = 3
lines_left unpin_front = 3
lines_left unpin_test_next = 2
lines_left unpin_back = 1
lines_left unlock = 0

-- What a thread was called for.
pub data Op (F : Type 0) : Type 0 where
  pin : F → Op F
  unpin : Op F

abbrev pub first_line : {F : Type 0} → Op F → Line
first_line (pin _) = pin_next
first_line unpin = unpin_test

-- Where a thread stands: in no call, before `mux.Lock()`, or behind it.
pub data Pc (F : Type 0) : Type 0 where
  idle : Pc F
  waiting : Op F → Ptr → Pc F
  inside : Op F → Ptr → Line → Pc F

abbrev pub target : {F : Type 0} → Pc F → Option Ptr
target idle = none
target (waiting op p) = some p
target (inside op p l) = some p

-- The calls that have returned, the last one first.
abbrev pub Log : Type 0 → Type 0
Log F = List (Op F × Ptr)

-- What is pinned after these calls, one after the other.
unfoldable pub replay : {F : Type 0} → Log F → Pool F
replay [] = empty
replay ((pin f, p) ∷ log) = insert (replay log) p f
replay ((unpin, p) ∷ log) = delete (replay log) p

module _ (C F : Type 0) where
  pub record System : Type 0 where
    pub manager : MemoryManager C F
    pub locked : ℕ → Bool
    pub pc : ℕ → Pc F

  -- A thread stands at another place.
  abbrev pub move : (ℕ → Pc F) → ℕ → Pc F → ℕ → Pc F
  move pc i to j = if i == j then to else pc j

  abbrev pub set_lock : (ℕ → Bool) → ℕ → Bool → ℕ → Bool
  set_lock locked key b k = if key == k then b else locked k

  -- No thread works at an address.
  abbrev pub Untargeted : System → Ptr → Type 0
  Untargeted s p = (j : ℕ) → target (s.pc j) ≢ some p

  -- One step of thread `i`. The allocator returns no address that is in use, and Envoy destroys a
  -- filter once, after it was created.
  pub data Step (s : System) (log : Log F) : System → Log F → Type 0 where
    call_pin :
        (i : ℕ) (fresh : Ptr) (f : F)
        → s.pc i ≡ idle
        → fresh ≢ null
        → replay log fresh ≡ none
        → Untargeted s fresh
        → Step s log
            (record s {
              manager = record s.manager {
                filters =
                    write s.manager.filters fresh (record { obj = f; next = null; prev = null });
              };
              pc = move s.pc i (waiting (pin f) fresh);
            })
            log
    call_unpin :
        (i : ℕ) (p : Ptr) (f : F)
        → s.pc i ≡ idle
        → replay log p ≡ some f
        → Untargeted s p
        → Step s log (record s { pc = move s.pc i (waiting unpin p) }) log
    lock :
        (i : ℕ) (op : Op F) (p : Ptr)
        → s.pc i ≡ waiting op p
        → s.locked (sharding_key p) ≡ false
        → Step s log
            (record s {
              locked = set_lock s.locked (sharding_key p) true;
              pc = move s.pc i (inside op p (first_line op));
            })
            log
    go_on :
        (i : ℕ) (op : Op F) (p : Ptr) (l l' : Line) (h : Heap F) (front : Ptr)
        → s.pc i ≡ inside op p l
        → l ≢ unlock
        → line p l s.manager.filters (s.manager.http_filter_lists (sharding_key p))
          ≡ ok (l', h, front)
        → Step s log
            (record s {
              manager = record s.manager {
                filters = h;
                http_filter_lists = update s.manager.http_filter_lists (sharding_key p) front;
              };
              pc = move s.pc i (inside op p l');
            })
            log
    release :
        (i : ℕ) (op : Op F) (p : Ptr)
        → s.pc i ≡ inside op p unlock
        → Step s log
            (record s { locked = set_lock s.locked (sharding_key p) false; pc = move s.pc i idle })
            ((op, p) ∷ log)

  abbrev pub init : System
  init = record { manager = mem_manager; locked = λ _. false; pc = λ _. idle }

  pub data Reach : System → Log F → Type 0 where
    start : Reach init []
    later : {s t : System} {log log' : Log F} → Reach s log → Step s log t log' → Reach t log'

  -- Steps in a row.
  pub data Steps : System → Log F → System → Log F → Type 0 where
    done : {s : System} {log : Log F} → Steps s log s log
    more :
        {s t u : System} {log log' log'' : Log F}
        → Step s log t log'
        → Steps t log' u log''
        → Steps s log u log''
