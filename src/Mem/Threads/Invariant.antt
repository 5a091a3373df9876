-- ===== src/Mem/Threads/Invariant.antt =====
-- What holds between two steps of the threads. A shard's list stands for the calls that have
-- returned, also while a thread works on it.
pub mod Calls
pub mod Entry
pub mod Leave
pub mod Work
use mathlib.Core.Path.{fun_ext}
use dynamic_modules_examples.Base.{
  ℕ, zero, suc, ◌≤◌, Bool, true, false, ◌||◌, Option, none, some, List, [], ◌∷◌, ◌≡◌, ◌≢◌, refl,
  sym, ap, ◌∙◌, if◌then◌else◌, ◌==◌, ==_iff, arith, Bool-cases, inl, inr,
}
use dynamic_modules_examples.Base.Outcome.{Outcome, ok, panic, ◌>>=◌, of_bind}
use dynamic_modules_examples.Mem.{Ptr, null, LinkedList, Heap, MemoryManager, mem_manager, update}
use dynamic_modules_examples.Mem.Chain.{Cells, has, ◌∈◌, ◌∉◌, Chain, nil, cons, IsList, frame}
use dynamic_modules_examples.Mem.Sharding.{sharding_key}
use dynamic_modules_examples.Mem.Manager.{Pool, empty, find}
use dynamic_modules_examples.Mem.Manager.Placed.{IsPlaced, mem_of_pinned, not-mem_of_unpinned}
use dynamic_modules_examples.Mem.Threads.{
  Line, unlock, line, run_lines, Op, pin, unpin, first_line, Pc, idle, waiting, inside, target, Log,
  replay, System, init,
}
use dynamic_modules_examples.Mem.Threads.Chained.Lines.{IsChained, IsChained-frame}
use dynamic_modules_examples.Mem.Threads.Mask.{mask, IsInside, line-mask}
use dynamic_modules_examples.Mem.Threads.Alone.{applied, IsReady, alone-IsList}

module _ {F : Type 0} where
  -- The addresses that a call may touch: its own, and those of the list.
  abbrev pub owns : Ptr → Cells F → Ptr → Bool
  owns p xs a = (p == a) || has a xs

  -- A thread inside, in a shard with the list `xs`: a few lines of its own lead to the unlock and to
  -- the list after the call, and nothing outside the call's addresses matters for that. Until it
  -- changes the list, the front leads to the nodes of `xs`.
  pub record IsWorking (h : Heap F) (front : Ptr) (xs : Cells F) (op : Op F) (p : Ptr) (l : Line)
      : Type 0 where
    pub rounds : ℕ
    pub few : rounds ≤ 4
    pub end_heap : Heap F
    pub end_front : Ptr
    pub runs : run_lines rounds p l (mask (owns p xs) h) front ≡ ok (unlock, end_heap, end_front)
    pub result : IsList end_heap end_front (applied op p xs)
    pub old_heap : Heap F
    pub old : Chain old_heap null xs
    pub chained : IsChained h front xs p l

  -- What a thread relies on from its call on.
  abbrev pub IsCalled : Heap F → Log F → Pc F → Type 0
  IsCalled h log idle = Unit
  IsCalled h log (waiting (pin f) p) =
      (p ≢ null)
      × (replay log p ≡ none)
      × (h p ≡ some (record { obj = f; next = null; prev = null }))
  IsCalled h log (waiting unpin p) = (f : F) × (replay log p ≡ some f)
  IsCalled h log (inside (pin f) p l) = replay log p ≡ none
  IsCalled h log (inside unpin p l) = (f : F) × (replay log p ≡ some f)

module _ {C F : Type 0} where
  pub record Inv (s : System C F) (log : Log F) : Type 0 where
    pub fs : ℕ → Cells F
    pub placed : IsPlaced fs (replay log)
    pub config_list : IsList s.manager.configs s.manager.http_filter_configs []
    pub unique : (i j : ℕ) (p : Ptr) → target (s.pc i) ≡ some p → target (s.pc j) ≡ some p → i ≡ j
    pub called : (i : ℕ) → IsCalled s.manager.filters log (s.pc i)
    pub free :
        (k : ℕ)
        → s.locked k ≡ false
        → IsList s.manager.filters (s.manager.http_filter_lists k) (fs k)
    pub working :
        (i : ℕ) (op : Op F) (p : Ptr) (l : Line)
        → s.pc i ≡ inside op p l
        → (s.locked (sharding_key p) ≡ true)
          × IsWorking s.manager.filters
              (s.manager.http_filter_lists (sharding_key p))
              (fs (sharding_key p))
              op
              p
              l
    pub alone :
        (i j : ℕ) (op op' : Op F) (p q : Ptr) (l l' : Line)
        → s.pc i ≡ inside op p l
        → s.pc j ≡ inside op' q l'
        → sharding_key p ≡ sharding_key q
        → i ≡ j
    pub owner :
        (k : ℕ)
        → s.locked k ≡ true
        → (i : ℕ) × (op : Op F) × (p : Ptr) × (l : Line) × (s.pc i ≡ inside op p l)
          × (sharding_key p ≡ k)

  pub init-Inv : Inv (init C F) []
  unfolding replay
  init-Inv = record {
    fs = λ _. [];
    placed = record { placed = λ i p h. cc; found = λ p. refl };
    config_list = record { front = refl; chain = nil };
    unique = λ i j p h h'. cc;
    called = λ i. tt;
    free = λ k _. record { front = refl; chain = nil };
    working = λ i op p l h. cc;
    alone = λ i j op op' p q l l' h h' e. cc;
    owner = λ k h. cc;
  }

module _ {F : Type 0} where
  -- A list is not touched by what spares its addresses.
  pub IsList-frame :
      {h g : Heap F} {front : Ptr} {xs : Cells F}
      → IsList h front xs
      → ((a : Ptr) → a ∈ xs → g a ≡ h a)
      → IsList g front xs
  IsList-frame is same = record { front = is.front; chain = frame is.chain same }

  -- Nor is the work of a thread by what spares its own.
  pub IsWorking-frame :
      {h g : Heap F} {front : Ptr} {xs : Cells F} {op : Op F} {p : Ptr} {l : Line}
      → IsWorking h front xs op p l
      → ((a : Ptr) → owns p xs a ≡ true → g a ≡ h a)
      → IsWorking g front xs op p l
  IsWorking-frame {h} {g} {front} {xs} {p} {l} w same =
      let part : mask (owns p xs) h ≡ mask (owns p xs) g = fun_ext (λ a.
        elim (Bool-cases (owns p xs a)) [ inl own ↦ rw (own, same a own) | inr out ↦ rw out ]) in
      record {
        rounds = w.rounds;
        few = w.few;
        end_heap = w.end_heap;
        end_front = w.end_front;
        runs = rw (← part) w.runs;
        result = w.result;
        old_heap = w.old_heap;
        old = w.old;
        chained = IsChained-frame h g front xs p l w.chained (λ a i. same a (ground arith));
      }

  -- What a thread relies on is its own node, until it is inside, and what is pinned at its address.
  pub IsCalled-frame :
      {h g : Heap F} (log : Log F) (pc : Pc F)
      → IsCalled h log pc
      → ((f : F) (a : Ptr) → pc ≡ waiting (pin f) a → g a ≡ h a)
      → IsCalled g log pc
  IsCalled-frame log idle is same = tt
  IsCalled-frame log (waiting (pin f) p) (ne, unused, there) same =
      (ne, unused, same f p refl ∙ there)
  IsCalled-frame log (waiting unpin p) is same = is
  IsCalled-frame log (inside (pin f) p l) is same = is
  IsCalled-frame log (inside unpin p l) is same = is

  pub IsCalled-log :
      (h : Heap F) (log log' : Log F) (pc : Pc F)
      → IsCalled h log pc
      → ((a : Ptr) → target pc ≡ some a → replay log' a ≡ replay log a)
      → IsCalled h log' pc
  IsCalled-log h log log' idle is same = tt
  IsCalled-log h log log' (waiting (pin f) p) (ne, unused, there) same =
      (ne, same p refl ∙ unused, there)
  IsCalled-log h log log' (waiting unpin p) (f, there) same = (f, same p refl ∙ there)
  IsCalled-log h log log' (inside (pin f) p l) unused same = same p refl ∙ unused
  IsCalled-log h log log' (inside unpin p l) (f, there) same = (f, same p refl ∙ there)

  pub IsCalled-inside :
      (h g : Heap F) (log : Log F) (op : Op F) (p : Ptr) (l l' : Line)
      → IsCalled h log (inside op p l)
      → IsCalled g log (inside op p l')
  IsCalled-inside h g log (pin f) p l l' is = is
  IsCalled-inside h g log unpin p l l' is = is

  pub IsCalled-entered :
      (h : Heap F) (log : Log F) (op : Op F) (p : Ptr) (l : Line)
      → IsCalled h log (waiting op p)
      → IsCalled h log (inside op p l)
  IsCalled-entered h log (pin f) p l (ne, unused, there) = unused
  IsCalled-entered h log unpin p l is = is
