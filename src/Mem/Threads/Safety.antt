-- ===== src/Mem/Threads/Safety.antt =====
-- What holds of the shards of go/gosdk/mem.go in whatever order the threads of Envoy run.
use dynamic_modules_examples.Base.{ℕ, false, [], ◌≡◌, refl, arith}
use dynamic_modules_examples.Mem.{Ptr, null, LinkedList, write}
use dynamic_modules_examples.Mem.Sharding.{sharding_key}
use dynamic_modules_examples.Mem.Manager.{empty, Represents}
use dynamic_modules_examples.Mem.Threads.{
  Line, Op, pin, unpin, inside, Log, replay, System, Step, call_pin, call_unpin, lock, go_on,
  release, Reach, start, later,
}
use dynamic_modules_examples.Mem.Threads.Invariant.{Inv, init-Inv}
use dynamic_modules_examples.Mem.Threads.Invariant.Calls.{
  waiting-Inv, fresh-IsSpared, same-IsSpared,
}
use dynamic_modules_examples.Mem.Threads.Invariant.Entry.{entered-Inv}
use dynamic_modules_examples.Mem.Threads.Invariant.Work.{worked-Inv}
use dynamic_modules_examples.Mem.Threads.Invariant.Leave.{left-Inv}

module _ {C F : Type 0} where
  pub Step-Inv :
      {s t : System C F} {log log' : Log F} → Inv s log → Step C F s log t log' → Inv t log'
  unfolding write
  Step-Inv inv (call_pin i fresh f at ne unused alone_at) =
      let node : LinkedList F = record { obj = f; next = null; prev = null } in
      waiting-Inv inv i (pin f) fresh at alone_at (fresh-IsSpared inv i node unused alone_at)
        (ne, unused, ground arith)
  Step-Inv inv (call_unpin i p f at there alone_at) =
      waiting-Inv inv i unpin p at alone_at (same-IsSpared inv i) (f, there)
  Step-Inv inv (lock i op p at open_lock) = entered-Inv inv i op p at open_lock
  Step-Inv inv (go_on i op p l l' h front at before ran) = worked-Inv inv i op p l at l' h front ran
  Step-Inv inv (release i op p at) = left-Inv inv i op p at

  pub Reach-Inv : {s : System C F} {log : Log F} → Reach C F s log → Inv s log
  Reach-Inv start = init-Inv
  Reach-Inv (later r step) = Step-Inv (Reach-Inv r) step

  module _ {s : System C F} {log : Log F} (r : Reach C F s log) where
    -- Two threads that both are behind the mutex of one shard are the same thread.
    pub Reach-alone :
        (i j : ℕ) (op op' : Op F) (p q : Ptr) (l l' : Line)
        → s.pc i ≡ inside op p l
        → s.pc j ≡ inside op' q l'
        → sharding_key p ≡ sharding_key q
        → i ≡ j
    Reach-alone = (Reach-Inv r).alone

    -- When no thread is behind a mutex, the lists of the memory manager are well formed, and the
    -- pinned filters are those that the calls leave, made one after the other in the order in
    -- which they gave back the mutex.
    pub Reach-Represents : ((k : ℕ) → s.locked k ≡ false) → Represents s.manager empty (replay log)
    Reach-Represents open_locks =
        let inv = Reach-Inv r in
        record {
          cs = [];
          fs = inv.fs;
          config_list = inv.config_list;
          shards = λ k. inv.free k (open_locks k);
          placed = inv.placed.placed;
          find_config = λ p. refl;
          find_filter = inv.placed.found;
        }
