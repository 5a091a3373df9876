-- ===== src/Mem.antt =====
-- go/gosdk/mem.go: the memory manager that pins filter configurations and filters.
-- A Go object lives at an address of a heap; `fresh` is the address that the allocator returns for
-- a new list node. Each function below is one step; Mem/Threads
-- takes them apart.
pub mod Chain
pub mod Manager
pub mod Pin
pub mod Sharding
pub mod Threads
pub mod Unpin
use dynamic_modules_examples.Base.{ℕ, ◌==◌, if◌then◌else◌, Option, none, some, ltb}
use dynamic_modules_examples.Base.Outcome.{
  Fault, invalid_pointer, index_out_of_range, Outcome, ok, panic, ◌>>=◌, from_option,
}
use Sharding.{sharding_size, sharding_key}

abbrev pub Ptr : Type 0
Ptr = ℕ

abbrev pub null : Ptr
null = 0

-- `linkedList[T]`
pub record LinkedList (T : Type 0) : Type 0 where
  pub obj : T
  pub next : Ptr
  pub prev : Ptr

abbrev pub Heap : Type 0 → Type 0
Heap T = Ptr → Option (LinkedList T)

module _ {T : Type 0} where
  unfoldable pub write : Heap T → Ptr → LinkedList T → Heap T
  write h p n a = if p == a then some n else h a

  -- `*p`
  unfoldable pub load : Heap T → Ptr → Outcome (LinkedList T)
  load h p = if p == null then panic invalid_pointer else from_option invalid_pointer (h p)

  -- `p.next = q`
  unfoldable pub set_next : Heap T → Ptr → Ptr → Outcome (Heap T)
  set_next h p q = do n ← load h p; ok (write h p (record n { next = q }))

  -- `p.prev = q`
  unfoldable pub set_prev : Heap T → Ptr → Ptr → Outcome (Heap T)
  set_prev h p q = do n ← load h p; ok (write h p (record n { prev = q }))

-- `memoryManager`, with the heaps that hold its nodes. `C` and `F` are the types of the objects
-- behind the interfaces `HttpFilterConfig` and `HttpFilter`.
pub record MemoryManager (C F : Type 0) : Type 0 where
  pub http_filter_configs : Ptr
  pub http_filter_lists : ℕ → Ptr
  pub configs : Heap C
  pub filters : Heap F

-- The variable `memManager` before any call.
abbrev pub mem_manager : {C F : Type 0} → MemoryManager C F
mem_manager = record {
  http_filter_configs = null;
  http_filter_lists = λ _. null;
  configs = λ _. none;
  filters = λ _. none;
}

-- The bounds check of an access to an array of `shardingSize` elements.
unfoldable pub check_index : ℕ → Outcome ℕ
check_index i = if ltb i sharding_size then ok i else panic index_out_of_range

abbrev pub update : (ℕ → Ptr) → ℕ → Ptr → ℕ → Ptr
update lists i p j = if i == j then p else lists j

module _ {C F : Type 0} where
  unfoldable pub pin_http_filter_config :
      (fresh : Ptr) → MemoryManager C F → C → Outcome (Ptr × MemoryManager C F)
  pin_http_filter_config fresh m filter_config = do
    let item : LinkedList C = record {
      obj = filter_config;
      next = m.http_filter_configs;
      prev = null;
    }
    let h = write m.configs fresh item
    h' ← (if m.http_filter_configs == null then ok h else set_prev h m.http_filter_configs fresh)
    ok (fresh, record m { configs = h'; http_filter_configs = fresh })

  unfoldable pub unpin_http_filter_config : MemoryManager C F → Ptr → Outcome (MemoryManager C F)
  unpin_http_filter_config m filter_config = do
    n ← load m.configs filter_config
    m' ←
        (if n.prev == null
          then ok (record m { http_filter_configs = n.next })
          else do h ← set_next m.configs n.prev n.next; ok (record m { configs = h }))
    if n.next == null
        then ok m'
        else do h ← set_prev m'.configs n.next n.prev; ok (record m' { configs = h })

  -- A raw pointer from Envoy is the address itself; the read of its node is the checked part.
  unfoldable pub unwrap_pinned_http_filter_config : MemoryManager C F → Ptr → Outcome (LinkedList C)
  unwrap_pinned_http_filter_config m raw = load m.configs raw

  unfoldable pub pin_http_filter :
      (fresh : Ptr) → MemoryManager C F → F → Outcome (Ptr × MemoryManager C F)
  pin_http_filter fresh m filter = do
    let h = write m.filters fresh (record { obj = filter; next = null; prev = null })
    index ← check_index (sharding_key fresh)
    let head = m.http_filter_lists index
    h ← set_next h fresh head
    h' ← (if head == null then ok h else set_prev h head fresh)
    ok (
      fresh,
      record m { filters = h'; http_filter_lists = update m.http_filter_lists index fresh },
    )

  unfoldable pub unpin_http_filter : MemoryManager C F → Ptr → Outcome (MemoryManager C F)
  unpin_http_filter m filter = do
    index ← check_index (sharding_key filter)
    n ← load m.filters filter
    m' ←
        (if n.prev == null
          then ok (record m { http_filter_lists = update m.http_filter_lists index n.next })
          else do h ← set_next m.filters n.prev n.next; ok (record m { filters = h }))
    if n.next == null
        then ok m'
        else do h ← set_prev m'.filters n.next n.prev; ok (record m' { filters = h })

  unfoldable pub unwrap_pinned_http_filter : MemoryManager C F → Ptr → Outcome (LinkedList F)
  unwrap_pinned_http_filter m raw = load m.filters raw
