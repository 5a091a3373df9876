-- ===== src/Lib.antt =====
-- The Go SDK for Envoy dynamic modules (go/gosdk) and the filters that are built on it (go).
--
-- Envoy loads the module as a shared library and calls its event hooks; a hook finds the Go object
-- behind a raw pointer, runs a method of it, and the method calls back into Envoy.
--   * Mem, with Mem/Sharding: `memoryManager` of go/gosdk/mem.go, which pins configurations and
--     filters in doubly linked lists, the filters in 256 shards by the hash of their address. The
--     heap is a map from addresses to nodes, and an address is a number. Mem/Chain says what a list
--     in the heap is, Mem/Pin and Mem/Unpin what a call does to it, and Mem/Manager relates a manager
--     to two finite maps, of which Mem/Manager/Refine speaks. Mem/Threads runs the methods for filters
--     on any number of threads: a step is a call, `mux.Lock()`, one line of the source, or the return
--     with its deferred `mux.Unlock()`, and Mem/Threads/Invariant says what holds in between. The heap
--     frees no node: that pinning keeps a filter from the garbage collector of Go is said of what the
--     pointers from the fronts of the shards lead to (Mem/Threads/Chained, Mem/Threads/Kept).
--   * Memory, Host: the memory and the callbacks of Envoy (the C declarations of go/gosdk/abi.go), the
--     clock and the output, all of them functions on a state that is a parameter. A pointer into Go
--     memory that is handed to a callback is given as the bytes behind it.
--   * BodyReader: `bodyReader` of go/gosdk/abi.go, with `io.ReadAll` as the filters call it.
--   * EnvoyFilter: `envoyFilter` of go/gosdk/abi.go, one definition for each method, with one body for
--     the request's and the response's version. What Envoy documents is in the records IsHeaders,
--     IsLookup (EnvoyFilter/Headers), IsBody (EnvoyFilter/Body), IsSetting and IsAgreeing
--     (Filters/JavaScript/Mirror).
--   * Sdk: the interface EnvoyHttpFilter of go/gosdk/gosdk.go, a record of methods that the filters take
--     and that `envoyFilter` implements (`envoy_http_filter`).
--   * Status: the status values of go/gosdk/gosdk.go.
--   * Filters: go/passthrough.go, go/header_auth.go, go/delay.go and go/javascript.go. A handler takes
--     the interface, the filter's object and the host's state, and returns the last two with its
--     status. The goroutine of the delay filter is a machine of three phases. The interpreter of the javascript filter is the
--     parameter Goja, and a run of a script is a tree of calls of the context object; in
--     Filters/JavaScript/Threads any number of threads run scripts on a pool, one call at a time.
--   * Main: `newHttpFilterConfig` of go/main.go, with one constructor for each type behind the SDK's
--     interfaces.
--   * Abi, Abi/Events: the event hooks of go/gosdk/abi.go over the state of the loaded module, and in
--     Abi/Reachable the worlds that sequences of them lead to when Envoy hands back only what it holds.
--     Abi/Configured and Abi/Lifecycle are about creating and destroying, Abi/Events/Delayed about a
--     request that two hooks share.
--   * Base: byte strings, maps, integers and panics of Go. Examples: a concrete host and interpreter,
--     at which the theorems apply.
--
-- Panics are values (Base/Outcome). The one loop on fuel is that of `io.ReadAll`; its fuel counts the
-- bytes and the chunks of the body, and each round but the last uses up one of them at least.
--
-- The steps of the threads are sequentially consistent. In Mem/Threads a line of the source is one
-- step, and in Filters/JavaScript/Threads a call that a script makes; while a script runs its
-- interpreter is left in any state, and when it ends in the one that it made. Elsewhere a method of the memory manager is one step, and so is
-- a handler. The list of configurations has no mutex; Envoy uses it on its main thread.
--
-- Not modelled: reorderings of the Go memory model; the length of the two seconds of sleep; scripts
-- that never end; the text of `Duration.String`; the addresses of new objects, and the number that
-- the random choice of an interpreter draws, which are arguments.
-- The Rust module (rust) and the tests (integration, go/*_test.go) are not modelled.
pub mod Base
pub mod Mem
pub mod Memory
pub mod BodyReader
pub mod Status
pub mod Host
pub mod Sdk
pub mod EnvoyFilter
pub mod Filters
pub mod Main
pub mod Abi
pub mod Examples
