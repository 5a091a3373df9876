-- ===== src/Examples/Calls.antt =====
-- A world that two calls lead to: of a configuration, and of a filter of it.
use dynamic_modules_examples.Base.{ℕ, ◌≡◌, refl, Bool, false, none, List, []}
use dynamic_modules_examples.Base.Bytes.{Bytes, codes, bytes_eq}
use dynamic_modules_examples.Base.GoMap.{GoMap}
use dynamic_modules_examples.Base.Int.{ℤ}
use dynamic_modules_examples.Base.Outcome.{ok}
use dynamic_modules_examples.Mem.{Ptr, LinkedList, mem_manager, unwrap_pinned_http_filter}
use dynamic_modules_examples.Mem.Manager.{empty, insert, Represents, mem_manager-Represents}
use dynamic_modules_examples.Mem.Manager.Refine.{pin_http_filter_config-insert}
use dynamic_modules_examples.Main.{HttpFilterConfig, HttpFilter, new_filter, new_http_filter_config}
use dynamic_modules_examples.Abi.{
  World, go_bytes, on_http_filter_config_new, on_http_filter_config_destroy, on_http_filter_new,
  on_http_filter_destroy,
}
use dynamic_modules_examples.Abi.Lifecycle.{on_http_filter_new-insert}
use dynamic_modules_examples.Abi.Held.{take_up}
use dynamic_modules_examples.Abi.Reachable.{Reachable, loaded, config_created, filter_created}
use dynamic_modules_examples.Abi.Reachable.Pinned.{
  on_http_filter_destroy_of_Reachable, on_http_filter_config_destroy_of_Reachable,
}
use dynamic_modules_examples.Examples.Stream.{stream_host}
use dynamic_modules_examples.Examples.Engine.{engine}

abbrev W : Type 0
W = World engine (stream_host 7)

abbrev start : W
start = record {
  manager = mem_manager;
  vms = λ _. none;
  goroutines = [];
  host = record { headers = []; body = []; log = [] };
}

abbrev range : GoMap (List Bytes) → GoMap (List Bytes)
range m = m

abbrev show : ℤ → Bytes
show d = []

abbrev itoa : ℕ → Bytes
itoa n = []

abbrev Visited : W → (Ptr → Bool) → (Ptr → Bool) → Type 1
Visited = Reachable engine (stream_host 7) range show itoa

configured :
    (w : W) × (on_http_filter_config_new engine
        (stream_host 7)
        4096
        (λ n. n)
        (codes "delay")
        []
        start
      ≡ ok (4096, w))
    × Represents w.manager (insert empty 4096 HttpFilterConfig.delay) empty
unfolding on_http_filter_config_new go_bytes new_http_filter_config bytes_eq
configured =
    let (m, e, r) =
      pin_http_filter_config-insert mem_manager-Represents {fresh = 4096} HttpFilterConfig.delay
        (λ e. cc) refl in
    (record start { manager = m }, rw e, r)

filtered :
    (w : W) × (on_http_filter_new engine (stream_host 7) 8192 3 4096 configured.0 ≡ ok (8192, w))
unfolding new_filter
filtered =
    let (w, e, _) =
      on_http_filter_new-insert configured.0 configured.2 3 {fresh = 8192} {p = 4096} refl refl
        (λ e. cc) refl in
    (w, e)

visited : Visited filtered.0 (take_up (λ _. false) 4096) (take_up (λ _. false) 8192)
visited =
    filter_created 8192 4096 3
      (config_created 4096 (λ n. n) (codes "delay") [] (loaded refl) (λ e. cc) refl configured.1)
      refl (λ e. cc) refl filtered.1

on_http_filter_destroy_of_Reachable_example :
    ((w' : W) × (on_http_filter_destroy engine (stream_host 7) 8192 filtered.0 ≡ ok w'))
    × ((n : LinkedList HttpFilter) × (unwrap_pinned_http_filter filtered.0.manager 8192 ≡ ok n))
on_http_filter_destroy_of_Reachable_example =
    on_http_filter_destroy_of_Reachable engine (stream_host 7) range show itoa {p = 8192} visited
      refl

on_http_filter_config_destroy_of_Reachable_example :
    (w' : W) × (on_http_filter_config_destroy engine (stream_host 7) 4096 filtered.0 ≡ ok w')
on_http_filter_config_destroy_of_Reachable_example =
    on_http_filter_config_destroy_of_Reachable engine (stream_host 7) range show itoa {p = 4096}
      visited refl
