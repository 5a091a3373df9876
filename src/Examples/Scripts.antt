-- ===== src/Examples/Scripts.antt =====
-- Two threads that run a script on one interpreter.
use dynamic_modules_examples.Base.{ℕ, none, List, [], ◌∷◌, ◌≡◌, refl}
use dynamic_modules_examples.Base.Bytes.{Bytes, codes, bytes_eq}
use dynamic_modules_examples.Base.GoMap.{GoMap, lookup, insert}
use dynamic_modules_examples.Sdk.{EnvoyHttpFilter}
use dynamic_modules_examples.EnvoyFilter.{envoy_http_filter}
use dynamic_modules_examples.Filters.JavaScript.Vm.{JavaScriptVm}
use dynamic_modules_examples.Filters.JavaScript.Threads.{
  on_request, on_response, act, Entry, System, called, locks, acts, returns, Reach, Steps, idle,
  start, later,
}
use dynamic_modules_examples.Filters.JavaScript.Threads.Invariant.{replay, IsSerial}
use dynamic_modules_examples.Filters.JavaScript.Threads.Serial.{Reach-IsSerial, Reach-replay}
use dynamic_modules_examples.Filters.JavaScript.Threads.Progress.{Reach-returns}
use dynamic_modules_examples.Examples.Stream.{Stream, stream_host}
use dynamic_modules_examples.Examples.Engine.{engine}

abbrev vms : ℕ → JavaScriptVm engine
vms v = record { runtime = 0; on_request_headers = codes "f"; on_response_headers = codes "g" }

-- Every thread handles the same stream.
abbrev streams : ℕ → EnvoyHttpFilter Stream
streams i = envoy_http_filter (stream_host 7) (record { raw = 1 })

abbrev empty : Stream
empty = record { headers = []; body = []; log = [] }

abbrev Scripts : Type 0
Scripts =
    (s : System engine (stream_host 7)) × (past : List (Entry engine (stream_host 7))) × Reach
      engine (stream_host 7) streams vms s past

abbrev asked : GoMap Bytes
asked = (codes "x-auth", codes "a") ∷ []

-- Both threads want the interpreter 3, and the first one has it.
abbrev one_running : Scripts
one_running = (
  _,
  _,
  later
      (later (later (start empty) (called 0 3 (on_request asked) refl))
        (called 1 3 (on_response [] asked) refl))
      (locks 0 3 (on_request asked) 5 refl refl),
)

-- The first one has returned.
abbrev one_done : Scripts
unfolding act lookup insert bytes_eq
one_done = (
  _,
  _,
  later
      (later (later one_running.2 (acts 0 3 (on_request asked) _ 6 refl))
        (acts 0 3 (on_request asked) _ 7 refl))
      (returns 0 3 (on_request asked) _ none 1 _ refl refl),
)

-- The other has the interpreter.
abbrev other_running : Scripts
unfolding act lookup insert bytes_eq
other_running = (_, _, later one_done.2 (locks 1 3 (on_response [] asked) 5 refl refl))

Reach-replay_example : (one_done.0).vms 3 ≡ replay engine (stream_host 7) vms (one_done.1) 3
unfolding one_done
Reach-replay_example = Reach-replay engine (stream_host 7) vms streams one_done.2 3 refl

Reach-IsSerial_example : IsSerial engine (stream_host 7) vms (other_running.1)
Reach-IsSerial_example = Reach-IsSerial engine (stream_host 7) vms streams other_running.2

Reach-returns_example :
    (t : System engine (stream_host 7)) × (entry : Entry engine (stream_host 7)) × (past : List
      (Entry engine (stream_host 7)))
    × Steps engine (stream_host 7) streams (one_running.0) [] t (entry ∷ past)
    × (entry.task ≡ on_response [] asked)
    × (t.pc 1 ≡ idle)
Reach-returns_example =
    Reach-returns engine (stream_host 7) streams vms one_running.2 1 3 (on_response [] asked) refl
