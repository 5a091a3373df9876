-- ===== src/Host.antt =====
-- What the module does not implement: the callbacks of Envoy that go/gosdk/abi.go declares in C,
-- the clock, standard output and the growth of slices in the Go runtime. The host has a state, and
-- every callback takes the `raw` pointer of the stream's filter. Pointers into Go memory that a call
-- hands out are given as the bytes behind them.
use dynamic_modules_examples.Base.{ℕ, Bool, List}
use dynamic_modules_examples.Base.Bytes.{Bytes}
use dynamic_modules_examples.Memory.{Memory, EnvoySlice}

-- `…_get_request_header`, `…_set_request_header`, `…_get_request_headers_count` and
-- `…_get_request_headers`, or the same for the response.
pub record HeaderCallbacks (State : Type 0) : Type 0 where
  -- The number of values under the key, and the result buffer of the value at an index.
  pub get : State → (raw : ℕ) → Bytes → ℕ → ℕ × EnvoySlice
  pub set : State → (raw : ℕ) → Bytes → Bytes → Bool × State
  pub count : State → (raw : ℕ) → ℕ
  -- The pairs that are written into the caller's array, from its start.
  pub all : State → (raw : ℕ) → Bool × List (EnvoySlice × EnvoySlice)

-- `…_get_request_body_vector_size`, `…_get_request_body_vector`, `…_drain_request_body` and
-- `…_append_request_body`, or the same for the response.
pub record BodyCallbacks (State : Type 0) : Type 0 where
  pub vector_size : State → (raw : ℕ) → Bool × ℕ
  -- The slices that are written into the caller's array, from its start.
  pub vector : State → (raw : ℕ) → Bool × List EnvoySlice
  pub drain : State → (raw : ℕ) → ℕ → Bool × State
  pub append : State → (raw : ℕ) → Bytes → Bool × State

pub record Host : Type 1 where
  pub State : Type 0
  pub memory : State → Memory
  pub request_headers : HeaderCallbacks State
  pub response_headers : HeaderCallbacks State
  pub request_body : BodyCallbacks State
  pub response_body : BodyCallbacks State
  pub send_response : State → (raw : ℕ) → ℕ → List (Bytes × Bytes) → Bytes → State
  pub get_attribute_string : State → (raw : ℕ) → ℕ → Bool × EnvoySlice
  pub continue_decoding : State → (raw : ℕ) → State
  pub continue_encoding : State → (raw : ℕ) → State
  pub scheduler_new : State → (raw : ℕ) → ℕ × State
  pub scheduler_delete : State → ℕ → State
  pub scheduler_commit : State → ℕ → ℕ → State
  -- `time.Now()`, in nanoseconds of the monotonic clock
  pub now : State → ℕ
  -- `fmt.Printf`, `fmt.Println` and `log.Printf`, with the text already formatted
  pub print : State → Bytes → State
  -- The capacity that `append` gives to a full slice.
  pub grow : ℕ → ℕ
