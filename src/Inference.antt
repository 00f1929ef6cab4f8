-- ===== src/Inference.antt =====
-- inference/tf_inference.cc and .hh: the requests that wait for the network and the callbacks that
-- wait for their answers. TensorFlow's session is a parameter, as are the callbacks: `call` says what
-- a callback sends for an action, or that it throws.
pub mod Flows
pub mod Batch
pub mod Rounds
pub mod Shutdown
pub mod Tests
use astraea_open_source.Prelude.{
  ℕ, zero, suc, ◌+◌, ◌≡◌, ℤ, Bool, true, false, ltb, if◌then◌else◌, List, [], ◌∷◌, ◌++◌, map,
  Option, none, some, length, take, Map, lookup, insert, erase,
}
use astraea_open_source.Result.{
  Error, Result, ok, err, runtime_error, undefined, or_throw, throw_unless, ◌>>=◌, ◌>>◌,
  null_pointer,
}
use astraea_open_source.Context.{input_size}

-- `C` is the type of the callbacks, `R` that of the numbers, `O` that of what is sent.
pub record Inference (C R O : Type 0) : Type 0 where
  pub queue : List (ℤ × List R)
  pub callbacks : Map C
  pub keep_running : Bool
  pub sent : List O

-- `Session::Run` on a tensor of rows: a value for each row, or a status that is not ok.
abbrev pub Session : Type 0 → Type 0
Session R = List (List R) → Option (List R)

module _ {C R O : Type 0} (call : C → R → Option O) (session : Session R) where
  -- `register_flow_callback`
  unfoldable pub register_flow_callback : Inference C R O → ℤ → C → Inference C R O
  register_flow_callback s flow_id callback = record s {
    callbacks = insert flow_id callback s.callbacks;
  }

  -- What a callback's call adds to the output. The exception of a callback is caught and logged.
  abbrev pub output : Option O → List O
  output none = []
  output (some o) = o ∷ []

  -- The call in `send_reply`: of an empty function, where none is registered, it throws too.
  abbrev pub invoke : Option C → R → List O
  invoke none action = []
  invoke (some callback) action = output (call callback action)

  -- `send_reply`
  unfoldable pub send_reply : Inference C R O → ℤ → R → Inference C R O
  send_reply s flow_id action = record s {
    sent = s.sent ++ invoke (lookup flow_id s.callbacks) action;
    callbacks = erase flow_id s.callbacks;
  }

  -- `prepare_batch_input`: the first fifty values of each state, for the first `batch` states.
  unfoldable pub prepare_batch_input : List (List R) → ℕ → List (List R)
  prepare_batch_input states batch = map (take input_size) (take batch states)

  -- `internal_inference`
  unfoldable pub internal_inference : List (List R) → Result (List R)
  internal_inference rows = or_throw runtime_error (session rows)

  -- `batch_inference`: the first value for each state.
  unfoldable pub batch_inference : List (List R) → Result (List R)
  unfolding prepare_batch_input internal_inference
  batch_inference states = do
    values ← internal_inference (prepare_batch_input states (length states))
    throw_unless (if ltb (length values) (length states) then false else true) undefined
    ok (take (length states) values)

  -- `output[0].flat<float>().data()[0]`
  abbrev first : List R → Result R
  first [] = err undefined
  first (a ∷ rest) = ok a

  -- `inference_imdt`: the answer at once. If the session fails, the callback stays registered.
  abbrev pub reply_or_fail : Inference C R O → ℤ → Result R → Inference C R O × Result R
  reply_or_fail s flow_id (ok action) = (send_reply s flow_id action, ok action)
  reply_or_fail s flow_id (err e) = (s, err e)

  unfoldable pub inference_imdt : Inference C R O → ℤ → List R → C → Inference C R O × Result R
  inference_imdt s flow_id state callback =
      let registered = register_flow_callback s flow_id callback in
      let values = internal_inference (prepare_batch_input (state ∷ []) 1) in
      reply_or_fail registered flow_id (values >>= first)

  -- `submit_inference_request`, under the mutex
  unfoldable pub submit_inference_request : Inference C R O → ℤ → List R → C → Inference C R O
  submit_inference_request s flow_id state callback =
      let registered = register_flow_callback s flow_id callback in
      record registered { queue = registered.queue ++ ((flow_id, state) ∷ []) }

  -- The locked part of a round of `inference_loop`: all requests are taken off the queue.
  unfoldable pub collect : Inference C R O → Inference C R O × List (ℤ × List R)
  collect s = (record s { queue = [] }, s.queue)

  -- The replies of a round, in the order of the requests.
  unfoldable pub reply_all : Inference C R O → List ℤ → List R → Inference C R O
  reply_all s [] actions = s
  reply_all s (f ∷ fs) [] = s
  reply_all s (f ∷ fs) (a ∷ rest) = reply_all (send_reply s f a) fs rest

  -- A round of `inference_loop` in which no other thread runs. An exception of the session ends the
  -- thread, and with it the process.
  abbrev answer_all :
      Inference C R O → List (ℤ × List R) → Result (List R) → Result (Inference C R O)
  answer_all s requests (ok actions) = ok (reply_all s (map (λ r. r.0) requests) actions)
  answer_all s requests (err e) = err e

  unfoldable pub inference_round : Inference C R O → Result (Inference C R O)
  inference_round s =
      let (emptied, requests) = collect s in
      if ltb 0 (length requests)
      then answer_all emptied requests (batch_inference (map (λ r. r.1) requests))
      else ok emptied
