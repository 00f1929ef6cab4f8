-- ===== src/Service.antt =====
-- inference/server.hh and what its two servers share: the contexts of the flows, and the bytes that
-- answer a request. `E` is the type of the places an answer is sent to.
pub mod Udp
pub mod Session
pub mod Registry
pub mod Transport
pub mod Tests
use astraea_open_source.Prelude.{
  ℕ, ◌%◌, ◌^◌, ℤ, pos, Bool, true, false, if◌then◌else◌, List, [], ◌∷◌, Option, none, some, Map,
  lookup, insert, erase, contains, ◌==ℤ◌, to_int32, ◌==◌, length, ◌++◌,
}
use astraea_open_source.Result.{Error, Result, ok, err, json_error, or_throw, ◌>>=◌}
use astraea_open_source.Wire.{frame}
use astraea_open_source.Json.{Json, Key}
use astraea_open_source.Real.{Real}
use astraea_open_source.Context.{FlowContext, map_action}
use astraea_open_source.Inference.{Inference}

-- `MessageType`; any other number falls to the `default` of a `switch`.
pub data MessageType : Type 0 where
  init start finish alive observe unknown : MessageType

unfoldable pub type_code : MessageType → ℕ
type_code init = 0
type_code start = 1
type_code finish = 2
type_code alive = 3
type_code observe = 4
type_code unknown = 5

-- The enumerator of a number.
unfoldable pub type_of : ℤ → MessageType
type_of n =
    if n ==ℤ pos 0
    then init
    else (if n ==ℤ pos 1
        then start
        else (if n ==ℤ pos 2
            then finish
            else (if n ==ℤ pos 3 then alive else (if n ==ℤ pos 4 then observe else unknown))))

-- `recv_buffer_` of either server, an array of 1024 bytes
abbrev pub recv_buffer_size : ℕ
recv_buffer_size = 1024

-- What a callback holds: where to answer, and the message it answers.
pub record Callback (E J : Type 0) : Type 0 where
  pub peer : E
  pub message : J

-- A response on its way: where it goes, and its bytes.
abbrev pub Response : Type 0 → Type 0
Response E = E × List ℕ

pub record Server (E J R : Type 0) : Type 0 where
  pub contexts : Map (FlowContext R)
  pub inference : Inference (Callback E J) R (Response E)

-- What becomes of a connection, or of the UDP port, after a handler: it waits for the next message,
-- it is closed at the client's wish, nothing waits any more, or an exception leaves the event loop.
pub data Next : Type 0 where
  listening closed dropped : Next
  threw : Error → Next

module _ {E J R : Type 0} where
  -- `Server::handle_flow_removal`: an unknown flow is logged only.
  unfoldable pub handle_flow_removal : Server E J R → ℤ → Server E J R
  handle_flow_removal s flow_id =
      if contains flow_id s.contexts then record s { contexts = erase flow_id s.contexts } else s

-- What is left of an exception of `inference_imdt`, whose result nobody reads.
abbrev pub dismiss : {R : Type 0} → Result R → Result (Unit {0})
dismiss (ok action) = ok tt
dismiss (err e) = err e

module _ {J R : Type 0} (json : Json J R) (real : Real R) where
  -- `int x = data[key]`
  unfoldable pub read_int : J → Key → Result ℤ
  read_int j k = do
    v ← or_throw json_error (json.at j k)
    n ← or_throw json_error (json.to_int v)
    ok (to_int32 n)

  -- The reply to an action: `reply["cwnd"]`, then `reply["flow_id"]`, copied from the message.
  unfoldable pub action_reply : J → R → Result J
  unfolding read_int
  action_reply message action = do
    state ← or_throw json_error (json.at message Key.state)
    cwnd ← read_int state Key.cwnd
    flow_id ← or_throw json_error (json.at message Key.flow_id)
    new_cwnd ← map_action real action (real.of_int cwnd)
    ok (json.put (json.put json.object Key.cwnd (json.of_int new_cwnd)) Key.flow_id flow_id)

  -- `send_response`: the text that was given, or the reply to the action; each in a frame.
  unfoldable pub response_bytes : J → R → List ℕ → Result (List ℕ)
  unfolding action_reply
  response_bytes message action info =
      if length info == 0
      then (do reply ← action_reply message action; ok (frame (json.dump reply)))
      else ok (frame info)

  -- The bound callback of a request, called with an action and no text; `none` if it throws.
  abbrev answered : {E : Type 0} → E → Result (List ℕ) → Option (Response E)
  answered peer (ok bytes) = some (peer, bytes)
  answered peer (err e) = none

  unfoldable pub respond : {E : Type 0} → Callback E J → R → Option (Response E)
  respond c action = answered c.peer (response_bytes c.message action [])

  -- The bytes of the answer to a flow that starts: its id, as text.
  unfoldable pub flow_reply : ℤ → J
  flow_reply flow_id = json.put json.object Key.flow_id (json.of_int flow_id)

  -- The message's type and flow.
  unfoldable pub read_head : J → Result (ℤ × ℤ)
  read_head message = do
    type ← read_int message Key.type
    flow_id ← read_int message Key.flow_id
    ok (type, flow_id)
