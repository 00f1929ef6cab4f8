-- ===== src/Service/Session.antt =====
-- inference/unix_socket_server.cc and .hh: one session for each client of the Unix socket, over the
-- server's flows. The handlers are those that asio calls; `peer` is the session that answers.
use astraea_open_source.Prelude.{
  ℕ, ℤ, minus_one, Bool, true, false, if◌then◌else◌, List, [], ◌∷◌, ◌++◌, Option, none, some,
  lookup, insert, contains, take, ltb,
}
use astraea_open_source.Result.{Result, ok, err, json_error, undefined}
use astraea_open_source.Wire.{get_uint16}
use astraea_open_source.Json.{Json, Key}
use astraea_open_source.Real.{Real}
use astraea_open_source.Context.{FlowContext, create, format_state}
use astraea_open_source.Inference.{Session, inference_imdt, submit_inference_request}
use astraea_open_source.Service.{
  Server, Callback, Next, listening, closed, dropped, threw, MessageType, type_of, start, finish,
  alive, handle_flow_removal, response_bytes, respond, flow_reply, read_head, dismiss,
  recv_buffer_size,
}

module _ {E J R : Type 0} (json : Json J R) (real : Real R) (session : Session R)
    (batch_mode : Bool) where
  -- `socket_.send`'s effect: the response is added to what was sent.
  abbrev pub send : Server E J R → Callback E J → Result (List ℕ) → Server E J R × Result (Unit {0})
  send s c (ok bytes) = (
    record s {
      inference = record (s.inference) { sent = s.inference.sent ++ ((c.peer, bytes) ∷ []) };
    },
    ok tt,
  )
  send s c (err e) = (s, err e)

  -- `Session::handle_flow_init`: a new context under the flow's id or, if that is taken, under a random one;
  -- the answer holds the id. The action is -1, and is not used.
  unfoldable pub handle_flow_init :
      Server E J R → ℤ → Callback E J → ℤ → Server E J R × Result (Unit {0})
  handle_flow_init s wanted c random =
      let flow_id = if contains wanted s.contexts then random else wanted in
      let registered = record s {
        contexts = insert flow_id (create json real flow_id) s.contexts;
      } in
      let response = json.dump (flow_reply json real flow_id) in
      send registered c (response_bytes json real c.message (real.of_int minus_one) response)

  -- The request to the network, at once or in a batch. The exception of `inference_imdt` goes on.
  unfoldable pub infer : Server E J R → ℤ → List R → Callback E J → Server E J R × Result (Unit {0})
  infer s flow_id state c =
      if batch_mode
      then (
        record s {
          inference =
              submit_inference_request (respond json real) session s.inference flow_id state c;
        },
        ok tt,
      )
      else let (after, result) =
          inference_imdt (respond json real) session s.inference flow_id state c in
        (record s { inference = after }, dismiss result)

  abbrev pub infer_if_read :
      Server E J R
      → ℤ
      → Callback E J
      → FlowContext R × Result (List R)
      → Server E J R × Result (Unit {0})
  infer_if_read s flow_id c (context, ok state) =
      infer (record s { contexts = insert flow_id context s.contexts }) flow_id state c
  infer_if_read s flow_id c (context, err e) =
      (record s { contexts = insert flow_id context s.contexts }, err e)

  abbrev pub with_state :
      Server E J R → ℤ → Callback E J → FlowContext R → Option J → Server E J R × Result (Unit {0})
  with_state s flow_id c context none =
      infer_if_read s flow_id c (record context { current = [] }, err json_error)
  with_state s flow_id c context (some state) =
      infer_if_read s flow_id c (format_state json real context state)

  abbrev pub control :
      Server E J R → ℤ → Callback E J → Option (FlowContext R) → Server E J R × Result (Unit {0})
  control s flow_id c none = (s, ok tt)
  control s flow_id c (some context) = with_state s flow_id c context (json.at c.message Key.state)

  -- `Session::handle_congestion_control`: an unknown flow is logged, and gets no answer.
  unfoldable pub handle_congestion_control :
      Server E J R → ℤ → Callback E J → Server E J R × Result (Unit {0})
  handle_congestion_control s flow_id c = control s flow_id c (lookup flow_id s.contexts)

  -- `Session::handle_flow_removal`, which calls the server's.
  unfoldable pub remove_flow : Server E J R → ℤ → Server E J R
  remove_flow s flow_id = handle_flow_removal s flow_id

  -- What a message leads to: `true` asks for the session's end.
  abbrev pub carry_on : Server E J R × Result (Unit {0}) → Server E J R × Result Bool
  carry_on (s, ok _) = (s, ok false)
  carry_on (s, err e) = (s, err e)

  -- The `switch` of `handle_read_message`.
  unfoldable pub dispatch :
      Server E J R → MessageType → ℤ → Callback E J → ℤ → Server E J R × Result Bool
  dispatch s start flow_id c random = carry_on (handle_flow_init s flow_id c random)
  dispatch s alive flow_id c random = carry_on (handle_congestion_control s flow_id c)
  dispatch s finish flow_id c random = (remove_flow s flow_id, ok true)
  dispatch s _ flow_id c random = (s, ok false)

  -- `if (!stop) start(); else socket_.close();`
  abbrev pub proceed : Server E J R × Result Bool → Server E J R × Next
  proceed (s, ok false) = (s, listening)
  proceed (s, ok true) = (s, closed)
  proceed (s, err e) = (s, threw e)

  abbrev pub handle_head : Server E J R → E → J → ℤ → Result (ℤ × ℤ) → Server E J R × Next
  handle_head s peer message random (ok (type, flow_id)) =
      proceed (dispatch s (type_of type) flow_id (record { peer = peer; message = message }) random)
  handle_head s peer message random (err e) = (s, threw e)

  abbrev pub handle_text : Server E J R → E → Option J → ℤ → Server E J R × Next
  handle_text s peer none random = (s, threw json_error)
  handle_text s peer (some message) random =
      handle_head s peer message random (read_head json real message)

  -- `handle_read_message`: a failed read ends the session without a further read. A message that is
  -- longer than `recv_buffer_` has been written past its end when the read is complete.
  unfoldable pub handle_read_message :
      Server E J R → Bool → E → List ℕ → ℕ → ℤ → Server E J R × Next
  handle_read_message s true peer buffer expected_length random = (s, dropped)
  handle_read_message s false peer buffer expected_length random =
      if ltb recv_buffer_size expected_length
      then (s, threw undefined)
      else handle_text s peer (json.parse (take expected_length buffer)) random

-- What `handle_read_length` starts: a read of that many bytes into `recv_buffer_`, or nothing.
pub data Reading : Type 0 where
  reading : ℕ → Reading
  stopped : Reading

unfoldable pub handle_read_length : Bool → ℕ → ℕ → Reading
unfolding get_uint16
handle_read_length true hi lo = stopped
handle_read_length false hi lo = elim (get_uint16 (hi ∷ lo ∷ [])) [
  | none ↦ stopped
  | some n ↦ reading n
]

-- `UnixSocketServer::handle_accept`: after an error no further connection is accepted.
pub data Accepting : Type 0 where
  accepts : Accepting
  accepts_no_more : Accepting

unfoldable pub handle_accept : Bool → Accepting
handle_accept true = accepts_no_more
handle_accept false = accepts
