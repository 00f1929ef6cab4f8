-- ===== src/Service/Udp.antt =====
-- inference/udp_server.cc and .hh. A handler takes the server's state, what asio hands over, and the
-- number that `rand` would give; it returns the new state and whether the port still has a receive.
use astraea_open_source.Prelude.{
  ℕ, ◌+◌, ◌-◌, ◌%◌, ◌^◌, ℤ, minus_one, Bool, true, false, if◌then◌else◌, ◌==◌, List, [], ◌∷◌, ◌++◌,
  Option, none, some, lookup, insert, contains, take, drop, min,
}
use astraea_open_source.Result.{Result, ok, err, json_error, undefined}
use astraea_open_source.Wire.{get_uint16}
use astraea_open_source.Json.{Json, Key}
use astraea_open_source.Real.{Real}
use astraea_open_source.Context.{FlowContext, create, format_state}
use astraea_open_source.Inference.{Session, inference_imdt, submit_inference_request}
use astraea_open_source.Service.{
  Server, Callback, Next, listening, dropped, threw, MessageType, type_of, start, finish, alive,
  handle_flow_removal, response_bytes, respond, flow_reply, read_head, dismiss, recv_buffer_size,
}

module _ {E J R : Type 0} (json : Json J R) (real : Real R) (session : Session R)
    (batch_mode : Bool) where
  -- `sendto`'s effect: the response is added to what was sent.
  abbrev pub send : Server E J R → Callback E J → Result (List ℕ) → Server E J R × Result (Unit {0})
  send s c (ok bytes) = (
    record s {
      inference = record (s.inference) { sent = s.inference.sent ++ ((c.peer, bytes) ∷ []) };
    },
    ok tt,
  )
  send s c (err e) = (s, err e)

  -- `handle_flow_init`: a new context under the flow's id or, if that is taken, under a random one;
  -- the answer holds the id. The action is -1, and is not used.
  unfoldable pub handle_flow_init :
      Server E J R → ℤ → Callback E J → ℤ → Server E J R × Result (Unit {0})
  handle_flow_init s wanted c random =
      let flow_id = if contains wanted s.contexts then random else wanted in
      let registered = record s {
        contexts = insert flow_id (create json real flow_id) s.contexts;
      } in
      let response = json.dump (flow_reply json real flow_id) in
      send registered c (response_bytes json real c.message (real.of_int minus_one) response)

  -- The request to the network, at once or in a batch. The exception of `inference_imdt` goes on.
  unfoldable pub infer : Server E J R → ℤ → List R → Callback E J → Server E J R × Result (Unit {0})
  infer s flow_id state c =
      if batch_mode
      then (
        record s {
          inference =
              submit_inference_request (respond json real) session s.inference flow_id state c;
        },
        ok tt,
      )
      else let (after, result) =
          inference_imdt (respond json real) session s.inference flow_id state c in
        (record s { inference = after }, dismiss result)

  abbrev pub infer_if_read :
      Server E J R
      → ℤ
      → Callback E J
      → FlowContext R × Result (List R)
      → Server E J R × Result (Unit {0})
  infer_if_read s flow_id c (context, ok state) =
      infer (record s { contexts = insert flow_id context s.contexts }) flow_id state c
  infer_if_read s flow_id c (context, err e) =
      (record s { contexts = insert flow_id context s.contexts }, err e)

  abbrev pub with_state :
      Server E J R → ℤ → Callback E J → FlowContext R → Option J → Server E J R × Result (Unit {0})
  with_state s flow_id c context none =
      infer_if_read s flow_id c (record context { current = [] }, err json_error)
  with_state s flow_id c context (some state) =
      infer_if_read s flow_id c (format_state json real context state)

  abbrev pub control :
      Server E J R → ℤ → Callback E J → Option (FlowContext R) → Server E J R × Result (Unit {0})
  control s flow_id c none = (s, ok tt)
  control s flow_id c (some context) = with_state s flow_id c context (json.at c.message Key.state)

  -- `handle_congestion_control`: an unknown flow is logged, and gets no answer.
  unfoldable pub handle_congestion_control :
      Server E J R → ℤ → Callback E J → Server E J R × Result (Unit {0})
  handle_congestion_control s flow_id c = control s flow_id c (lookup flow_id s.contexts)

  -- The `switch` of `handle_receive`.
  unfoldable pub dispatch :
      Server E J R → MessageType → ℤ → Callback E J → ℤ → Server E J R × Result (Unit {0})
  dispatch s start flow_id c random = handle_flow_init s flow_id c random
  dispatch s alive flow_id c random = handle_congestion_control s flow_id c
  dispatch s finish flow_id c random = (handle_flow_removal s flow_id, ok tt)
  dispatch s _ flow_id c random = (s, ok tt)

  -- `start()` arms the next receive; an exception skips it.
  abbrev pub rearm : Server E J R × Result (Unit {0}) → Server E J R × Next
  rearm (s, ok _) = (s, listening)
  rearm (s, err e) = (s, threw e)

  abbrev pub handle_head : Server E J R → E → J → ℤ → Result (ℤ × ℤ) → Server E J R × Next
  handle_head s peer message random (ok (type, flow_id)) =
      rearm (dispatch s (type_of type) flow_id (record { peer = peer; message = message }) random)
  handle_head s peer message random (err e) = (s, threw e)

  abbrev pub handle_text : Server E J R → E → Option J → ℤ → Server E J R × Next
  handle_text s peer none random = (s, threw json_error)
  handle_text s peer (some message) random =
      handle_head s peer message random (read_head json real message)

  -- The datagram, once its length is known: an incomplete message returns without `start()`.
  -- `bytes_transferred - 2` is computed in 64 bits.
  abbrev pub handle_length : Server E J R → E → List ℕ → ℕ → ℤ → Option ℕ → Server E J R × Next
  handle_length s peer buffer transferred random none = (s, threw undefined)
  handle_length s peer buffer transferred random (some n) =
      if n == (transferred + 2 ^ 64 - 2) % 2 ^ 64
      then handle_text s peer (json.parse (take n (drop 2 buffer))) random
      else (s, dropped)

  -- `handle_receive`: `buffer` begins with the datagram, of `transferred` bytes. asio fills no more
  -- than the 1024 bytes of `recv_buffer_`, and reports no more: a longer datagram is cut.
  unfoldable pub handle_receive : Server E J R → Bool → E → List ℕ → ℕ → ℤ → Server E J R × Next
  handle_receive s true peer buffer transferred random = (s, listening)
  handle_receive s false peer buffer transferred random =
      let held = take recv_buffer_size buffer in
      handle_length s peer held (min transferred recv_buffer_size) random (get_uint16 held)
