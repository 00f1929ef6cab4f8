-- ===== src/Client/Udp.antt =====
-- client_eval_batch_udp.cc: a client of the inference service, over UDP. Its command line, its log and
-- what it makes of an action are those of client_eval_batch.cc.
use astraea_open_source.Prelude.{
  ℕ, ◌+◌, ℤ, minus_one, Bool, ◌==◌, if◌then◌else◌, List, [], ◌∷◌, Option, none, some, length, take,
  drop,
}
use astraea_open_source.Result.{Result, ok, err, runtime_error, undefined}
use astraea_open_source.Wire.{frame, get_uint16}
use astraea_open_source.Json.{Json, Key}
use astraea_open_source.Real.{Real}
use astraea_open_source.TcpInfo.{TcpInfo}
use astraea_open_source.DeepCc.{DeepCc, RequestType, get_tcp_deepcc_info_json}
use astraea_open_source.Service.{MessageType, start, finish, alive}
use astraea_open_source.Client.{
  Letter, Options, parse_options, Effect, set_receive_timeout, set_send_timeout, send, receive,
  exit, close_log, ignore_sigpipe, Run, ◌>>=◌, ◌>>◌, lift, perform, attempt, World, astraea,
  same_text, open_flow, run_threads, put_int, put_type,
}
use astraea_open_source.Client.Unix.{
  set_option, flow_of, interval_of, setup_log, interval_in, given_id, parse_action, enforce,
}

-- `udp_recv_message`, on a datagram: its first two bytes are the length of the others.
-- Of a single byte, the header ends with the string's own zero, and `msg.length() - 2` is too large.
unfoldable pub udp_recv_message : List ℕ → Result (List ℕ)
unfolding get_uint16
udp_recv_message msg = elim (get_uint16 (take 2 msg)) [
  | none ↦ if length msg == 1 then err runtime_error else err undefined
  | some data_len ↦
      if data_len + 2 == length msg then ok (take data_len (drop 2 msg)) else err runtime_error
]

-- The options of the TCP socket that `main` asks for without a look at the results of `setsockopt`.
abbrev pub timeouts : {J : Type 0} → List (Effect J)
timeouts = set_receive_timeout ∷ set_send_timeout ∷ []

module _ {J R : Type 0} (json : Json J R) where
  -- The `message` of `udp_send_message`, whose state may be left out.
  unfoldable pub udp_message : ℤ → MessageType → J → ℤ → ℤ → J
  udp_message flow_id type state observer step =
      let message =
        if json.is_empty state then json.object else json.put json.object Key.state state in
      put_type json (put_int json message Key.flow_id flow_id) type observer step

  -- `udp_send_message` on a socket that is there: a datagram to the inference service, with what
  -- `sendto` returns or throws.
  unfoldable pub udp_send_message :
      ℤ → MessageType → J → ℤ → ℤ → Result (Unit {0}) → Run J (Unit {0})
  unfolding udp_message
  udp_send_message flow_id type state observer step sent = do
    lift sent
    perform (send (frame (json.dump (udp_message flow_id type state observer step))))

  -- `signal_handler` on one of its signals: whether there is a log, and whether a server.
  unfoldable pub signal_handler : ℤ → Bool → Bool → Result (Unit {0}) → Run J (Unit {0})
  unfolding udp_send_message
  signal_handler flow_id logging served sent = do
    (if logging then perform close_log else lift (ok tt))
    (if served
        then udp_send_message flow_id finish json.object minus_one minus_one sent
        else lift (ok tt))
    perform exit

module _ {J R : Type 0} (json : Json J R) (real : Real R) where
  -- The service is asked for an id.
  unfoldable pub ask : World → ℤ → ℤ → Run J (Option (ℤ × ℤ))
  unfolding udp_send_message given_id
  ask world flow_id interval = do
    udp_send_message json flow_id start json.object minus_one minus_one world.sent
    datagram ← lift world.reply
    perform (receive datagram)
    text ← lift (udp_recv_message datagram)
    given ← lift (given_id json real text)
    lift (ok (some (interval, given)))

  -- `if (cong_ctl == "astraea")`: the control interval and the id that the service gives.
  unfoldable pub setup_service : World → Options → ℤ → Run J (Option (ℤ × ℤ))
  unfolding ask
  setup_service world o flow_id =
      if same_text o.cong_ctl astraea
      then (interval_of json world o.interval >>= λ interval. ask world flow_id interval)
      else lift (ok none)

  -- `main`, once the command line is read
  unfoldable pub launch : World → Options → Run J (Unit {0})
  unfolding setup_service setup_log open_flow run_threads
  launch world o = do
    flow_id ← flow_of json world o.id
    control ← setup_service world o flow_id
    open_flow timeouts world o
    setup_log json world o.perf_log_path
    run_threads (interval_in json real control)

  -- `main`
  unfoldable pub main : World → ℕ → ℕ → List (Letter × Option (List ℕ)) → Run J (Unit {0})
  unfolding parse_options launch set_option
  main world argc optind args = do
    attempt ignore_sigpipe runtime_error world.ignores_sigpipe
    o ← lift (parse_options set_option argc optind args)
    launch world o

  -- `do_congestion_control`: `sent` is what `sendto` returns or throws, and `answer` is the payload
  -- that `recvfrom` returns, or its exception.
  unfoldable pub do_congestion_control :
      DeepCc
      → ℤ
      → ℕ
      → Option TcpInfo
      → Result (Unit {0})
      → Result (List ℕ)
      → Bool
      → Bool
      → DeepCc × Run J (Unit {0})
  unfolding udp_send_message parse_action
  do_congestion_control sock flow_id now reply sent answer accepted logging =
      let (after, report) =
        get_tcp_deepcc_info_json json real sock RequestType.request_action now reply in
      (
        after,
        do
          state ← lift report
          udp_send_message json flow_id alive state minus_one minus_one sent
          datagram ← lift answer
          perform (receive datagram)
          text ← lift (udp_recv_message datagram)
          enforce json real after state accepted logging (parse_action json real text),
      )
