-- ===== src/Client/Unix.antt =====
-- client_eval_batch.cc: a client of the inference service, over its Unix socket.
use astraea_open_source.Prelude.{
  ℕ, ℤ, pos, minus_one, Bool, ◌==◌, if◌then◌else◌, List, [], ◌∷◌, ◌++◌, Option, none, some, length,
}
use astraea_open_source.Result.{Result, ok, err, runtime_error, unix_error, json_error, or_throw}
use astraea_open_source.Wire.{frame, get_uint16}
use astraea_open_source.FileDescriptor.{
  FileDescriptor, Exactly, done, reached_eof, out_of_fuel, read_exactly,
}
use astraea_open_source.Json.{Json, Key}
use astraea_open_source.Real.{Real}
use astraea_open_source.TcpInfo.{TcpInfo}
use astraea_open_source.DeepCc.{DeepCc, RequestType, get_tcp_deepcc_info_json, set_tcp_cwnd}
use astraea_open_source.Service.{MessageType, start, finish, alive, read_int}
use astraea_open_source.Client.{
  Letter, letter_a, letter_c, letter_f, letter_l, letter_p, letter_t, Options, assign,
  parse_options, Effect, send, receive, exit, close_log, open_log, log_header, log_row, ipc_connect,
  ignore_sigpipe, Run, ◌>>=◌, ◌>>◌, lift, perform, attempt, World, stoi, astraea, same_text,
  open_flow, run_threads, put_int, put_type, perf_row,
}

-- The `switch` of `main`
unfoldable pub set_option : Letter → Option (List ℕ) → Options → Result Options
set_option letter_a arg o = assign arg (λ t. record o { ip = t })
set_option letter_c arg o = assign arg (λ t. record o { cong_ctl = t })
set_option letter_f arg o = assign arg (λ t. record o { id = t })
set_option letter_l arg o = assign arg (λ t. record o { perf_log_path = t })
set_option letter_p arg o = assign arg (λ t. record o { service = t })
set_option letter_t arg o = assign arg (λ t. record o { interval = t })
set_option _ arg o = err runtime_error

-- The part of `unix_recv_message` after the header, which has two bytes if it was read at all.
abbrev pub announced_body : Option ℕ → FileDescriptor → Exactly
announced_body none fd = out_of_fuel
announced_body (some n) fd = read_exactly fd n

abbrev pub body : Exactly → Exactly
body (done header fd) = announced_body (get_uint16 header) fd
body (reached_eof fd) = reached_eof fd
body (Exactly.failed fd) = Exactly.failed fd
body out_of_fuel = out_of_fuel

-- `unix_recv_message`: the text of the next message.
unfoldable pub unix_recv_message : FileDescriptor → Exactly
unix_recv_message fd = body (read_exactly fd 2)

-- `/tmp/astraea.sock`
abbrev pub service_path : List ℕ
service_path =
    47 ∷ 116 ∷ 109 ∷ 112 ∷ 47 ∷ 97 ∷ 115 ∷ 116 ∷ 114 ∷ 97 ∷ 101 ∷ 97 ∷ 46 ∷ 115 ∷ 111 ∷ 99 ∷ 107
    ∷ []

module _ {J R : Type 0} (json : Json J R) where
  -- The `message` of `unix_send_message`, whose state may be left out.
  unfoldable pub unix_message : ℤ → MessageType → J → ℤ → ℤ → J
  unix_message flow_id type state observer step =
      let message =
        if json.is_empty state then json.object else json.put json.object Key.state state in
      put_type json (put_int json message Key.flow_id flow_id) type observer step

  -- `unix_send_message` on a socket that is there
  unfoldable pub unix_send_message : ℤ → MessageType → J → ℤ → ℤ → Effect J
  unfolding unix_message
  unix_send_message flow_id type state observer step =
      send (frame (json.dump (unix_message flow_id type state observer step)))

  -- `signal_handler` on one of its signals: whether there is a log, and whether a server.
  unfoldable pub signal_handler : ℤ → Bool → Bool → List (Effect J)
  unfolding unix_send_message
  signal_handler flow_id logging served =
      (if logging then close_log ∷ [] else [])
      ++ (if served
          then unix_send_message flow_id finish json.object minus_one minus_one ∷ []
          else [])
      ++ (exit ∷ [])

  -- `if (not id.empty())`, and the 0 that `global_flow_id` starts with
  abbrev pub flow_of : World → List ℕ → Run J ℤ
  flow_of world [] = lift (ok (pos 0))
  flow_of world (c ∷ text) = stoi world (c ∷ text)

  -- `if (not interval.empty())`, and the 20 that `control_interval` starts with
  abbrev pub interval_of : World → List ℕ → Run J ℤ
  interval_of world [] = lift (ok (pos 20))
  interval_of world (c ∷ text) = stoi world (c ∷ text)

  -- The performance log: its file, and the names of its columns.
  unfoldable pub setup_log : World → List ℕ → Run J (Unit {0})
  setup_log world path =
      if length path == 0
      then lift (ok tt)
      else (do attempt (open_log path) runtime_error world.log_good; perform log_header)

module _ {J R : Type 0} (json : Json J R) (real : Real R) where
  -- A number of a parsed text.
  abbrev pub parsed_int : Option J → Key → Result ℤ
  parsed_int none key = err json_error
  parsed_int (some reply) key = read_int json real reply key

  -- `reply["flow_id"]` of the text of the service's first message
  unfoldable pub given_id : List ℕ → Result ℤ
  given_id text = parsed_int (json.parse text) Key.flow_id

  -- The service is asked for an id.
  unfoldable pub ask : World → ℤ → ℤ → Run J (Option (ℤ × ℤ))
  unfolding unix_send_message given_id
  ask world flow_id interval = do
    attempt (ipc_connect service_path) unix_error world.ipc_accepts
    perform (unix_send_message json flow_id start json.object minus_one minus_one)
    text ← lift world.reply
    perform (receive text)
    given ← lift (given_id text)
    lift (ok (some (interval, given)))

  -- `if (cong_ctl == "astraea")`: the control interval, if the service is asked. The id that it
  -- gives takes the place of `global_flow_id`, and comes with the interval.
  unfoldable pub setup_service : World → Options → ℤ → Run J (Option (ℤ × ℤ))
  unfolding ask
  setup_service world o flow_id =
      if same_text o.cong_ctl astraea
      then (interval_of json world o.interval >>= λ interval. ask world flow_id interval)
      else lift (ok none)

  abbrev pub interval_in : Option (ℤ × ℤ) → Option ℤ
  interval_in none = none
  interval_in (some (interval, flow_id)) = some interval

  -- `main`, once the command line is read
  unfoldable pub launch : World → Options → Run J (Unit {0})
  unfolding setup_service setup_log open_flow run_threads
  launch world o = do
    flow_id ← flow_of json world o.id
    control ← setup_service world o flow_id
    open_flow [] world o
    setup_log json world o.perf_log_path
    run_threads (interval_in control)

  -- `main`
  unfoldable pub main : World → ℕ → ℕ → List (Letter × Option (List ℕ)) → Run J (Unit {0})
  unfolding parse_options launch set_option
  main world argc optind args = do
    attempt ignore_sigpipe runtime_error world.ignores_sigpipe
    o ← lift (parse_options set_option argc optind args)
    launch world o

  -- The end of `do_congestion_control`, with the answer's text. A text that holds no window is
  -- logged, and the window stays.
  abbrev pub enforce : DeepCc → J → Bool → Bool → Result ℤ → Run J (Unit {0})
  enforce sock state accepted logging (err e) = lift (ok tt)
  enforce sock state accepted logging (ok cwnd) = do
    given ← lift (set_tcp_cwnd sock cwnd accepted)
    perform (Effect.set_tcp_cwnd given)
    (if logging
        then (do row ← lift (or_throw json_error (perf_row json state cwnd)); perform (log_row row))
        else lift (ok tt))

  -- `cwnd = json::parse(data).at("cwnd")`
  unfoldable pub parse_action : List ℕ → Result ℤ
  parse_action text = parsed_int (json.parse text) Key.cwnd

  -- `do_congestion_control`: `answer` is what `unix_recv_message` returns or throws, and `logging`
  -- says whether there is a log.
  unfoldable pub do_congestion_control :
      DeepCc → ℤ → ℕ → Option TcpInfo → Result (List ℕ) → Bool → Bool → DeepCc × Run J (Unit {0})
  unfolding unix_send_message parse_action
  do_congestion_control sock flow_id now reply answer accepted logging =
      let (after, report) =
        get_tcp_deepcc_info_json json real sock RequestType.request_action now reply in
      (
        after,
        do
          state ← lift report
          perform (unix_send_message json flow_id alive state minus_one minus_one)
          text ← lift answer
          perform (receive text)
          enforce after state accepted logging (parse_action text),
      )
