-- ===== src/Client/Passive.antt =====
-- passive_client.cc: the client that reports only when its controller asks it to.
use astraea_open_source.Prelude.{
  ℕ, ℤ, pos, Bool, true, false, ◌==◌, ◌==ℤ◌, if◌then◌else◌, List, [], ◌∷◌, Option, none, some,
  length,
}
use astraea_open_source.Result.{
  Result, ok, err, runtime_error, unix_error, undefined, json_error, terminated,
}
use astraea_open_source.Json.{Json, Key}
use astraea_open_source.Real.{Real}
use astraea_open_source.TcpInfo.{TcpInfo}
use astraea_open_source.DeepCc.{DeepCc, RequestType, get_tcp_deepcc_info_json, set_tcp_cwnd}
use astraea_open_source.Service.{read_int}
use astraea_open_source.Wire.{frame}
use astraea_open_source.Poller.{ResultType}
use astraea_open_source.Client.{
  Letter, Options, parse_options, Effect, send, exit, ipc_connect, start_control, start_data,
  join_data, Run, ◌>>=◌, ◌>>◌, lift, perform, attempt, World, stoi, open_flow, put_int,
}
use astraea_open_source.Client.Train

module _ {J R : Type 0} (json : Json J R) where
  -- The message with which the client makes itself known, and the one with which it ends.
  abbrev pub greeting : Key → ℤ → J
  greeting key flow_id =
      put_int json
        (json.put (put_int json json.object Key.tun_id flow_id) Key.state (json.of_text [])) key
        (pos 1)

  -- `signal_handler` on one of its signals, with whether the global `ipc` is set.
  unfoldable pub signal_handler : ℤ → Bool → List (Effect J)
  signal_handler flow_id true = send (frame (json.dump (greeting Key.finish flow_id))) ∷ exit ∷ []
  signal_handler flow_id false = exit ∷ []

  unfoldable pub setup_ipc_socket : World → List ℕ → ℤ → Run J (Unit {0})
  setup_ipc_socket world ipc_file flow_id = do
    lift (if world.ipc_file_usable then ok tt else err runtime_error)
    attempt (ipc_connect ipc_file) unix_error world.ipc_accepts
    perform (send (frame (json.dump (greeting Key.id flow_id))))

  -- `if (not ipc_file.empty())`: the control interval, if there is a controller. The socket goes
  -- into a variable of `main` with the name of the global one, which stays null.
  unfoldable pub setup_control : World → Options → ℤ → Run J (Option ℤ)
  unfolding setup_ipc_socket
  setup_control world o flow_id = if length o.ipc_file == 0 then lift (ok none) else (do
    setup_ipc_socket world o.ipc_file flow_id
    interval ← stoi world o.interval
    lift (ok (some interval)))

  -- The threads: only the data thread is joined, and a control thread that still runs at the end of
  -- `main` ends the program.
  unfoldable pub run_threads : Option ℤ → Run J (Unit {0})
  run_threads none = (start_data ∷ join_data ∷ [], ok tt)
  run_threads (some interval) =
      (start_control interval ∷ start_data ∷ join_data ∷ [], err terminated)

  -- `main`, once the command line is read
  unfoldable pub launch : World → Options → Run J (Unit {0})
  unfolding setup_control open_flow run_threads
  launch world o = do
    flow_id ← Train.flow_of json world o.id
    control ← setup_control world o flow_id
    open_flow [] world o
    run_threads control

  -- `main`, whose `switch` is that of client.cc
  unfoldable pub main : World → ℕ → ℕ → List (Letter × Option (List ℕ)) → Run J (Unit {0})
  unfolding parse_options launch Train.set_option
  main world argc optind args = do
    o ← lift (parse_options Train.set_option argc optind args)
    launch world o

module _ {J R : Type 0} (json : Json J R) (real : Real R) where
  -- The three numbers of a request; a missing one is a `runtime_error`.
  abbrev pub three : Result ℤ → Result ℤ → Result ℤ → Result (ℤ × ℤ × ℤ)
  three (ok cwnd) (ok flow) (ok msg) = ok (cwnd, flow, msg)
  three _ _ _ = err runtime_error

  unfoldable pub read_request : J → Result (ℤ × ℤ × ℤ)
  read_request fields =
      three (read_int json real fields Key.cwnd) (read_int json real fields Key.tun_id)
        (read_int json real fields Key.msg)

  -- The report for a flow. The callback ends without a `return`, though it is to give a result.
  unfoldable pub report_state : DeepCc → ℤ → ℕ → Option TcpInfo → DeepCc × Run J ResultType
  report_state sock flow now reply =
      let (after, report) =
        get_tcp_deepcc_info_json json real sock RequestType.request_action now reply in
      (
        after,
        do
          state ← lift report
          perform (
              send (
                frame (
                  json.dump (put_int json (json.put json.object Key.state state) Key.tun_id flow))))
          lift (err undefined),
      )

  -- The callback of `control_thread`, on the text of a request; the window is set only if `msg` is 1.
  unfoldable pub on_request :
      DeepCc → ℕ → Option TcpInfo → Bool → Result (ℤ × ℤ × ℤ) → DeepCc × Run J ResultType
  unfolding report_state
  on_request sock now reply accepted (err e) = (sock, lift (err e))
  on_request sock now reply accepted (ok (cwnd, flow, msg)) =
      let (after, rest) = report_state sock flow now reply in
      if msg ==ℤ pos 1
      then elim (set_tcp_cwnd sock cwnd accepted) [
        | ok given ↦ (after, do perform (Effect.set_tcp_cwnd given); rest)
        | err e ↦ (sock, lift (err e))
      ]
      else (after, rest)

  unfoldable pub on_message :
      DeepCc → ℕ → Option TcpInfo → Bool → List ℕ → DeepCc × Run J ResultType
  unfolding read_request on_request
  on_message sock now reply accepted text = elim (json.parse text) [
    | none ↦ (sock, lift (err json_error))
    | some fields ↦ on_request sock now reply accepted (read_request fields)
  ]
