-- ===== src/Client/Helper.antt =====
-- client_eval.cc: the client that starts a helper process of its own and asks it for windows.
use astraea_open_source.Prelude.{
  ℕ, ℤ, pos, minus_one, Bool, true, false, not, ◌&&◌, ◌||◌, ◌==◌, if◌then◌else◌, List, [], ◌∷◌,
  ◌++◌, Option, none, some, length,
}
use astraea_open_source.Result.{
  Result, ok, err, runtime_error, unix_error, not_joinable, json_error, or_throw,
}
use astraea_open_source.Json.{Json}
use astraea_open_source.Real.{Real}
use astraea_open_source.TcpInfo.{TcpInfo}
use astraea_open_source.DeepCc.{DeepCc, RequestType, get_tcp_deepcc_info_json, set_tcp_cwnd}
use astraea_open_source.Service.{alive}
use astraea_open_source.Client.{
  Letter, letter_a, letter_c, letter_f, letter_h, letter_l, letter_m, letter_p, letter_t, Options,
  assign, parse_options, Effect, receive, exit, close_log, log_row, ignore_sigpipe, Run, ◌>>=◌,
  ◌>>◌, lift, perform, attempt, World, astraea, same_text, create_directory, ipc_bind, ipc_listen,
  ipc_accept, start_helper, signal_helper, start_control, start_monitor, start_data, join_data,
  join_control, open_flow, perf_row,
}
use astraea_open_source.Client.Train
use astraea_open_source.Client.Unix

-- The `switch` of `main`
unfoldable pub set_option : Letter → Option (List ℕ) → Options → Result Options
set_option letter_a arg o = assign arg (λ t. record o { ip = t })
set_option letter_c arg o = assign arg (λ t. record o { cong_ctl = t })
set_option letter_f arg o = assign arg (λ t. record o { id = t })
set_option letter_h arg o = assign arg (λ t. record o { pyhelper = t })
set_option letter_l arg o = assign arg (λ t. record o { perf_log_path = t })
set_option letter_m arg o = assign arg (λ t. record o { model = t })
set_option letter_p arg o = assign arg (λ t. record o { service = t })
set_option letter_t arg o = assign arg (λ t. record o { interval = t })
set_option _ arg o = err runtime_error

-- `astraea_ipc`, and the file in it
abbrev pub ipc_dir : List ℕ
ipc_dir = 97 ∷ 115 ∷ 116 ∷ 114 ∷ 97 ∷ 101 ∷ 97 ∷ 95 ∷ 105 ∷ 112 ∷ 99 ∷ []

abbrev pub ipc_file : World → List ℕ
ipc_file world = ipc_dir ++ (47 ∷ astraea) ++ world.pid

-- `--ipc-path` and `--model-path`
abbrev ipc_path_flag : List ℕ
ipc_path_flag = 45 ∷ 45 ∷ 105 ∷ 112 ∷ 99 ∷ 45 ∷ 112 ∷ 97 ∷ 116 ∷ 104 ∷ []

abbrev model_path_flag : List ℕ
model_path_flag = 45 ∷ 45 ∷ 109 ∷ 111 ∷ 100 ∷ 101 ∷ 108 ∷ 45 ∷ 112 ∷ 97 ∷ 116 ∷ 104 ∷ []

unfoldable pub prog_args : World → Options → List (List ℕ)
prog_args world o =
    o.pyhelper
    ∷ ipc_path_flag
    ∷ (world.current_path ++ (47 ∷ ipc_file world))
    ∷ model_path_flag
    ∷ o.model
    ∷ []

-- The condition under which the learned policy is used.
abbrev pub wants_helper : Options → Bool
wants_helper o = same_text o.cong_ctl astraea && not (length o.pyhelper == 0 || length o.model == 0)

-- `signal_handler` on one of its signals: whether there is a log, and a helper, which `kill` reaches.
unfoldable pub signal_handler : {J : Type 0} → Bool → Bool → List (Effect J)
signal_handler logging helped =
    (if logging then close_log ∷ [] else [])
    ++ (if helped then signal_helper 9 ∷ [] else [])
    ++ (exit ∷ [])

module _ {J R : Type 0} (json : Json J R) where
  -- The branch that starts the helper: its control interval. The interval is read after the helper
  -- was started.
  unfoldable pub start : World → Options → Run J ℤ
  unfolding prog_args
  start world o = do
    lift (if world.exists o.pyhelper then ok tt else err runtime_error)
    lift (if world.exists o.model then ok tt else err runtime_error)
    attempt (create_directory ipc_dir) unix_error world.creates_directory
    attempt (ipc_bind (ipc_file world)) unix_error world.binds
    attempt ipc_listen unix_error world.listens
    attempt (start_helper (prog_args world o)) unix_error world.forks
    interval ← Unix.interval_of json world o.interval
    attempt ipc_accept unix_error world.helper_connects
    lift (ok interval)

  unfoldable pub setup_helper : World → Options → Run J (Option ℤ)
  unfolding start
  setup_helper world o =
      if wants_helper o
      then (start world o >>= λ interval. lift (ok (some interval)))
      else lift (ok none)

  -- The threads: the control thread with a helper, the monitor for another congestion control with a
  -- log, and neither otherwise, when `ct.join()` throws. `monitored` is the test for the second.
  unfoldable pub run_threads : Option ℤ → Bool → Run J (Unit {0})
  run_threads (some interval) monitored =
      (start_control interval ∷ start_data ∷ join_data ∷ join_control ∷ [], ok tt)
  run_threads none true = (start_monitor ∷ start_data ∷ join_data ∷ join_control ∷ [], ok tt)
  run_threads none false = (start_data ∷ join_data ∷ [], err not_joinable)

  abbrev pub is_monitored : Options → Bool
  is_monitored o = not (same_text o.cong_ctl astraea) && not (length o.perf_log_path == 0)

  -- `main`, once the command line is read; `global_flow_id` starts with -1.
  unfoldable pub launch : World → Options → Run J (Unit {0})
  unfolding setup_helper open_flow run_threads Unix.setup_log
  launch world o = do
    flow_id ← Train.flow_of json world o.id
    control ← setup_helper world o
    open_flow [] world o
    Unix.setup_log json world o.perf_log_path
    run_threads control (is_monitored o)

  -- `main`
  unfoldable pub main : World → ℕ → ℕ → List (Letter × Option (List ℕ)) → Run J (Unit {0})
  unfolding parse_options launch set_option
  main world argc optind args = do
    attempt ignore_sigpipe runtime_error world.ignores_sigpipe
    o ← lift (parse_options set_option argc optind args)
    launch world o

module _ {J R : Type 0} (json : Json J R) (real : Real R) where
  -- A row of the log, with the window that is given.
  abbrev pub log : J → ℤ → Bool → Run J (Unit {0})
  log state cwnd logging =
      if logging
      then (do row ← lift (or_throw json_error (perf_row json state cwnd)); perform (log_row row))
      else lift (ok tt)

  -- `do_congestion_control`: `answer` is what the two reads give or throw. An answer without a window
  -- is thrown on.
  unfoldable pub do_congestion_control :
      DeepCc → ℤ → ℕ → Option TcpInfo → Result (List ℕ) → Bool → Bool → DeepCc × Run J (Unit {0})
  unfolding Train.ipc_send_message Unix.parse_action
  do_congestion_control sock flow_id now reply answer accepted logging =
      let (after, report) =
        get_tcp_deepcc_info_json json real sock RequestType.request_action now reply in
      (
        after,
        do
          state ← lift report
          perform (Train.ipc_send_message json flow_id alive state minus_one minus_one)
          text ← lift answer
          perform (receive text)
          cwnd ← lift (Unix.parse_action json real text)
          given ← lift (set_tcp_cwnd after cwnd accepted)
          perform (Effect.set_tcp_cwnd given)
          log state cwnd logging,
      )

  -- A round of `do_monitor`
  unfoldable pub do_monitor : DeepCc → ℕ → Option TcpInfo → Bool → DeepCc × Run J (Unit {0})
  do_monitor sock now reply logging =
      let (after, report) =
        get_tcp_deepcc_info_json json real sock RequestType.request_action now reply in
      (after, do state ← lift report; log state (pos 0) logging)
