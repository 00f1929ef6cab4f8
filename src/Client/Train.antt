-- ===== src/Client/Train.antt =====
-- client.cc: the client that is trained. It reports to a controller over a Unix socket, which
-- answers at its own time, and may ask for observations in between.
use astraea_open_source.Prelude.{
  ℕ, ℤ, minus_one, Bool, true, false, ◌==◌, if◌then◌else◌, List, [], ◌∷◌, Option, none, some,
  length,
}
use astraea_open_source.Result.{
  Result, ok, err, runtime_error, unix_error, null_pointer, json_error, or_throw,
}
use astraea_open_source.Wire.{frame}
use astraea_open_source.Json.{Json, Key}
use astraea_open_source.Real.{Real}
use astraea_open_source.TcpInfo.{TcpInfo}
use astraea_open_source.DeepCc.{DeepCc, RequestType, get_tcp_deepcc_info_json, set_tcp_cwnd}
use astraea_open_source.Service.{MessageType, init, finish, alive, observe, type_of, read_int}
use astraea_open_source.Client.{
  Letter, letter_a, letter_c, letter_f, letter_i, letter_p, letter_t, Options, assign,
  parse_options, Effect, send, set_disconnected, remove_fd, exit, ipc_connect, ignore_sigpipe, Run,
  ◌>>=◌, ◌>>◌, lift, perform, attempt, World, stoi, open_flow, run_threads, put_int, put_type,
}

-- The `switch` of `main`; `usage_error` throws as `default` does.
unfoldable pub set_option : Letter → Option (List ℕ) → Options → Result Options
set_option letter_a arg o = assign arg (λ t. record o { ip = t })
set_option letter_c arg o = assign arg (λ t. record o { cong_ctl = t })
set_option letter_f arg o = assign arg (λ t. record o { id = t })
set_option letter_i arg o = assign arg (λ t. record o { ipc_file = t })
set_option letter_p arg o = assign arg (λ t. record o { service = t })
set_option letter_t arg o = assign arg (λ t. record o { interval = t })
set_option _ arg o = err runtime_error

module _ {J R : Type 0} (json : Json J R) where
  -- The `message` of `ipc_send_message`.
  unfoldable pub ipc_message : ℤ → MessageType → J → ℤ → ℤ → J
  ipc_message flow_id type state observer step =
      put_type json (put_int json (json.put json.object Key.state state) Key.flow_id flow_id) type
        observer step

  -- `ipc_send_message` on a socket that is there
  unfoldable pub ipc_send_message : ℤ → MessageType → J → ℤ → ℤ → Effect J
  unfolding ipc_message
  ipc_send_message flow_id type state observer step =
      send (frame (json.dump (ipc_message flow_id type state observer step)))

  -- `signal_handler` on one of its signals. Without a socket, `ipc->fd_num()` follows a null pointer.
  unfoldable pub signal_handler : ℤ → Bool → Run J (Unit {0})
  unfolding ipc_send_message
  signal_handler flow_id true = do
    perform (ipc_send_message flow_id finish json.object minus_one minus_one)
    perform remove_fd
    perform set_disconnected
    perform exit
  signal_handler flow_id false = lift (err null_pointer)

  -- `setup_ipc_socket`
  unfoldable pub setup_ipc_socket : World → List ℕ → ℤ → Run J (Unit {0})
  unfolding ipc_send_message
  setup_ipc_socket world ipc_file flow_id = do
    lift (if world.ipc_file_usable then ok tt else err runtime_error)
    attempt (ipc_connect ipc_file) unix_error world.ipc_accepts
    perform (ipc_send_message flow_id init json.object minus_one minus_one)

  -- `if (not id.empty())`
  abbrev pub flow_of : World → List ℕ → Run J ℤ
  flow_of world [] = lift (ok minus_one)
  flow_of world (c ∷ text) = stoi world (c ∷ text)

  -- `if (not ipc_file.empty())`: the control interval, if there is a controller.
  unfoldable pub setup_control : World → Options → ℤ → Run J (Option ℤ)
  unfolding setup_ipc_socket
  setup_control world o flow_id = if length o.ipc_file == 0 then lift (ok none) else (do
    setup_ipc_socket world o.ipc_file flow_id
    interval ← stoi world o.interval
    lift (ok (some interval)))

  -- `main`, once the command line is read
  unfoldable pub launch : World → Options → Run J (Unit {0})
  unfolding setup_control open_flow run_threads
  launch world o = do
    flow_id ← flow_of world o.id
    control ← setup_control world o flow_id
    open_flow [] world o
    attempt ignore_sigpipe runtime_error world.ignores_sigpipe
    run_threads control

  -- `main`
  unfoldable pub main : World → ℕ → ℕ → List (Letter × Option (List ℕ)) → Run J (Unit {0})
  unfolding parse_options launch set_option
  main world argc optind args = do
    o ← lift (parse_options set_option argc optind args)
    launch world o

module _ {J R : Type 0} (json : Json J R) (real : Real R) where
  -- `do_congestion_control`: the report goes out, and no answer is waited for.
  unfoldable pub do_congestion_control : DeepCc → ℤ → ℕ → Option TcpInfo → DeepCc × Run J (Unit {0})
  unfolding ipc_send_message
  do_congestion_control sock flow_id now reply =
      let (after, report) =
        get_tcp_deepcc_info_json json real sock RequestType.request_action now reply in
      (
        after,
        do
          state ← lift report
          perform (ipc_send_message json flow_id alive state minus_one minus_one),
      )

  -- An observation for an observer, in the callback of `control_thread`.
  abbrev pub observation : DeepCc → ℤ → ℕ → Option TcpInfo → ℤ → ℤ → DeepCc × Run J (Unit {0})
  observation sock flow_id now reply observer step =
      let (after, report) = get_tcp_deepcc_info_json json real sock RequestType.observe now reply in
      (
        after,
        do state ← lift report; perform (ipc_send_message json flow_id observe state observer step),
      )

  abbrev pub observed :
      DeepCc → ℤ → ℕ → Option TcpInfo → Result ℤ → Result ℤ → DeepCc × Run J (Unit {0})
  observed sock flow_id now reply (ok observer) (ok step) =
      observation sock flow_id now reply observer step
  observed sock flow_id now reply (ok observer) (err e) = (sock, lift (err e))
  observed sock flow_id now reply (err e) step = (sock, lift (err e))

  -- The branches of the callback; a type that is neither is passed over.
  abbrev pub on_type :
      DeepCc → ℤ → ℕ → Option TcpInfo → Bool → J → MessageType → DeepCc × Run J (Unit {0})
  on_type sock flow_id now reply accepted message observe =
      observed sock flow_id now reply (read_int json real message Key.observer)
        (read_int json real message Key.step)
  on_type sock flow_id now reply accepted message alive = (
    sock,
    do
      flow ← lift (read_int json real message Key.flow_id)
      cwnd ← lift (read_int json real message Key.cwnd)
      given ← lift (set_tcp_cwnd sock cwnd accepted)
      perform (Effect.set_tcp_cwnd given),
  )
  on_type sock flow_id now reply accepted message _ = (sock, lift (ok tt))

  abbrev pub on_parsed :
      DeepCc → ℤ → ℕ → Option TcpInfo → Bool → Result J → DeepCc × Run J (Unit {0})
  on_parsed sock flow_id now reply accepted (err e) = (sock, lift (err e))
  on_parsed sock flow_id now reply accepted (ok message) =
      elim (read_int json real message Key.type) [
        | ok type ↦ on_type sock flow_id now reply accepted message (type_of type)
        | err e ↦ (sock, lift (err e))
      ]

  -- The callback of `control_thread`, on the text of a message.
  unfoldable pub on_message :
      DeepCc → ℤ → ℕ → Option TcpInfo → Bool → List ℕ → DeepCc × Run J (Unit {0})
  on_message sock flow_id now reply accepted text =
      on_parsed sock flow_id now reply accepted (or_throw json_error (json.parse text))
