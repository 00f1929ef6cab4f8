-- ===== src/Client.antt =====
-- The sending programs: client.cc (the client of a training environment), client_eval_batch.cc and
-- client_eval_batch_udp.cc (the clients of the inference service), client_eval.cc (the client with a
-- helper process of its own) and passive_client.cc (the client that reports when asked). Here: the command line, the calls
-- that a program makes, and the messages. A string is a list of bytes.
pub mod Train
pub mod Unix
pub mod Udp
pub mod Helper
pub mod Passive
pub mod Trace
pub mod Setup
pub mod Launch
pub mod Delivery
pub mod Control
pub mod Ending
pub mod Polling
pub mod Threads
pub mod Tests
use astraea_open_source.Prelude.{
  ℕ, ◌%◌, ◌^◌, ◌/◌, ℤ, pos, Bool, true, false, ltb, ◌==◌, ◌&&◌, if◌then◌else◌, List, [], ◌∷◌, ◌++◌,
  Option, none, some, length, to_uint64,
}
use astraea_open_source.Result.{
  Error, Result, ok, err, runtime_error, invalid_argument, not_joinable, undefined, json_error,
  or_throw,
}
use astraea_open_source.Json.{Json, Key}
use astraea_open_source.Service.{
  MessageType, type_code, init, start, finish, alive, observe, unknown,
}
use astraea_open_source.Wire.{frame}

-- The values of `getopt_long`: the letters of the options, `'?'`, and any other.
pub data Letter : Type 0 where
  letter_a letter_c letter_f letter_h letter_i letter_l letter_m letter_p letter_t : Letter
  question other : Letter

pub record Options : Type 0 where
  pub ip : List ℕ
  pub service : List ℕ
  pub cong_ctl : List ℕ
  pub ipc_file : List ℕ
  pub pyhelper : List ℕ
  pub model : List ℕ
  pub interval : List ℕ
  pub id : List ℕ
  pub perf_log_path : List ℕ

abbrev pub no_options : Options
no_options = record {
  ip = [];
  service = [];
  cong_ctl = [];
  ipc_file = [];
  pyhelper = [];
  model = [];
  interval = [];
  id = [];
  perf_log_path = [];
}

-- A string set to `optarg`: a null pointer, which an optional argument leaves, is no string.
abbrev pub assign : Option (List ℕ) → (List ℕ → Options) → Result Options
assign none f = err undefined
assign (some text) f = ok (f text)

-- The loop of `main` over the command line, by the `switch` of the program, and the tests of `argc`
-- and `optind` around it.
abbrev pub parse_all :
    (Letter → Option (List ℕ) → Options → Result Options)
    → List (Letter × Option (List ℕ))
    → Options
    → Result Options
parse_all switch [] o = ok o
parse_all switch ((letter, optarg) ∷ rest) o = elim (switch letter optarg o) [
  | ok o' ↦ parse_all switch rest o'
  | err e ↦ err e
]

unfoldable pub parse_options :
    (Letter → Option (List ℕ) → Options → Result Options)
    → ℕ
    → ℕ
    → List (Letter × Option (List ℕ))
    → Result Options
parse_options switch argc optind args =
    if ltb argc 1 then err runtime_error else elim (parse_all switch args no_options) [
      | ok o ↦ if ltb argc optind then err runtime_error else ok o
      | err e ↦ err e
    ]

-- The calls that change something outside the program, in the order in which they succeed. `J` is
-- the type of the values in a row of the performance log.
pub data Effect (J : Type 0) : Type 0 where
  -- to the controller or the inference service
  ipc_connect : List ℕ → Effect J
  send : List ℕ → Effect J
  receive : List ℕ → Effect J
  remove_fd set_disconnected : Effect J
  -- to the helper: its process, with its arguments, and the socket that it connects to
  create_directory ipc_bind : List ℕ → Effect J
  ipc_listen ipc_accept : Effect J
  start_helper : List (List ℕ) → Effect J
  signal_helper : ℕ → Effect J
  -- on the TCP socket
  set_receive_timeout set_send_timeout set_reuseaddr : Effect J
  connect : List ℕ → ℤ → Effect J
  set_congestion_control : List ℕ → Effect J
  set_nodelay : Effect J
  enable_deepcc : ℤ → Effect J
  set_tcp_cwnd : ℤ → Effect J
  -- in the process
  ignore_sigpipe : Effect J
  open_log : List ℕ → Effect J
  log_header close_log : Effect J
  log_row : List J → Effect J
  start_control : ℤ → Effect J
  start_monitor start_data join_data join_control exit : Effect J

-- What a program does: its calls, and how it ends.
abbrev pub Run : Type 0 → Type 0 → Type 0
Run J A = List (Effect J) × Result A

abbrev pub continue : {J A B : Type 0} → List (Effect J) → Result A → (A → Run J B) → Run J B
continue es (ok a) f = (es ++ (f a).0, (f a).1)
continue es (err e) f = (es, err e)

infixl 5 ◌>>=◌ ◌>>◌
abbrev pub ◌>>=◌ : {J A B : Type 0} → Run J A → (A → Run J B) → Run J B
m >>= f = continue m.0 m.1 f

abbrev pub ◌>>◌ : {J B : Type 0} → Run J (Unit {0}) → Run J B → Run J B
m >> k = m >>= λ _. k

abbrev pub lift : {J A : Type 0} → Result A → Run J A
lift r = ([], r)

abbrev pub perform : {J : Type 0} → Effect J → Run J (Unit {0})
perform e = (e ∷ [], ok tt)

-- A call that throws `e` where it does not succeed.
abbrev pub attempt : {J : Type 0} → Effect J → Error → Bool → Run J (Unit {0})
attempt c e true = perform c
attempt c e false = lift (err e)

-- What the programs are told by the world: `stoi`, with `none` for its exceptions, and whether each
-- call succeeds. `reply` is the first message of the inference service, and `sent` what `sendto` comes
-- to for the first message over UDP.
pub record World : Type 0 where
  pub stoi : List ℕ → Option ℤ
  pub ipc_file_usable : Bool
  pub ipc_accepts : Bool
  pub reply : Result (List ℕ)
  pub sent : Result (Unit {0})
  pub address_known : Bool
  pub takes_reuseaddr : Bool
  pub accepts : Bool
  pub knows_congestion_control : Bool
  pub takes_nodelay : Bool
  pub takes_deepcc : Bool
  pub ignores_sigpipe : Bool
  pub log_good : Bool
  pub exists : List ℕ → Bool
  pub creates_directory : Bool
  pub pid : List ℕ
  pub current_path : List ℕ
  pub binds : Bool
  pub listens : Bool
  pub forks : Bool
  pub helper_connects : Bool

abbrev pub cubic : List ℕ
cubic = 99 ∷ 117 ∷ 98 ∷ 105 ∷ 99 ∷ []

abbrev pub astraea : List ℕ
astraea = 97 ∷ 115 ∷ 116 ∷ 114 ∷ 97 ∷ 101 ∷ 97 ∷ []

abbrev pub same_text : List ℕ → List ℕ → Bool
same_text [] [] = true
same_text [] (y ∷ ys) = false
same_text (x ∷ xs) [] = false
same_text (x ∷ xs) (y ∷ ys) = (x == y) && same_text xs ys

abbrev pub stoi : {J : Type 0} → World → List ℕ → Run J ℤ
stoi world text = lift (or_throw invalid_argument (world.stoi text))

-- `Address address(ip, port)`
abbrev pub resolve : {J : Type 0} → World → Run J (Unit {0})
resolve world = lift (if world.address_known then ok tt else err runtime_error)

-- What follows the connection.
unfoldable pub tune : {J : Type 0} → World → Options → Run J (Unit {0})
tune world o = do
  attempt (set_congestion_control (if length o.cong_ctl == 0 then cubic else o.cong_ctl))
      Error.unix_error world.knows_congestion_control
  attempt set_nodelay Error.unix_error world.takes_nodelay
  attempt (enable_deepcc (pos 2)) Error.unix_error world.takes_deepcc

-- From `int port = stoi(service)` on: the options of the new socket, the connection, and only then
-- the plugin of the kernel. `asked` are options that a program asks for first, without a look at the
-- results of the calls.
unfoldable pub open_flow : {J : Type 0} → List (Effect J) → World → Options → Run J (Unit {0})
unfolding tune
open_flow asked world o = do
  port ← stoi world o.service
  resolve world
  (asked, ok tt)
  attempt set_reuseaddr Error.unix_error world.takes_reuseaddr
  attempt (connect o.ip port) Error.unix_error world.accepts
  tune world o

-- The threads: the control thread only if there is someone to ask. `dt.join()` returns when
-- `send_traffic` is cleared; `ct.join()` throws if `ct` was never started.
unfoldable pub run_threads : {J : Type 0} → Option ℤ → Run J (Unit {0})
run_threads none = (start_data ∷ join_data ∷ [], err not_joinable)
run_threads (some interval) =
    (start_control interval ∷ start_data ∷ join_data ∷ join_control ∷ [], ok tt)

module _ {J R : Type 0} (json : Json J R) where
  abbrev pub put_int : J → Key → ℤ → J
  put_int j k n = json.put j k (json.of_int n)

  -- The keys that depend on the type of a message.
  abbrev pub put_type : J → MessageType → ℤ → ℤ → J
  put_type j observe observer step =
      put_int (put_int (put_int j Key.type (pos (type_code observe))) Key.observer observer)
        Key.step step
  put_type j type observer step = put_int j Key.type (pos (type_code type))

  -- A row of the performance log: values of the report, `srtt_us` divided by 8, and the window.
  unfoldable pub perf_row : J → ℤ → Option (List J)
  perf_row state cwnd = do
    min_rtt ← json.at state Key.min_rtt
    avg_urtt ← json.at state Key.avg_urtt
    cnt ← json.at state Key.cnt
    srtt_us ← json.at state Key.srtt_us
    srtt ← json.to_int srtt_us
    avg_thr ← json.at state Key.avg_thr
    thr_cnt ← json.at state Key.thr_cnt
    pacing_rate ← json.at state Key.pacing_rate
    loss_bytes ← json.at state Key.loss_bytes
    packets_out ← json.at state Key.packets_out
    retrans_out ← json.at state Key.retrans_out
    max_packets_out ← json.at state Key.max_packets_out
    kernel_cwnd ← json.at state Key.cwnd
    some (
        min_rtt
        ∷ avg_urtt
        ∷ cnt
        ∷ json.of_int (pos (to_uint64 srtt % 2 ^ 32 / 8))
        ∷ avg_thr
        ∷ thr_cnt
        ∷ pacing_rate
        ∷ loss_bytes
        ∷ packets_out
        ∷ retrans_out
        ∷ max_packets_out
        ∷ kernel_cwnd
        ∷ json.of_int cwnd
        ∷ [])
    where
      infixl 5 ◌>>=◌
      ◌>>=◌ : {A B : Type 0} → Option A → (A → Option B) → Option B
      none >>= f = none
      some x >>= f = f x
