-- ===== src/Client/Tests.antt =====
-- The theorems on the clients: a run of each that ends well, and messages on their way.
use astraea_open_source.Prelude.{
  ◌++◌, replicate, ℕ, ◌≡◌, ◌⊎◌, refl, ℤ, pos, true, false, ◌==◌, List, [], ◌∷◌, Option, some, none,
  length, arith, to_int32,
}
use astraea_open_source.Result.{◌>>=◌, Result, ok}
use astraea_open_source.Wire.{frame}
use astraea_open_source.Json.{Key}
use astraea_open_source.Json.Tokens.{Tree, tree_json, tree_json_laws, print}
use astraea_open_source.Real.Thousandths.{thousandths}
use astraea_open_source.TcpInfo.Tests.{fast}
use astraea_open_source.DeepCc.{construct}
use astraea_open_source.Context.{map_action}
use astraea_open_source.FileDescriptor.{FileDescriptor, done}
use astraea_open_source.FileDescriptor.Reading.{IsLive, stream}
use astraea_open_source.Service.{response_bytes}
use astraea_open_source.Client.{
  Letter, letter_a, letter_c, letter_h, letter_i, letter_m, letter_p, letter_t, Options, Effect,
  World, parse_options, astraea,
}
use astraea_open_source.Client.Trace.{Ordered}
use astraea_open_source.Client.Train
use astraea_open_source.Client.Unix
use astraea_open_source.Client.Udp
use astraea_open_source.Client.Helper
use astraea_open_source.Client.Passive
use astraea_open_source.Client.Launch.{main-Ordered}
use astraea_open_source.Client.Ending.{train_main-ok, helper_main-ok}
use astraea_open_source.Address
use astraea_open_source.Socket.{of_fd, recvfrom}
use astraea_open_source.Client.Delivery.{recvfrom-frame, unix_recv_message-frame}
use astraea_open_source.Poller.{Revents}
use astraea_open_source.Client.Control.{last, payload_of, do_congestion_control-sets}

-- The reply `{"flow_id": 3}` to a client that starts
abbrev welcome : List ℕ
welcome = 6 ∷ 1 ∷ 1 ∷ 3 ∷ 0 ∷ []

-- A world in which every call succeeds, and the first byte of a text is its number.
abbrev first_byte : List ℕ → Option ℤ
first_byte [] = none
first_byte (c ∷ rest) = some (pos c)

abbrev world : Result (List ℕ) → World
world reply = record {
  stoi = first_byte;
  ipc_file_usable = true;
  ipc_accepts = true;
  reply = reply;
  sent = ok tt;
  takes_reuseaddr = true;
  address_known = true;
  accepts = true;
  knows_congestion_control = true;
  takes_nodelay = true;
  takes_deepcc = true;
  ignores_sigpipe = true;
  log_good = true;
  exists = λ path. true;
  creates_directory = true;
  pid = 49 ∷ [];
  current_path = 47 ∷ [];
  binds = true;
  listens = true;
  forks = true;
  helper_connects = true;
}

abbrev train_args : List (Letter × Option (List ℕ))
train_args =
    (letter_a, some (49 ∷ []))
    ∷ (letter_p, some (80 ∷ []))
    ∷ (letter_i, some (47 ∷ []))
    ∷ (letter_t, some (30 ∷ []))
    ∷ []

abbrev astraea_args : List (Letter × Option (List ℕ))
astraea_args =
    (letter_a, some (49 ∷ [])) ∷ (letter_p, some (80 ∷ [])) ∷ (letter_c, some astraea) ∷ []

main-Ordered_example :
    Ordered (Train.main tree_json (world (ok welcome)) 5 5 train_args).0
    × Ordered (Unix.main tree_json thousandths (world (ok welcome)) 5 5 train_args).0
    × Ordered (Udp.main tree_json thousandths (world (ok welcome)) 5 5 train_args).0
    × Ordered (Helper.main tree_json (world (ok welcome)) 5 5 train_args).0
    × Ordered (Passive.main tree_json (world (ok welcome)) 5 5 train_args).0
main-Ordered_example = main-Ordered tree_json thousandths (world (ok welcome)) 5 5 train_args

abbrev helper_args : List (Letter × Option (List ℕ))
helper_args = (letter_h, some (47 ∷ [])) ∷ (letter_m, some (46 ∷ [])) ∷ astraea_args

helper_main-ok_example :
    (o : Options) × (parse_options Helper.set_option 6 6 helper_args ≡ ok o)
    × ((Helper.wants_helper o ≡ true) ⊎ (Helper.is_monitored tree_json o ≡ true))
unfolding Helper.main
helper_main-ok_example = helper_main-ok tree_json (world (ok welcome)) 6 6 helper_args refl

train_main-ok_example :
    (o : Options) × (i : ℤ) × (parse_options Train.set_option 5 5 train_args ≡ ok o)
    × ((length o.ipc_file == 0) ≡ false)
    × (first_byte o.interval ≡ some i)
unfolding Train.main
train_main-ok_example = train_main-ok tree_json (world (ok welcome)) 5 5 train_args refl

recvfrom-frame_example :
    let received =
      recvfrom
        (of_fd 5)
        (some (record { payload = frame welcome; source = 2 ∷ 0 ∷ 34 ∷ 184 ∷ []; fromlen = 4 })) in
    (received.0 ≡ record { fd = 5; read_count = 1; write_count = 0 })
    × ((received.1 >>= λ got. Udp.udp_recv_message got.1) ≡ ok welcome)
unfolding Address.construct
recvfrom-frame_example =
    recvfrom-frame (of_fd 5) welcome (2 ∷ 0 ∷ 34 ∷ 184 ∷ []) 4
      (record { size = 4; addr = 2 ∷ 0 ∷ 34 ∷ 184 ∷ [] ++ replicate 124 0 }) (omega arith) refl

abbrev incoming : FileDescriptor
incoming = record {
  segments = (0 ∷ []) ∷ (2 ∷ 8 ∷ []) ∷ (9 ∷ 4 ∷ []) ∷ [];
  fails = false;
  eof = false;
  read_count = 0;
}

incoming-IsLive : IsLive incoming
incoming-IsLive = record {
  segments_ne = (omega arith, (omega arith, (omega arith, tt)));
  before_eof = refl;
  no_failure = refl;
}

unix_recv_message-frame_example :
    (fd' : FileDescriptor) × (Unix.unix_recv_message incoming ≡ done (8 ∷ 9 ∷ []) fd')
    × (stream fd' ≡ 4 ∷ [])
    × IsLive fd'
unfolding frame
unix_recv_message-frame_example =
    unix_recv_message-frame incoming (8 ∷ 9 ∷ []) (4 ∷ []) incoming-IsLive refl (omega arith)

-- A report with a window of 10, of flow 7.
abbrev inner : Tree
inner = tree_json.put tree_json.object Key.cwnd (tree_json.of_int (pos 10))

abbrev report : Tree
report =
    tree_json.put (tree_json.put tree_json.object Key.state inner) Key.flow_id
      (tree_json.of_int (pos 7))

do_congestion_control-sets_example :
    (datagram : List ℕ) × (response_bytes tree_json thousandths report (pos 500) [] ≡ ok datagram)
    × ((Udp.do_congestion_control tree_json thousandths construct
          (pos 7)
          5
          (some fast)
          (ok tt)
          (payload_of
            (recvfrom (of_fd 5) (
              some (record { payload = datagram; source = 2 ∷ 0 ∷ 34 ∷ 184 ∷ []; fromlen = 4 }))).1)
          true
          false).1.1
        ≡ ok tt)
    × (last
          (Udp.do_congestion_control tree_json thousandths construct
            (pos 7)
            5
            (some fast)
            (ok tt)
            (payload_of
              (recvfrom (of_fd 5) (
                some
                  (record { payload = datagram; source = 2 ∷ 0 ∷ 34 ∷ 184 ∷ []; fromlen = 4 }))).1)
            true
            false).1.0
        ≡ some (Effect.set_tcp_cwnd (pos 11)))
unfolding construct response_bytes to_int32 print map_action Address.construct
do_congestion_control-sets_example =
    do_congestion_control-sets tree_json thousandths tree_json_laws report inner
      (tree_json.of_int (pos 7)) (pos 500) (pos 10) (pos 11) construct (pos 7) 5 fast (of_fd 5)
      (2 ∷ 0 ∷ 34 ∷ 184 ∷ []) 4
      (record { size = 4; addr = 2 ∷ 0 ∷ 34 ∷ 184 ∷ [] ++ replicate 124 0 }) refl refl refl refl tt
      (omega arith) refl refl

abbrev hung_up : Revents
hung_up = record { error = true; readable = true; writable = false }
