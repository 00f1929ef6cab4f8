-- ===== src/Client/Threads/Tests.antt =====
-- The theorems on the clients' threads, on two laps with an interval of 20 and two passes with a
-- buffer of two letters.
use astraea_open_source.Prelude.{
  ℕ, ◌*◌, ◌≡◌, pos, true, false, [], ◌∷◌, ◌++◌, some, replicate, arith,
}
use astraea_open_source.Result.{ok}
use astraea_open_source.Json.Tokens.{tree_json}
use astraea_open_source.Real.Thousandths.{thousandths}
use astraea_open_source.TcpInfo.Tests.{fast}
use astraea_open_source.DeepCc.{construct}
use astraea_open_source.FileDescriptor.Write.{Output, AllTake}
use astraea_open_source.Client.Threads.{
  Lap, Answers, filler, ends, data_thread, unix_control_thread, udp_control_thread,
  helper_control_thread,
}
use astraea_open_source.Client.Threads.Pace.{OnTime, control_threads-OnTime}
use astraea_open_source.Client.Threads.Data.{passes, data_thread-ends}

-- A lap whose answer is empty: a text without a window over a Unix socket, where the round goes on, and
-- the end of the thread over UDP and with a helper.
abbrev lap : ℕ → Lap Answers
lap duration = record {
  sending = true;
  duration = duration;
  late = 1;
  input = record {
    now = 100;
    reply = some fast;
    sent = ok tt;
    answer = ok [];
    accepted = true;
    logging = false;
  };
}

control_threads-OnTime_example :
    OnTime 100 20 2
      (unix_control_thread tree_json thousandths
        (pos 3)
        20
        100
        construct
        (lap 5 ∷ lap 18 ∷ [])).starts
    × OnTime 100 20 2
        (udp_control_thread tree_json thousandths
          (pos 3)
          20
          100
          construct
          (lap 5 ∷ lap 18 ∷ [])).starts
    × OnTime 100 20 2
        (helper_control_thread tree_json thousandths
          (pos 3)
          20
          100
          construct
          (lap 5 ∷ lap 18 ∷ [])).starts
control_threads-OnTime_example =
    control_threads-OnTime tree_json thousandths (pos 3) 20 2 100 construct (lap 5 ∷ lap 18 ∷ [])
      ((omega arith, omega arith), ((omega arith, omega arith), tt))

abbrev sent_before : Output
sent_before = record { delivered = 7 ∷ []; write_count = 0 }

data_thread-ends_example :
    (s' : Output) × (data_thread 2 sent_before
        (passes ((some 2 ∷ some 1 ∷ []) ∷ (some 1 ∷ some 1 ∷ []) ∷ []))
      ≡ ends s')
    × (s'.delivered ≡ 7 ∷ [] ++ replicate (2 * 2) filler)
unfolding AllTake
data_thread-ends_example =
    data_thread-ends 2 sent_before ((some 2 ∷ some 1 ∷ []) ∷ (some 1 ∷ some 1 ∷ []) ∷ [])
      (omega arith)
      (
        ((omega arith, (omega arith, tt)), omega arith),
        (((omega arith, (omega arith, tt)), omega arith), tt),
      )
