-- ===== src/Kernel/Tests.antt =====
-- The theorems on kernel/tcp-astraea, on sockets with a window of 20 packets.
use astraea_open_source.Prelude.{
  ℕ, ◌+◌, ◌*◌, ◌/◌, ◌≤◌, ◌≡◌, min, max, pos, List, [], ◌∷◌, refl, arith,
}
use astraea_open_source.Result.{ok}
use astraea_open_source.Kernel.{
  open_state, loss, PacingStatus, none, Sock, RateSample, astraea_update_cwnd, bypass_cong_control,
}
use astraea_open_source.Kernel.Windows.{
  Event, ssthresh, set_state, set_window, cong_avoid, run, run-after_loss,
}
use astraea_open_source.Kernel.Pacing.{astraea_update_cwnd-paced, bypass_cong_control-paced}

abbrev header : ℕ → ℕ
header mss = mss + 52

abbrev socket : Sock
socket = record {
  snd_cwnd = 20;
  prior_cwnd = 30;
  cwnd_min = 4;
  snd_cwnd_clamp = 1_000;
  packets_out = 10;
  srtt_us = 160_000;
  mss_cache = 1_448;
  deepcc_enable = 2;
  pacing_status = none;
  pacing_rate = 0;
  max_pacing_rate = 1_000_000_000;
  prev_ca_state = loss;
  saved_cwnd = 12;
}

abbrev sample : RateSample
sample = record { delivered = pos 10; interval_us = pos 20_000 }

astraea_update_cwnd-paced_example :
    ((astraea_update_cwnd header socket).snd_cwnd ≡ 20)
    × ((astraea_update_cwnd header socket).pacing_rate ≡ 1_500_000)
    × ((astraea_update_cwnd header socket).pacing_status ≡ PacingStatus.needed)
unfolding astraea_update_cwnd
astraea_update_cwnd-paced_example =
    astraea_update_cwnd-paced header socket (omega arith) (omega arith) (omega arith) (omega arith)

bypass_cong_control-paced_example :
    (after : Sock) × (bypass_cong_control header socket sample ≡ ok after)
    × (after.snd_cwnd ≡ 20)
    × (after.pacing_rate ≡ min (1_448 * 8_000_000 * max after.snd_cwnd 10 / 160_000) 1_000_000_000)
bypass_cong_control-paced_example =
    bypass_cong_control-paced header socket sample (omega arith) (omega arith) (omega arith)
      (omega arith)

-- A window is saved, and reduced; the state returns to open, and a smaller window is not saved.
abbrev events : List Event
events =
    ssthresh ∷ set_window 10 ∷ set_state open_state ∷ cong_avoid ∷ set_window 14 ∷ ssthresh ∷ []

run-after_loss_example :
    ((run socket events).snd_cwnd ≡ 14)
    × ((run socket events).saved_cwnd ≡ 20)
    × (12 ≤ (run socket events).saved_cwnd)
run-after_loss_example = run-after_loss socket events refl
