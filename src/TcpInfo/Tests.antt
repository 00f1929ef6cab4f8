-- ===== src/TcpInfo/Tests.antt =====
-- The theorems on net/tcp_info.hh, on two reports of a connection.
use astraea_open_source.Prelude.{ℕ, ◌≤◌, ◌≡◌, arith}
use astraea_open_source.TcpInfo.{TcpInfo, merge_info}
use astraea_open_source.TcpInfo.Merge.{Fits, merge_info-mean}

-- A report with the given samples of the round-trip time and the throughput, and lost bytes.
abbrev pub sample : ℕ → ℕ → ℕ → ℕ → ℕ → TcpInfo
sample cnt avg_urtt thr_cnt avg_thr lost_bytes = record {
  min_rtt = 20_000;
  avg_urtt = avg_urtt;
  cnt = cnt;
  avg_thr = avg_thr;
  thr_cnt = thr_cnt;
  cwnd = 10;
  pacing_rate = 1_000_000;
  lost_bytes = lost_bytes;
  srtt_us = 160_000;
  snd_ssthresh = 100;
  packets_out = 8;
  retrans_out = 1;
  max_packets_out = 9;
  mss = 1460;
}

abbrev pub fast : TcpInfo
fast = sample 3 21_000 2 900_000 1460

abbrev pub slow : TcpInfo
slow = sample 1 25_000 4 600_000 2920

abbrev wide : TcpInfo
wide = sample 3 21_000 2 5_000_000_000 0

abbrev idle : TcpInfo
idle = sample 1 25_000 0 0 0

fast-slow-Fits : Fits fast slow
fast-slow-Fits = record {
  rtt_counts = omega arith;
  thr_counts = omega arith;
  rtt_sum = omega arith;
  thr_sum = omega arith;
  thr_avg = omega arith;
}

merge_info-mean_example :
    ((merge_info fast slow).cnt ≡ 4)
    × ((merge_info fast slow).thr_cnt ≡ 6)
    × (21_000 ≤ (merge_info fast slow).avg_urtt)
    × ((merge_info fast slow).avg_urtt ≤ 25_000)
    × (600_000 ≤ (merge_info fast slow).avg_thr)
    × ((merge_info fast slow).avg_thr ≤ 900_000)
merge_info-mean_example = merge_info-mean fast slow fast-slow-Fits (omega arith) (omega arith)
