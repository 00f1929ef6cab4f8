-- ===== src/TcpInfo.antt =====
-- net/tcp_info.hh: what the kernel reports of a connection, and how two reports are merged. The
-- fields are `u32`, `avg_thr` is `u64`; the arithmetic wraps as written in the source.
pub mod Merge
pub mod Tests
use astraea_open_source.Prelude.{ℕ, ◌+◌, ◌*◌, ◌/◌, ◌%◌, ◌^◌, ◌<◌, max}

pub record TcpInfo : Type 0 where
  pub min_rtt : ℕ
  pub avg_urtt : ℕ
  pub cnt : ℕ
  pub avg_thr : ℕ
  pub thr_cnt : ℕ
  pub cwnd : ℕ
  pub pacing_rate : ℕ
  pub lost_bytes : ℕ
  pub srtt_us : ℕ
  pub snd_ssthresh : ℕ
  pub packets_out : ℕ
  pub retrans_out : ℕ
  pub max_packets_out : ℕ
  pub mss : ℕ

-- `init()`
unfoldable pub init : TcpInfo
init = record {
  min_rtt = 0;
  avg_urtt = 0;
  cnt = 0;
  avg_thr = 0;
  thr_cnt = 0;
  cwnd = 0;
  pacing_rate = 0;
  lost_bytes = 0;
  srtt_us = 0;
  snd_ssthresh = 0;
  packets_out = 0;
  retrans_out = 0;
  max_packets_out = 0;
  mss = 0;
}

-- `a * x + b * y` in w-bit arithmetic
abbrev pub weigh : ℕ → ℕ → ℕ → ℕ → ℕ → ℕ
weigh w a x b y = (a * x % 2 ^ w + b * y % 2 ^ w) % 2 ^ w

-- `merge_info`: `dst` is the object, `src` the argument.
unfoldable pub merge_info : TcpInfo → TcpInfo → TcpInfo
merge_info dst src =
    let total_rtt_cnt = (dst.cnt + src.cnt) % 2 ^ 32 in
    let total_thr_cnt = (dst.thr_cnt + src.thr_cnt) % 2 ^ 32 in
    let avg_rtt_us = weigh 32 dst.cnt dst.avg_urtt src.cnt src.avg_urtt / max total_rtt_cnt 1 in
    let avg_tput_bps =
      weigh 64 dst.thr_cnt dst.avg_thr src.thr_cnt src.avg_thr / max total_thr_cnt 1 % 2 ^ 32 in
    record dst {
      thr_cnt = total_thr_cnt;
      cnt = total_rtt_cnt;
      avg_thr = avg_tput_bps;
      avg_urtt = avg_rtt_us;
      lost_bytes = (dst.lost_bytes + src.lost_bytes) % 2 ^ 32;
    }
