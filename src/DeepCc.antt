-- ===== src/DeepCc.antt =====
-- net/deepcc_socket.cc and .hh: the statistics that a client keeps of its TCP connection. The answer
-- of `getsockopt` and the clock are arguments of each call; `none` is a failed system call.
pub mod Totals
pub mod Peak
pub mod Report
pub mod Tests
use astraea_open_source.Prelude.{
  ℕ, ◌+◌, ◌-◌, ◌*◌, ◌%◌, ◌^◌, max, ℤ, pos, Bool, true, false, if◌then◌else◌, List, [], ◌∷◌, ◌++◌,
  Option, none, some,
}
use astraea_open_source.Result.{
  Error, Result, ok, err, runtime_error, unix_error, throw_unless, ◌>>=◌, ◌>>◌,
}
use astraea_open_source.TcpInfo.{TcpInfo, merge_info}
use astraea_open_source.TcpInfo
use astraea_open_source.Json.{Json, Key}
use astraea_open_source.Real.{Real}

pub data RequestType : Type 0 where
  request_action observe : RequestType

pub record DeepCc : Type 0 where
  pub enabled : Bool
  pub queue : List TcpInfo
  pub max_tput : ℕ
  pub last_observe_ts : ℕ
  pub last_request_ts : ℕ
  pub last_request_info : TcpInfo
  pub last_observe_info : TcpInfo
  pub has_observe : Bool

-- The constructors and `init`; `initial_timestamp` only fixes the zero of the clock.
unfoldable pub construct : DeepCc
construct = record {
  enabled = true;
  queue = [];
  max_tput = 0;
  last_observe_ts = 0;
  last_request_ts = 0;
  last_request_info = TcpInfo.init;
  last_observe_info = TcpInfo.init;
  has_observe = false;
}

-- `accepted` says whether `setsockopt` succeeds.
unfoldable pub enable_deepcc : DeepCc → Bool → DeepCc × Result (Unit {0})
enable_deepcc s true = (record s { enabled = true }, ok tt)
enable_deepcc s false = (s, err unix_error)

-- `prepare_request_info`: the queue is merged into the report, oldest first.
unfoldable pub prepare_request_info : TcpInfo → List TcpInfo → TcpInfo
prepare_request_info info [] = info
prepare_request_info info (o ∷ os) = prepare_request_info (merge_info info o) os

-- `prepare_observe_info`
unfoldable pub prepare_observe_info : TcpInfo → TcpInfo → TcpInfo
prepare_observe_info dst src = merge_info dst src

-- The `switch` of `get_tcp_deepcc_info`.
unfoldable pub answer : DeepCc → RequestType → TcpInfo → DeepCc × Result TcpInfo
unfolding prepare_observe_info
answer s request_action info =
    let merged = prepare_request_info info s.queue in
    (record s { queue = []; last_request_info = merged; has_observe = false }, ok merged)
answer s observe info =
    let last_observed = if s.has_observe then s.last_observe_info else s.last_request_info in
    let merged = prepare_observe_info info last_observed in
    (
      record s { queue = s.queue ++ (info ∷ []); has_observe = true; last_observe_info = merged },
      ok merged,
    )

-- `get_tcp_deepcc_info`, under its mutex
unfoldable pub get_tcp_deepcc_info : DeepCc → RequestType → Option TcpInfo → DeepCc × Result TcpInfo
unfolding answer
get_tcp_deepcc_info s type reply =
    if s.enabled
    then elim reply [
      | none ↦ (s, err unix_error)
      | some info ↦ answer (record s { max_tput = max s.max_tput info.avg_thr }) type info
    ]
    else (s, err runtime_error)

-- The first `switch` of `get_tcp_deepcc_info_json`: the time since the last call of this type.
unfoldable pub touch : DeepCc → RequestType → ℕ → DeepCc × ℕ
touch s request_action now =
    (record s { last_request_ts = now }, (now + 2 ^ 64 - s.last_request_ts) % 2 ^ 64)
touch s observe now =
    (record s { last_observe_ts = now }, (now + 2 ^ 64 - s.last_observe_ts) % 2 ^ 64)

-- `info.lost_bytes * SECOND_TO_US`: a product of a `u32` and an `int`, so in 32 bits.
unfoldable pub lost_per_second : TcpInfo → ℕ
lost_per_second info = info.lost_bytes * 1_000_000 % 2 ^ 32

module _ {J R : Type 0} (json : Json J R) (real : Real R) where
  abbrev pub put_nat : J → Key → ℕ → J
  put_nat j k n = json.put j k (json.of_int (pos n))

  -- `TCPDeepCCInfo::to_json`
  unfoldable pub to_json : TcpInfo → J
  to_json i =
      let a =
        put_nat (put_nat (put_nat json.object Key.min_rtt i.min_rtt) Key.avg_urtt i.avg_urtt)
          Key.cnt i.cnt in
      let b =
        put_nat (put_nat (put_nat a Key.cwnd i.cwnd) Key.avg_thr i.avg_thr) Key.thr_cnt i.thr_cnt in
      let c =
        put_nat (put_nat (put_nat b Key.pacing_rate i.pacing_rate) Key.loss_bytes i.lost_bytes)
          Key.srtt_us i.srtt_us in
      let d = put_nat (put_nat c Key.snd_ssthresh i.snd_ssthresh) Key.retrans_out i.retrans_out in
      put_nat
        (put_nat (put_nat d Key.packets_out i.packets_out) Key.max_packets_out i.max_packets_out)
        Key.mss_cache i.mss

  -- The end of `get_tcp_deepcc_info_json`: the report, and what the socket adds to it.
  unfoldable pub report : TcpInfo → ℕ → ℕ → J
  unfolding to_json
  report info peak time_delta =
      let loss_ratio =
        real.div (real.of_int (pos (lost_per_second info))) (real.of_int (pos time_delta)) in
      put_nat
        (json.put (put_nat (to_json info) Key.max_tput peak) Key.loss_ratio
          (json.of_real loss_ratio))
        Key.time_delta time_delta

  -- `get_tcp_deepcc_info_json`
  unfoldable pub get_tcp_deepcc_info_json :
      DeepCc → RequestType → ℕ → Option TcpInfo → DeepCc × Result J
  unfolding get_tcp_deepcc_info touch
  get_tcp_deepcc_info_json s type now reply =
      let (s1, elapsed) = touch s type now in
      let time_delta = max elapsed 1 in
      let (s2, got) = get_tcp_deepcc_info s1 type reply in
      (s2, got >>= λ info. ok (report info s2.max_tput time_delta))

-- `set_tcp_cwnd`: the window that the kernel is given.
unfoldable pub set_tcp_cwnd : DeepCc → ℤ → Bool → Result ℤ
set_tcp_cwnd s cwnd accepted = do
  throw_unless s.enabled runtime_error
  throw_unless accepted unix_error
  ok cwnd
