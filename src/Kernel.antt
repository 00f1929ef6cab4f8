-- ===== src/Kernel.antt =====
-- kernel/tcp-astraea/tcp_astraea.c and tcp_astraea_bypass.c: the congestion control of the kernel
-- under which the windows of the program's clients stand. Numbers of 32 and 64 bits; `tcp_mss_to_mtu`
-- is a parameter, and so is the kernel that calls.
pub mod Windows
pub mod Pacing
pub mod Tests
use astraea_open_source.Prelude.{
  ℕ, ◌*◌, ◌/◌, ◌%◌, ◌^◌, min, max, ℤ, pos, negsuc, Bool, true, false, ◌||◌, ◌==◌, ltb,
  if◌then◌else◌, List, [], ◌∷◌,
}
use astraea_open_source.Result.{Result, ok, err, undefined}

-- `TCP_CA_Open` to `TCP_CA_Loss`
pub data CaState : Type 0 where
  open_state disorder cwr recovery loss : CaState

-- The order of the enumeration's values.
abbrev pub state_code : CaState → ℕ
state_code open_state = 0
state_code disorder = 1
state_code cwr = 2
state_code recovery = 3
state_code loss = 4

pub data PacingStatus : Type 0 where
  none needed fq : PacingStatus

-- What the module reads and writes of a `sock` and its `tcp_sock`, and its own `struct astraea` as
-- `prev_ca_state` and `saved_cwnd`, the `prior_cwnd` of that struct.
pub record Sock : Type 0 where
  pub snd_cwnd : ℕ
  pub prior_cwnd : ℕ
  pub cwnd_min : ℕ
  pub snd_cwnd_clamp : ℕ
  pub packets_out : ℕ
  pub srtt_us : ℕ
  pub mss_cache : ℕ
  pub deepcc_enable : ℕ
  pub pacing_status : PacingStatus
  pub pacing_rate : ℕ
  pub max_pacing_rate : ℕ
  pub prev_ca_state : CaState
  pub saved_cwnd : ℕ

-- `cmpxchg(&sk->sk_pacing_status, SK_PACING_NONE, SK_PACING_NEEDED)`
abbrev pub need_pacing : PacingStatus → PacingStatus
need_pacing none = needed
need_pacing needed = needed
need_pacing fq = fq

-- `astraea_init`
unfoldable pub astraea_init : Sock → Sock
astraea_init sk = record sk {
  prev_ca_state = open_state;
  saved_cwnd = 0;
  pacing_status = need_pacing sk.pacing_status;
}

-- `astraea_save_cwnd`
unfoldable pub astraea_save_cwnd : Sock → Sock
astraea_save_cwnd sk = record sk {
  saved_cwnd =
      if ltb (state_code sk.prev_ca_state) 3 then sk.snd_cwnd else max sk.saved_cwnd sk.snd_cwnd;
}

-- `astraea_ssthresh`: the socket, and the threshold.
unfoldable pub astraea_ssthresh : Sock → Sock × ℕ
unfolding astraea_save_cwnd
astraea_ssthresh sk = (astraea_save_cwnd sk, max sk.snd_cwnd 10)

-- `astraea_undo_cwnd`
unfoldable pub astraea_undo_cwnd : Sock → ℕ
astraea_undo_cwnd sk = sk.snd_cwnd

-- `astraea_set_state`
unfoldable pub astraea_set_state : Sock → CaState → Sock
astraea_set_state sk loss = record sk { prev_ca_state = loss }
astraea_set_state sk _ = sk

-- `astraea_cong_avoid` has nothing but comments in it.
unfoldable pub astraea_cong_avoid : Sock → Sock
astraea_cong_avoid sk = sk

abbrev pub usec_per_sec : ℕ
usec_per_sec = 1_000_000

-- `do_div(rate, base)` where `base` is not 0
abbrev pub div_unless_zero : ℕ → ℕ → ℕ
div_unless_zero rate base = if base == 0 then rate else rate / base

-- The window after the `max` and the `min` of `astraea_update_cwnd`
abbrev pub clamped : Sock → ℕ
clamped sk = min (max sk.snd_cwnd sk.cwnd_min) sk.snd_cwnd_clamp

module _ (mtu_of : ℕ → ℕ) where
  -- The `rate` of `astraea_update_pacing_rate`, before the minimum.
  unfoldable pub raw_rate : Sock → ℕ
  raw_rate sk =
      let rate = mtu_of sk.mss_cache % 2 ^ 64 * usec_per_sec % 2 ^ 64 in
      div_unless_zero (rate * max sk.snd_cwnd sk.packets_out % 2 ^ 64) (sk.srtt_us / 8)

  unfoldable pub astraea_update_pacing_rate : Sock → Sock
  unfolding raw_rate
  astraea_update_pacing_rate sk = record sk {
    pacing_status = need_pacing sk.pacing_status;
    pacing_rate = min (raw_rate sk) sk.max_pacing_rate;
  }

  unfoldable pub astraea_update_cwnd : Sock → Sock
  unfolding astraea_update_pacing_rate
  astraea_update_cwnd sk =
      let after = record sk { snd_cwnd = clamped sk } in
      if ltb 1 sk.deepcc_enable then astraea_update_pacing_rate after else after

-- What is read of a `rate_sample`.
pub record RateSample : Type 0 where
  pub delivered : ℤ
  pub interval_us : ℤ

abbrev pub is_negative : ℤ → Bool
is_negative (pos n) = false
is_negative (negsuc n) = true

abbrev pub magnitude : ℤ → ℕ
magnitude (pos n) = n
magnitude (negsuc n) = 0

abbrev pub thr_scale : ℕ
thr_scale = 24

-- `bw`, in bytes per second. `do_div` takes the low 32 bits of its divisor, and does not look whether
-- they are 0.
unfoldable pub bandwidth : RateSample → ℕ → Result ℕ
bandwidth rs mss =
    let interval = magnitude rs.interval_us in
    if is_negative rs.delivered || is_negative rs.interval_us || interval == 0
    then ok 0
    else (if interval % 2 ^ 32 == 0
        then err undefined
        else (let bw = magnitude rs.delivered * 2 ^ thr_scale % 2 ^ 64 / (interval % 2 ^ 32) in
            ok (bw * mss % 2 ^ 64 * usec_per_sec % 2 ^ 64 / 2 ^ thr_scale)))

-- The `rate` of `astraea_cong_control` in tcp_astraea_bypass.c, before the minimum.
unfoldable pub bypass_rate : Sock → ℕ
bypass_rate sk =
    let rate = sk.mss_cache * (usec_per_sec * 8) % 2 ^ 64 in
    div_unless_zero (rate * max sk.snd_cwnd sk.packets_out % 2 ^ 64) sk.srtt_us

abbrev pub repace : Sock → Sock
unfolding bypass_rate
repace sk = record sk {
  pacing_status = need_pacing sk.pacing_status;
  pacing_rate = min (bypass_rate sk) sk.max_pacing_rate;
}

module _ (mtu_of : ℕ → ℕ) where
  -- `astraea_cong_control` of tcp_astraea.c, which is not registered: the socket, and the bandwidth
  -- that it prints.
  unfoldable pub astraea_cong_control : Sock → RateSample → Result (Sock × ℕ)
  unfolding astraea_update_cwnd bandwidth
  astraea_cong_control sk rs =
      let raised = record sk { snd_cwnd = max sk.snd_cwnd (max sk.prior_cwnd sk.saved_cwnd) } in
      elim (bandwidth rs sk.mss_cache) [
        | ok bw ↦ ok (astraea_update_cwnd mtu_of raised, bw)
        | err e ↦ err e
      ]

  -- `astraea_cong_control` of tcp_astraea_bypass.c, whose second declaration of `tp` repeats the
  -- first. The larger of the saved windows is computed and not used.
  unfoldable pub bypass_cong_control : Sock → RateSample → Result Sock
  unfolding astraea_update_cwnd bandwidth
  bypass_cong_control sk rs = elim (bandwidth rs sk.mss_cache) [
    | ok bw ↦ ok (repace (astraea_update_cwnd mtu_of sk))
    | err e ↦ err e
  ]
