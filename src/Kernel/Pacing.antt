-- ===== src/Kernel/Pacing.antt =====
-- The pacing rates of kernel/tcp-astraea, and the bandwidth that its modules compute.
use astraea_open_source.Prelude.{
  Bool-cases, inl, inr, ℕ, ◌-◌, ◌*◌, ◌/◌, ◌%◌, ◌^◌, ◌≤◌, ◌<◌, min, max, ◌≡◌, ◌↔◌, pos, refl, arith,
  ap, ltb, true, mod-eq_of_lt,
}
use native.Mathlib.Nat.{mul-le-mul, mul-le-mul_right, div-mul-le_self}
use astraea_open_source.Result.{Result-cases, ok, err, undefined}
use astraea_open_source.Kernel.{
  Sock, RateSample, raw_rate, bypass_rate, bandwidth, div_unless_zero, astraea_update_pacing_rate,
  astraea_update_cwnd, bypass_cong_control, magnitude, repace, need_pacing, clamped,
}

-- A quotient whose dividend does not wrap
quotient_exact :
    (a w d : ℕ) {m n : ℕ}
    → a ≤ m
    → w ≤ n
    → m * n < 2 ^ 64
    → 0 < d
    → div_unless_zero (a * w % 2 ^ 64) d ≡ a * w / d
quotient_exact a w d ha hw fits hd =
    let small : a * w < 2 ^ 64 = ground (arith, mul-le-mul ha hw) in
    rw (mod-eq_of_lt small) ground arith

-- `bypass_rate` does not wrap.
bypass_rate-exact :
    (sk : Sock)
    → sk.mss_cache ≤ 2_048
    → max sk.snd_cwnd sk.packets_out ≤ 2 ^ 30
    → 0 < sk.srtt_us
    → bypass_rate sk ≡ sk.mss_cache * 8_000_000 * max sk.snd_cwnd sk.packets_out / sk.srtt_us
unfolding bypass_rate
bypass_rate-exact sk hm hw hs =
    let rate : sk.mss_cache * 8_000_000 % 2 ^ 64 ≡ sk.mss_cache * 8_000_000 = omega arith in
    let bound : sk.mss_cache * 8_000_000 ≤ 2_048 * 8_000_000 = omega arith in
    rw (rate) (
      quotient_exact (sk.mss_cache * 8_000_000) (max sk.snd_cwnd sk.packets_out) sk.srtt_us bound hw
        (omega arith) hs)

-- With a divisor that the cut to 32 bits leaves as it is, the bandwidth is that of the sample,
-- rounded down, if the products fit into 64 bits.
module _ (delivered interval mss : ℕ) where
  -- The number that `bw` holds between the division and the translation to bytes
  abbrev pub scaled : ℕ
  scaled = delivered * 2 ^ 24 / interval

  -- For packets and microseconds of a sample whose scaled products fit into 64 bits, the bandwidth is
  -- at most what was delivered per second: the two roundings go down.
  bandwidth_bounded :
      0 < interval
      → interval < 2 ^ 32
      → delivered < 2 ^ 40
      → scaled * mss * 1_000_000 < 2 ^ 64
      → (bw : ℕ) × (bandwidth (record { delivered = pos delivered; interval_us = pos interval }) mss
          ≡ ok bw)
        × (bw * interval ≤ delivered * mss * 1_000_000)
  unfolding bandwidth
  bandwidth_bounded hi hi' hd fits =
      let bw = scaled * mss * 1_000_000 / 2 ^ 24 in
      let grown : delivered * 2 ^ 24 % 2 ^ 64 ≡ delivered * 2 ^ 24 = omega arith in
      let whole : interval % 2 ^ 32 ≡ interval = omega arith in
      let bytes : scaled * mss % 2 ^ 64 ≡ scaled * mss = omega arith in
      let unit : scaled * mss * 1_000_000 % 2 ^ 64 ≡ scaled * mss * 1_000_000 = omega arith in
      let translated =
        mul-le-mul_right interval (div-mul-le_self (scaled * mss * 1_000_000) (2 ^ 24)) in
      let divided =
        mul-le-mul_right (mss * 1_000_000) (div-mul-le_self (delivered * 2 ^ 24) interval) in
      (bw, rw (whole, grown, bytes, unit) (ground arith), ground (arith, translated, divided))

module _ (mtu_of : ℕ → ℕ) where
  raw_rate-exact :
      (sk : Sock)
      → mtu_of sk.mss_cache ≤ 4_294
      → max sk.snd_cwnd sk.packets_out < 2 ^ 32
      → 8 ≤ sk.srtt_us
      → raw_rate mtu_of sk
        ≡ mtu_of sk.mss_cache * 1_000_000 * max sk.snd_cwnd sk.packets_out / (sk.srtt_us / 8)
  unfolding raw_rate
  raw_rate-exact sk hm hw hs =
      let mtu = mtu_of sk.mss_cache in
      let rate : mtu % 2 ^ 64 * 1_000_000 % 2 ^ 64 ≡ mtu * 1_000_000 = omega arith in
      let bound : mtu * 1_000_000 ≤ 4_294_000_000 = omega arith in
      let window : max sk.snd_cwnd sk.packets_out ≤ 2 ^ 32 - 1 = omega arith in
      rw (rate) (
        quotient_exact (mtu * 1_000_000) (max sk.snd_cwnd sk.packets_out) (sk.srtt_us / 8) bound
          window (omega arith) (omega arith))

  -- Where DeepCC paces, `astraea_update_cwnd` brings the window between its bounds, the upper one
  -- last, and then sets the pacing rate of the new window, or of the packets on the way if they are
  -- more: packets of an MTU of at most 4294 bytes per smoothed round-trip time, at most the rate that
  -- the socket allows. Nothing wraps at windows of 32 bits.
  pub astraea_update_cwnd-paced :
      (sk : Sock)
      → 1 < sk.deepcc_enable
      → mtu_of sk.mss_cache ≤ 4_294
      → max (clamped sk) sk.packets_out < 2 ^ 32
      → 8 ≤ sk.srtt_us
      → let after = astraea_update_cwnd mtu_of sk in
        let rate =
          mtu_of sk.mss_cache * 1_000_000 * max after.snd_cwnd sk.packets_out / (sk.srtt_us / 8) in
        (after.snd_cwnd ≡ min (max sk.snd_cwnd sk.cwnd_min) sk.snd_cwnd_clamp)
        × (after.pacing_rate ≡ min rate sk.max_pacing_rate)
        × (after.pacing_status ≡ need_pacing sk.pacing_status)
  unfolding astraea_update_cwnd
  astraea_update_cwnd-paced sk on hm hw hs =
      let after = record sk { snd_cwnd = clamped sk } in
      let paces : ltb 1 sk.deepcc_enable ≡ true = ground arith in
      rw (paces)
        (refl, ap (λ (r : ℕ). min r sk.max_pacing_rate) (raw_rate-exact after hm hw hs), refl)

-- Short of 2^32 microseconds, about 71 minutes, the division is defined.
pub bandwidth-ok :
    (rs : RateSample) (mss : ℕ)
    → magnitude rs.interval_us < 2 ^ 32
    → (bw : ℕ) × (bandwidth rs mss ≡ ok bw)
unfolding bandwidth
bandwidth-ok rs mss h = elim (Result-cases (bandwidth rs mss)) [
  | inl p ↦ p
  | inr p ↦ (0, ground (arith, p.1))
]

-- On packets delivered in an interval of `i` microseconds, the bandwidth is a division by 0 exactly if
-- the interval is a positive multiple of 2^32: the divisor is cut to 32 bits behind the test.
bandwidth_undefined_iff :
    (d i mss : ℕ)
    → (bandwidth (record { delivered = pos d; interval_us = pos i }) mss ≡ err undefined)
      ↔ ((0 < i) × (i % 2 ^ 32 ≡ 0))
unfolding bandwidth
bandwidth_undefined_iff d i mss = (λ e. ground arith, λ h. ground arith)

module _ (mtu_of : ℕ → ℕ) where
  -- On a sample whose interval is less than 2^32 microseconds either way, on a socket with a smoothed
  -- round-trip time above 0, packets of at most 2048 bytes, and at most 2^30 packets on the way and in
  -- the bounded window: the `astraea_cong_control` of tcp_astraea_bypass.c succeeds, raises the window
  -- to its minimum and then cuts it to the clamp, and sets the pacing rate to the larger of that window
  -- and the packets on the way, in bytes, times 8,000,000, divided by the smoothed round-trip time as
  -- the kernel keeps it (in eighths of a microsecond), but to no more than the maximal rate, whether
  -- DeepCC paces or not.
  pub bypass_cong_control-paced :
      (sk : Sock) (rs : RateSample)
      → magnitude rs.interval_us < 2 ^ 32
      → sk.mss_cache ≤ 2_048
      → max (clamped sk) sk.packets_out ≤ 2 ^ 30
      → 0 < sk.srtt_us
      → (after : Sock) × (bypass_cong_control mtu_of sk rs ≡ ok after)
        × (after.snd_cwnd ≡ min (max sk.snd_cwnd sk.cwnd_min) sk.snd_cwnd_clamp)
        × (after.pacing_rate
            ≡ min
                (sk.mss_cache * 8_000_000 * max after.snd_cwnd sk.packets_out / sk.srtt_us)
                sk.max_pacing_rate)
  unfolding astraea_update_cwnd bypass_cong_control bypass_rate
  bypass_cong_control-paced sk rs hi hm hw hs =
      let bw = bandwidth-ok rs sk.mss_cache hi in
      let rate =
        ap (λ (r : ℕ). min r sk.max_pacing_rate)
          (bypass_rate-exact (record sk { snd_cwnd = clamped sk }) hm hw hs) in
      rw (bypass_cong_control, bw.1)
        (elim (Bool-cases (ltb 1 sk.deepcc_enable)) [
          | inl e ↦
              rw (astraea_update_cwnd, e)
                (
                  repace (astraea_update_pacing_rate mtu_of (record sk { snd_cwnd = clamped sk })),
                  refl,
                  refl,
                  rate,
                )
          | inr e ↦
              rw (astraea_update_cwnd, e)
                (repace (record sk { snd_cwnd = clamped sk }), refl, refl, rate)
        ])
