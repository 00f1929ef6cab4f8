-- ===== src/TcpInfo/Merge.antt =====
-- What `merge_info` of net/tcp_info.hh computes, and where its 32-bit arithmetic goes wrong.
use astraea_open_source.Prelude.{
  ℕ, ◌+◌, ◌*◌, ◌/◌, ◌%◌, ◌^◌, ◌<◌, ◌≤◌, ◌≡◌, max, min, arith, refl, mod-eq_of_lt, ap,
}
use native.Mathlib.Nat.{le-div_iff_mul-le, div-le_of_le-mul, mul-div_cancel_left}
use astraea_open_source.TcpInfo.{TcpInfo, merge_info, weigh}

-- The reports fit the arithmetic: no sample count and no weighted sum passes its type.
pub record Fits (a b : TcpInfo) : Type 0 where
  pub rtt_counts : a.cnt + b.cnt < 2 ^ 32
  pub thr_counts : a.thr_cnt + b.thr_cnt < 2 ^ 32
  pub rtt_sum : a.cnt * a.avg_urtt + b.cnt * b.avg_urtt < 2 ^ 32
  pub thr_sum : a.thr_cnt * a.avg_thr + b.thr_cnt * b.avg_thr < 2 ^ 64
  pub thr_avg :
      (a.thr_cnt * a.avg_thr + b.thr_cnt * b.avg_thr) / max (a.thr_cnt + b.thr_cnt) 1 < 2 ^ 32

-- A weighted mean, rounded down, lies between the two values.
div_bounds :
    (a x b y : ℕ)
    → 0 < a + b
    → (min x y ≤ (a * x + b * y) / (a + b)) × ((a * x + b * y) / (a + b) ≤ max x y)
div_bounds a x b y h =
    let low : min x y * (a + b) ≤ a * x + b * y = grind arith in
    ((le-div_iff_mul-le h).1 low, div-le_of_le-mul (a + b) (grind arith))

-- The weighted sum without wrap-around.
weigh_exact : (w a x b y : ℕ) → a * x + b * y < 2 ^ w → weigh w a x b y ≡ a * x + b * y
weigh_exact w a x b y h = rw (mod-eq_of_lt (left h), mod-eq_of_lt (right h), mod-eq_of_lt h)
  where
    left : a * x + b * y < 2 ^ w → a * x < 2 ^ w
    left h = omega arith

    right : a * x + b * y < 2 ^ w → b * y < 2 ^ w
    right h = omega arith

-- If two reports fit the arithmetic and have a sample of either kind between them, the merged
-- report has the sample counts added up, and each merged average lies between the two averages.
pub merge_info-mean :
    (a b : TcpInfo)
    → Fits a b
    → 0 < a.cnt + b.cnt
    → 0 < a.thr_cnt + b.thr_cnt
    → ((merge_info a b).cnt ≡ a.cnt + b.cnt)
      × ((merge_info a b).thr_cnt ≡ a.thr_cnt + b.thr_cnt)
      × (min a.avg_urtt b.avg_urtt ≤ (merge_info a b).avg_urtt)
      × ((merge_info a b).avg_urtt ≤ max a.avg_urtt b.avg_urtt)
      × (min a.avg_thr b.avg_thr ≤ (merge_info a b).avg_thr)
      × ((merge_info a b).avg_thr ≤ max a.avg_thr b.avg_thr)
unfolding merge_info
merge_info-mean a b f hc ht =
    let rtt = div_bounds a.cnt a.avg_urtt b.cnt b.avg_urtt hc in
    let thr = div_bounds a.thr_cnt a.avg_thr b.thr_cnt b.avg_thr ht in
    let one_rtt : max (a.cnt + b.cnt) 1 ≡ a.cnt + b.cnt = omega arith in
    let one_thr : max (a.thr_cnt + b.thr_cnt) 1 ≡ a.thr_cnt + b.thr_cnt = omega arith in
    rw
      (
        mod-eq_of_lt f.rtt_counts,
        mod-eq_of_lt f.thr_counts,
        weigh_exact 32 a.cnt a.avg_urtt b.cnt b.avg_urtt f.rtt_sum,
        weigh_exact 64 a.thr_cnt a.avg_thr b.thr_cnt b.avg_thr f.thr_sum,
        mod-eq_of_lt f.thr_avg,
        one_rtt,
        one_thr,
      )
      (refl, refl, rtt.0, rtt.1, thr.0, thr.1)

-- If a report has throughput samples, and their count and their sum fit 32 and 64 bits, merging it
-- with a report that has none cuts its average throughput down to 32 bits.
merge_info_no_samples :
    (a b : TcpInfo)
    → 0 < a.thr_cnt
    → a.thr_cnt < 2 ^ 32
    → b.thr_cnt ≡ 0
    → a.thr_cnt * a.avg_thr < 2 ^ 64
    → (merge_info a b).avg_thr ≡ a.avg_thr % 2 ^ 32
unfolding merge_info
merge_info_no_samples a b h lt e fits =
    let total : max ((a.thr_cnt + 0) % 2 ^ 32) 1 ≡ a.thr_cnt = omega arith in
    let sum : a.thr_cnt * a.avg_thr + 0 * b.avg_thr ≡ a.thr_cnt * a.avg_thr = omega arith in
    rw (e, total, weigh_exact 64 a.thr_cnt a.avg_thr 0 b.avg_thr (omega arith), sum)
      (ap (λ q. q % 2 ^ 32) (mul-div_cancel_left a.avg_thr h))
