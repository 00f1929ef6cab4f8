-- ===== src/Clock/Elapsed.antt =====
-- The time that net/timestamp.cc measures.
use astraea_open_source.Prelude.{
  ℕ, ◌+◌, ◌-◌, ◌*◌, ◌/◌, ◌%◌, ◌^◌, ◌≤◌, ◌<◌, ◌≡◌, refl, ap, ◌∙◌, Bool, true, false, none, some,
  arith,
}
use astraea_open_source.Result.{ok}
use astraea_open_source.Clock.{
  TimeSpec, raw_timestamp_usecs, initial_timestamp_usecs, difference, timestamp_usecs,
}

-- The microseconds of a reading.
abbrev pub usecs : TimeSpec → ℕ
usecs ts = ts.tv_nsec / 1_000 + ts.tv_sec * 1_000_000

-- A reading of a time before the year 292,277 or so, whose microseconds fit into 63 bits.
abbrev pub Fits : TimeSpec → Type 0
Fits ts = usecs ts < 2 ^ 63

-- The number that `raw_timestamp_usecs` returns.
abbrev pub wrapped : TimeSpec → ℕ
wrapped ts = (ts.tv_nsec / 1_000 + ts.tv_sec * 1_000_000 % 2 ^ 64) % 2 ^ 64

wrapped-Fits : (ts : TimeSpec) → Fits ts → wrapped ts ≡ usecs ts
wrapped-Fits ts h = omega arith

difference_exact : (a b : ℕ) → a < 2 ^ 63 → b ≤ a → difference a b ≡ a - b
difference_exact a b h h' = omega arith

-- With the start of the clock's time set, as `DeepCCSocket::init` sets it, a timestamp is the time
-- since then, whichever of its two calls the compiler makes first, if the clock has not gone back.
timestamp_usecs-elapsed :
    (raw_first : Bool) (start now : TimeSpec)
    → Fits now
    → usecs start ≤ usecs now
    → timestamp_usecs raw_first (some (usecs start)) (some now) (some now)
      ≡ ok (some (usecs start), usecs now - usecs start)
unfolding timestamp_usecs raw_timestamp_usecs initial_timestamp_usecs
timestamp_usecs-elapsed true start now h h' =
    ap (λ (n : ℕ). ok (some (usecs start), n))
      (ap (λ (n : ℕ). difference n (usecs start)) (wrapped-Fits now h)
        ∙ difference_exact (usecs now) (usecs start) h h')
timestamp_usecs-elapsed false start now h h' =
    ap (λ (n : ℕ). ok (some (usecs start), n))
      (ap (λ (n : ℕ). difference n (usecs start)) (wrapped-Fits now h)
        ∙ difference_exact (usecs now) (usecs start) h h')

-- In the first call of all, with the raw time read first and a later start, the difference wraps.
timestamp_usecs_wraps :
    (first second : TimeSpec)
    → Fits second
    → usecs first < usecs second
    → timestamp_usecs true none (some first) (some second)
      ≡ ok (some (usecs second), 2 ^ 64 - (usecs second - usecs first))
unfolding timestamp_usecs raw_timestamp_usecs initial_timestamp_usecs
timestamp_usecs_wraps first second h h' =
    let past = wrapped-Fits first (omega arith) in
    let start = wrapped-Fits second h in
    let wraps : difference (usecs first) (usecs second) ≡ 2 ^ 64 - (usecs second - usecs first) =
      omega arith in
    rw (past, start, wraps) refl
