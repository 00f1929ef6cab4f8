-- ===== src/Receiver/Throughput.antt =====
-- The lines that `perf_log_thread` of server.cc writes.
use native.Mathlib.Nat.{mul-div-mul_right, div-div-eq-div-mul, div-le_self}
use astraea_open_source.Prelude.{
  ℕ, ◌+◌, ◌-◌, ◌*◌, ◌/◌, ◌%◌, ◌^◌, ◌<◌, ◌≡◌, ap, ◌∙◌, pos, false, ◌==◌, arith, to_uint64,
  mod-eq_of_lt,
}
use astraea_open_source.Result.{ok}
use astraea_open_source.Receiver.{receive, current_thr, log_round}

-- Bits divided by milliseconds, and then brought to megabits per second.
two_divisions :
    (bits ms : ℕ)
    → bits * 1000 < 2 ^ 64
    → bits / ms * 1000 % 2 ^ 64 / 1_000_000 ≡ bits / (ms * 1000)
two_divisions bits ms h =
    ap (λ m. m / 1_000_000) (mod-eq_of_lt small)
    ∙ mul-div-mul_right (bits / ms) 1000 (omega arith)
    ∙ div-div-eq-div-mul bits ms 1000
  where
    small : bits / ms * 1000 < 2 ^ 64
    small = omega (arith, div-le_self bits ms)

current_thr_lem :
    (seen n ms : ℕ)
    → 0 < ms
    → ms < 2 ^ 64
    → seen + n < 2 ^ 64
    → n * 8000 < 2 ^ 64
    → current_thr (seen + n) seen (pos ms) ≡ ok (n * 8 / (ms * 1000))
unfolding current_thr to_uint64
current_thr_lem seen n ms h small fits bits =
    let count : ms % 2 ^ 64 ≡ ms = mod-eq_of_lt small in
    let came : (seen + n + 2 ^ 64 - seen) % 2 ^ 64 * 8 % 2 ^ 64 ≡ n * 8 = omega arith in
    let some_time : (ms == 0) ≡ false = ground arith in
    rw (count, came, some_time) (ap ok (two_divisions (n * 8) ms (omega arith)))

-- Where nothing wraps and the interval is positive, the two divisions cut once: a round whose `n`
-- bytes came since the last one logs the whole megabits per second of the interval, `n * 8` bits
-- in `ms` thousandths of a second, and counts from there.
pub log_round-receive :
    (seen n ms : ℕ)
    → 0 < ms
    → ms < 2 ^ 63
    → seen + n < 2 ^ 64
    → n * 8000 < 2 ^ 64
    → log_round (receive (record { recv_cnt = seen; last_observed_recv_cnt = seen }) n) (pos ms)
      ≡ ok (n * 8 / (ms * 1000), record { recv_cnt = seen + n; last_observed_recv_cnt = seen + n })
unfolding log_round receive
log_round-receive seen n ms h small fits bits =
    let sum : (seen + n) % 2 ^ 64 ≡ seen + n = mod-eq_of_lt fits in
    rw (sum, current_thr_lem seen n ms h (omega arith) fits bits)
