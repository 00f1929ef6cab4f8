-- ===== src/Clock.antt =====
-- net/timestamp.cc: microseconds since the first look at the clock. What `clock_gettime` answers is an
-- argument, `none` where it fails; the static variable is a state, `none` before it is set.
pub mod Elapsed
use astraea_open_source.Prelude.{
  ℕ, ◌+◌, ◌-◌, ◌*◌, ◌/◌, ◌%◌, ◌^◌, Bool, true, false, Option, none, some,
}
use astraea_open_source.Result.{Result, ok, err, unix_error, or_throw, ◌>>=◌}

pub record TimeSpec : Type 0 where
  pub tv_sec : ℕ
  pub tv_nsec : ℕ

unfoldable pub raw_timestamp_usecs : Option TimeSpec → Result ℕ
raw_timestamp_usecs none = err unix_error
raw_timestamp_usecs (some ts) = ok ((ts.tv_nsec / 1_000 + ts.tv_sec * 1_000_000 % 2 ^ 64) % 2 ^ 64)

abbrev pub usec_to_msec : ℕ → ℕ
usec_to_msec timestamp_usec = timestamp_usec / 1_000

-- The static variable after the call, and its value; the clock is read only in the first call.
unfoldable pub initial_timestamp_usecs : Option ℕ → Option TimeSpec → Result (Option ℕ × ℕ)
unfolding raw_timestamp_usecs
initial_timestamp_usecs (some initial) answer = ok (some initial, initial)
initial_timestamp_usecs none answer =
    raw_timestamp_usecs answer >>= λ initial. ok (some initial, initial)

abbrev pub initial_timestamp : Option ℕ → Option TimeSpec → Result (Option ℕ × ℕ)
unfolding initial_timestamp_usecs
initial_timestamp static answer =
    initial_timestamp_usecs static answer >>= λ found. ok (found.0, usec_to_msec found.1)

-- The difference of two `uint64_t`
abbrev pub difference : ℕ → ℕ → ℕ
difference a b = (a + 2 ^ 64 - b) % 2 ^ 64

-- `raw_timestamp_usecs() - initial_timestamp_usecs()`, where the compiler chooses which call comes
-- first; the first call takes the first answer of the clock.
unfoldable pub timestamp_usecs :
    Bool → Option ℕ → Option TimeSpec → Option TimeSpec → Result (Option ℕ × ℕ)
unfolding initial_timestamp_usecs
timestamp_usecs true static first second = raw_timestamp_usecs first >>= λ raw.
    initial_timestamp_usecs static second >>= λ found. ok (found.0, difference raw found.1)
timestamp_usecs false static first second = initial_timestamp_usecs static first >>= λ found.
    raw_timestamp_usecs second >>= λ raw. ok (found.0, difference raw found.1)

abbrev pub timestamp : Bool → Option ℕ → Option TimeSpec → Option TimeSpec → Result (Option ℕ × ℕ)
unfolding timestamp_usecs
timestamp raw_first static first second =
    timestamp_usecs raw_first static first second >>= λ found. ok (found.0, usec_to_msec found.1)
