-- ===== src/Receiver.antt =====
-- server.cc: the program that receives a client's traffic and logs its throughput. Its options are
-- those of the clients, under letters of its own.
pub mod Throughput
pub mod Tests
use astraea_open_source.Prelude.{
  ℕ, ◌+◌, ◌-◌, ◌*◌, ◌/◌, ◌%◌, ◌^◌, ℤ, pos, ◌==◌, if◌then◌else◌, true, false, Bool, List, [], ◌∷◌,
  Option, none, some, length, to_uint64,
}
use astraea_open_source.Result.{
  Error, Result, ok, err, runtime_error, unix_error, invalid_argument, undefined, or_throw,
  throw_unless, ◌>>=◌, ◌>>◌,
}
use astraea_open_source.Client.{
  Letter, letter_c, letter_i, letter_l, letter_p, question, other, Options, assign, parse_options,
  World, cubic,
}

-- The `switch` of `main`
unfoldable pub set_option : Letter → Option (List ℕ) → Options → Result Options
set_option letter_c arg o = assign arg (λ t. record o { cong_ctl = t })
set_option letter_i arg o = assign arg (λ t. record o { interval = t })
set_option letter_l arg o = assign arg (λ t. record o { perf_log_path = t })
set_option letter_p arg o = assign arg (λ t. record o { service = t })
set_option _ arg o = err runtime_error

-- `recv_cnt` and `last_observed_recv_cnt`, both `size_t`
pub record Counters : Type 0 where
  pub recv_cnt : ℕ
  pub last_observed_recv_cnt : ℕ

-- `recv_cnt += client.read(BUFFER).length()`
unfoldable pub receive : Counters → ℕ → Counters
receive c n = record c { recv_cnt = (c.recv_cnt + n) % 2 ^ 64 }

-- `(tmp - last_observed_recv_cnt) * 8 / interval.count() * 1000 / 1000000`: in 64 bits without a
-- sign, as `size_t` meets the signed count of an interval; a zero divisor has no defined result.
unfoldable pub current_thr : ℕ → ℕ → ℤ → Result ℕ
current_thr tmp last interval =
    let count = to_uint64 interval in
    let bits = (tmp + 2 ^ 64 - last) % 2 ^ 64 * 8 % 2 ^ 64 in
    if count == 0 then err undefined else ok (bits / count * 1000 % 2 ^ 64 / 1_000_000)

-- A round of `perf_log_thread`: the line for the log, and the counters.
unfoldable pub log_round : Counters → ℤ → Result (ℕ × Counters)
unfolding current_thr
log_round c interval = do
  thr ← current_thr c.recv_cnt c.last_observed_recv_cnt interval
  ok (thr, record c { last_observed_recv_cnt = c.recv_cnt })

-- What `main` has set up when it starts to receive. `log_interval` is that of the log's thread,
-- which runs if there is a log.
pub record Setup : Type 0 where
  pub port : ℤ
  pub cong_ctl : List ℕ
  pub log_interval : Option ℤ

-- `if (not interval.empty())`, inside the branch for the log
abbrev pub interval_of : World → List ℕ → Result ℤ
interval_of world [] = ok (pos 500)
interval_of world (c ∷ text) = or_throw invalid_argument (world.stoi (c ∷ text))

unfoldable pub init_log : World → Options → Result (Option ℤ)
init_log world o = if length o.perf_log_path == 0 then ok none else (do
  throw_unless world.log_good runtime_error
  interval ← interval_of world o.interval
  ok (some interval))

-- `main` up to the loop that receives
unfoldable pub main : World → ℕ → ℕ → List (Letter × Option (List ℕ)) → Result Setup
unfolding parse_options set_option init_log
main world argc optind args = do
  o ← parse_options set_option argc optind args
  log_interval ← init_log world o
  port ← or_throw invalid_argument (world.stoi o.service)
  throw_unless world.address_known runtime_error
  throw_unless world.accepts unix_error
  throw_unless world.knows_congestion_control unix_error
  ok (record {
    port = port;
    cong_ctl = if length o.cong_ctl == 0 then cubic else o.cong_ctl;
    log_interval = log_interval;
  })
