-- ===== src/Context.antt =====
-- inference/context.cc and .hh, inference/define.hh: the state of one flow in the inference service,
-- the features that it makes of a report, and the window that an action stands for. The library's
-- JSON values and the floating-point numbers are parameters.
pub mod Window
pub mod Features
pub mod Action
pub mod Tests
use astraea_open_source.Prelude.{
  ℕ, ◌+◌, ◌-◌, ◌*◌, ◌%◌, ◌^◌, ℤ, pos, Bool, true, false, ◌==◌, ltb, ◌||◌, if◌then◌else◌, List, [],
  ◌∷◌, ◌++◌, Option, none, some, length, take, drop, replicate, get_or, set, to_uint64, to_int32,
  ◌==ℤ◌,
}
use astraea_open_source.Result.{Error, Result, ok, err, json_error, or_throw, undefined, ◌>>=◌}
use astraea_open_source.Json.{Json, Key}
use astraea_open_source.Real.{Real}

abbrev pub state_size : ℕ
state_size = 10

abbrev pub recurrent_num : ℕ
recurrent_num = 5

-- `kNNInputSize`
abbrev pub input_size : ℕ
input_size = 50

pub record FlowContext (R : Type 0) : Type 0 where
  pub flow_id : ℤ
  pub current : List R
  pub window : List R

-- What `transform_state` reads from a report, each a `uint32_t` but the loss ratio.
pub record Sample (R : Type 0) : Type 0 where
  pub avg_thr : ℕ
  pub avg_urtt : ℕ
  pub srtt_us : ℕ
  pub min_rtt : ℕ
  pub max_tput : ℕ
  pub cwnd : ℕ
  pub packets_out : ℕ
  pub pacing_rate : ℕ
  pub retrans_out : ℕ
  pub loss_ratio : R

module _ {J R : Type 0} (json : Json J R) (real : Real R) where
  -- an integer converted to floating point
  abbrev num : ℕ → R
  num n = real.of_int (pos n)

  -- `FlowContext(flow_id)`
  unfoldable pub create : ℤ → FlowContext R
  create flow_id = record {
    flow_id = flow_id;
    current = replicate state_size (num 0);
    window = replicate (state_size * recurrent_num) (num 0);
  }

  -- `uint32_t x = state_dict[key]`
  unfoldable pub read_u32 : J → Key → Result ℕ
  read_u32 j k = do
    v ← or_throw json_error (json.at j k)
    n ← or_throw json_error (json.to_int v)
    ok (to_uint64 n % 2 ^ 32)

  -- The reads at the head of `transform_state`, in their order.
  unfoldable pub read_sample : J → Result (Sample R)
  unfolding read_u32
  read_sample j = do
    avg_thr ← read_u32 j Key.avg_thr
    avg_urtt ← read_u32 j Key.avg_urtt
    srtt_us ← read_u32 j Key.srtt_us
    min_rtt ← read_u32 j Key.min_rtt
    max_tput ← read_u32 j Key.max_tput
    cwnd ← read_u32 j Key.cwnd
    packets_out ← read_u32 j Key.packets_out
    pacing_rate ← read_u32 j Key.pacing_rate
    retrans_out ← read_u32 j Key.retrans_out
    v ← or_throw json_error (json.at j Key.loss_ratio)
    loss_ratio ← or_throw json_error (json.to_real v)
    ok (record {
      avg_thr = avg_thr;
      avg_urtt = avg_urtt;
      srtt_us = srtt_us;
      min_rtt = min_rtt;
      max_tput = max_tput;
      cwnd = cwnd;
      packets_out = packets_out;
      pacing_rate = pacing_rate;
      retrans_out = retrans_out;
      loss_ratio = loss_ratio;
    })

  -- The ratio of two counts.
  abbrev ratio : ℕ → ℕ → R
  ratio a b = real.div (num a) (num b)

  unfoldable pub throughput_feature : Sample R → R
  throughput_feature s =
      if s.avg_thr == 0
      then real.decimal 5 1
      else (if ltb 0 s.max_tput then ratio s.avg_thr s.avg_thr else num 0)

  unfoldable pub latency_feature : Sample R → R
  latency_feature s =
      if s.avg_urtt == 0
      then num 2
      else (if s.min_rtt == 0 then num 0 else ratio s.avg_urtt s.min_rtt)

  unfoldable pub smoothed_feature : Sample R → R
  smoothed_feature s =
      if s.srtt_us == 0
      then num 2
      else (if s.min_rtt == 0 then num 0 else real.div (ratio s.srtt_us 8) (num s.min_rtt))

  -- `(float)cwnd * 1460 * 8 / (min_rtt / 1e6) / max_tput / 10`
  unfoldable pub window_feature : Sample R → R
  window_feature s =
      if s.min_rtt == 0 || s.max_tput == 0
      then num 0
      else let bits = real.mul (real.mul (num s.cwnd) (num 1460)) (num 8) in
        let rate = real.div bits (real.div (num s.min_rtt) (num 1_000_000)) in
        real.div (real.div rate (num s.max_tput)) (num 10)

  -- The ten values that `transform_state` appends, before its four corrections.
  unfoldable pub raw_features : Sample R → List R
  raw_features s =
      real.narrow (throughput_feature s)
      ∷ real.narrow (latency_feature s)
      ∷ real.narrow (smoothed_feature s)
      ∷ real.narrow (window_feature s)
      ∷ real.narrow (real.div (num s.max_tput) (num 10_000_000))
      ∷ real.narrow (real.div (num s.min_rtt) (num 500_000))
      ∷ real.narrow
          (if ltb 0 s.max_tput then real.div (real.narrow s.loss_ratio) (num s.max_tput) else num 0)
      ∷ real.narrow (ratio s.packets_out s.cwnd)
      ∷ real.narrow (if ltb 0 s.max_tput then ratio s.pacing_rate s.max_tput else num 0)
      ∷ real.narrow (if ltb 0 s.packets_out then ratio s.retrans_out s.packets_out else num 0)
      ∷ []

  -- `if (current_[i] > 2) current_[i] = 2`
  unfoldable pub cap_at : ℕ → List R → List R
  cap_at i xs = if real.gt (get_or xs i (num 0)) (num 2) then set xs i (num 2) else xs

  unfoldable pub features : Sample R → List R
  features s = cap_at 8 (cap_at 3 (cap_at 1 (cap_at 2 (raw_features s))))

  -- `transform_state`: a report that cannot be read leaves `current` empty.
  unfoldable pub transform_state : FlowContext R → J → FlowContext R × Result (Unit {0})
  transform_state c j = elim (read_sample j) [
    | ok s ↦ (record c { current = features s }, ok tt)
    | err e ↦ (record c { current = [] }, err e)
  ]

  -- The two `memcpy` of `format_state`: the window less its first state, and the new state.
  unfoldable pub slide : List R → List R → List R
  slide window current = drop state_size window ++ take state_size current

  -- `format_state` after `transform_state`, which may have thrown.
  abbrev pub advance : FlowContext R × Result (Unit {0}) → FlowContext R × Result (List R)
  advance (c, ok _) =
      (record c { window = slide c.window c.current }, ok (slide c.window c.current))
  advance (c, err e) = (c, err e)

  -- `format_state`
  unfoldable pub format_state : FlowContext R → J → FlowContext R × Result (List R)
  format_state c j = advance (transform_state c j)

module _ {R : Type 0} (real : Real R) where
  -- The conversion of a floating-point value to `int`, which is undefined out of its range.
  abbrev pub convert : Option ℤ → Result ℤ
  convert none = err undefined
  convert (some n) = if to_int32 n ==ℤ n then ok n else err undefined

  -- `map_action`: the window that an action makes of the current one.
  unfoldable pub map_action : R → R → Result ℤ
  map_action action cwnd =
      let step = real.mul (real.decimal 25 3) action in
      if real.ge action (real.of_int (pos 0))
      then convert (real.ceil (real.mul (real.narrow (real.add (real.of_int (pos 1)) step)) cwnd))
      else convert (
          real.floor (
            real.mul
              (real.narrow (real.div (real.of_int (pos 1)) (real.sub (real.of_int (pos 1)) step)))
              cwnd))
