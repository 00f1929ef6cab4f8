-- ===== src/Context/Tests.antt =====
-- The theorems on inference/context.cc, on reports of a flow.
use native.Mathlib.Nat.{mul-div_cancel_left}
use astraea_open_source.Prelude.{
  ℕ, ◌*◌, ◌/◌, ◌<◌, ◌∙◌, ◌≤◌, ◌≡◌, refl, ap, ℤ, pos, negsuc, [], ◌∷◌, ◌++◌, length, drop, replicate,
  arith, to_uint64, false,
}
use astraea_open_source.Result.{ok}
use astraea_open_source.Json.{Key}
use astraea_open_source.Json.Tokens.{Tree, tree_json}
use astraea_open_source.Real.Thousandths.{thousandths, thousandths-laws}
use astraea_open_source.Context.{Sample, create, read_sample, state_size, input_size, map_action}
use astraea_open_source.Context.Window.{format_all, readable, features_all, create-window}
use astraea_open_source.Context.Action.{MovesWith, map_action-MovesWith}

abbrev sample : ℕ → Sample ℤ
sample avg_thr = record {
  avg_thr = avg_thr;
  avg_urtt = 50_000;
  srtt_us = 160_000;
  min_rtt = 20_000;
  max_tput = 900_000;
  cwnd = 10;
  packets_out = 8;
  pacing_rate = 1_000_000;
  retrans_out = 1;
  loss_ratio = pos 0;
}

abbrev put : Tree → Key → ℕ → Tree
put j k n = tree_json.put j k (tree_json.of_int (pos n))

abbrev state : Tree
state =
    let a =
      put (put (put tree_json.object Key.avg_thr 600_000) Key.avg_urtt 50_000) Key.srtt_us
        160_000 in
    let b = put (put (put a Key.min_rtt 20_000) Key.max_tput 900_000) Key.cwnd 10 in
    let c = put (put (put b Key.packets_out 8) Key.pacing_rate 1_000_000) Key.retrans_out 1 in
    tree_json.put c Key.loss_ratio (tree_json.of_real (pos 0))

state-readable : read_sample tree_json thousandths state ≡ ok (sample 600_000)
unfolding read_sample to_uint64
state-readable = refl

create-window_example :
    (format_all tree_json thousandths
      (create tree_json thousandths (pos 7))
      (state ∷ tree_json.object ∷ [])).window
    ≡ drop (state_size * length (readable tree_json thousandths (state ∷ tree_json.object ∷ []))) (
        replicate input_size (pos 0)
        ++ features_all tree_json thousandths
            (readable tree_json thousandths (state ∷ tree_json.object ∷ [])))
create-window_example = create-window tree_json thousandths (pos 7) (state ∷ tree_json.object ∷ [])

own_ratio :
    (n : ℕ)
    → 1 ≤ n
    → thousandths.div (thousandths.of_int (pos n)) (thousandths.of_int (pos n))
      ≡ thousandths.of_int (pos 1)
own_ratio n h = ap pos (ap (λ m. m / (1000 * n)) (omega arith) ∙ mul-div_cancel_left 1000 positive)
  where
    positive : 0 < 1000 * n
    positive = omega arith

map_action-MovesWith_example :
    MovesWith thousandths thousandths-laws false 10
      (map_action thousandths (negsuc 499) (pos 10_000))
map_action-MovesWith_example =
    map_action-MovesWith thousandths thousandths-laws (negsuc 499) 10 (omega arith) (omega arith)
      refl
