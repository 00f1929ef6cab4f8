-- ===== src/Context/Features.antt =====
-- The feature vector of inference/context.cc: what its corrections ensure, and its first entry.
use astraea_open_source.Prelude.{ℕ, ◌<◌, ◌≡◌, pos, false, List, [], ◌∷◌, get_or, length, arith}
use astraea_open_source.Json.{Json}
use astraea_open_source.Real.{Real}
use astraea_open_source.Context.{Sample, features, raw_features, cap_at, throughput_feature}

module _ {J R : Type 0} (json : Json J R) (real : Real R) where
  abbrev two : R
  two = real.of_int (pos 2)

  abbrev pub entry : List R → ℕ → R
  entry xs i = get_or xs i (real.of_int (pos 0))

  caps :
      (a b c d e f g h i j : R)
      → real.gt two two ≡ false
      → let xs = a ∷ b ∷ c ∷ d ∷ e ∷ f ∷ g ∷ h ∷ i ∷ j ∷ [] in
        let ys =
          cap_at json real 8 (cap_at json real 3 (cap_at json real 1 (cap_at json real 2 xs))) in
        (real.gt (entry ys 1) two ≡ false)
        × (real.gt (entry ys 2) two ≡ false)
        × (real.gt (entry ys 3) two ≡ false)
        × (real.gt (entry ys 8) two ≡ false)
        × (entry ys 0 ≡ a)
        × (entry ys 7 ≡ h)
        × (length ys ≡ 10)
  unfolding cap_at
  caps a b c d e f g h i j irr = ground arith

  -- If 2 is not above itself, the entries for the two latencies, the window and the pacing rate are
  -- never above 2, whatever the report holds, a division by zero included; there are ten entries,
  -- and the corrections leave the first as it was computed.
  features_capped :
      (s : Sample R)
      → real.gt two two ≡ false
      → (real.gt (entry (features json real s) 1) two ≡ false)
        × (real.gt (entry (features json real s) 2) two ≡ false)
        × (real.gt (entry (features json real s) 3) two ≡ false)
        × (real.gt (entry (features json real s) 8) two ≡ false)
        × (entry (features json real s) 0 ≡ real.narrow (throughput_feature json real s))
        × (length (features json real s) ≡ 10)
  unfolding features raw_features
  features_capped s irr =
      let (p, q, r, t, first, _, count) = caps _ _ _ _ _ _ _ _ _ _ irr in (p, q, r, t, first, count)

  -- If a count divided by itself is 1, the first entry is the same for all reports with a
  -- throughput and a peak.
  throughput_feature_blind :
      (s t : Sample R)
      → ((n : ℕ)
          → 0 < n
          → real.div (real.of_int (pos n)) (real.of_int (pos n)) ≡ real.of_int (pos 1))
      → 0 < s.avg_thr
      → 0 < s.max_tput
      → 0 < t.avg_thr
      → 0 < t.max_tput
      → throughput_feature json real s ≡ throughput_feature json real t
  unfolding throughput_feature
  throughput_feature_blind s t self a b c d = ground (arith, self s.avg_thr a, self t.avg_thr c)
