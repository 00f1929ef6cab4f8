-- ===== src/Context/Window.antt =====
-- The sliding window of inference/context.cc over a whole run of reports.
use astraea_open_source.Prelude.{
  ℕ, zero, suc, ◌+◌, ◌*◌, ◌≡◌, refl, sym, ap, ◌∙◌, ℤ, pos, List, [], ◌∷◌, ◌++◌, append_assoc,
  append-nil, length, drop, arith, length-append, length-drop, drop-append_le, drop-drop, take_all,
  drop_all, replicate, set, inl, inr,
}
use astraea_open_source.Result.{Error, Result, ok, err, Result-cases}
use astraea_open_source.Json.{Json}
use astraea_open_source.Real.{Real}
use astraea_open_source.Context.{
  FlowContext, Sample, create, read_sample, features, raw_features, cap_at, transform_state, slide,
  format_state, state_size, input_size,
}

module _ {J R : Type 0} (json : Json J R) (real : Real R) where
  -- `format_state` for each report of a list.
  pub format_all : FlowContext R → List J → FlowContext R
  format_all c [] = c
  format_all c (j ∷ js) = format_all (format_state json real c j).0 js

  abbrev keep : Result (Sample R) → List (Sample R) → List (Sample R)
  keep (ok s) ss = s ∷ ss
  keep (err e) ss = ss

  -- The reports of a list that can be read.
  abbrev pub readable : List J → List (Sample R)
  readable [] = []
  readable (j ∷ js) = keep (read_sample json real j) (readable js)

  abbrev pub features_all : List (Sample R) → List R
  features_all [] = []
  features_all (s ∷ ss) = features json real s ++ features_all ss

  length-set : (xs : List R) (i : ℕ) (x : R) → length (set xs i x) ≡ length xs
  length-set [] i x = refl
  length-set (y ∷ ys) zero x = refl
  length-set (y ∷ ys) (suc i) x = ap suc (length-set ys i x)

  length-cap_at : (i : ℕ) (xs : List R) → length (cap_at json real i xs) ≡ length xs
  unfolding cap_at
  length-cap_at i xs = ground (arith, length-set xs i (real.of_int (pos 2)))

  -- Every report makes ten features.
  pub length-features : (s : Sample R) → length (features json real s) ≡ state_size
  unfolding features raw_features
  length-features s = rw (length-cap_at, length-cap_at, length-cap_at, length-cap_at) refl

  pub transform_state-eq-ok :
      (c : FlowContext R) (j : J) (s : Sample R)
      → read_sample json real j ≡ ok s
      → transform_state json real c j ≡ (record c { current = features json real s }, ok tt)
  unfolding transform_state
  transform_state-eq-ok c j s e = rw (e, transform_state)

  pub transform_state-eq-err :
      (c : FlowContext R) (j : J) (x : Error)
      → read_sample json real j ≡ err x
      → transform_state json real c j ≡ (record c { current = [] }, err x)
  unfolding transform_state
  transform_state-eq-err c j x e = rw (e, transform_state)

  -- A report that can be read drops the oldest state and appends its own; another changes nothing.
  pub format_state_readable :
      (c : FlowContext R) (j : J) (s : Sample R)
      → read_sample json real j ≡ ok s
      → ((format_state json real c j).0).window ≡ drop state_size c.window ++ features json real s
  unfolding format_state slide
  format_state_readable c j s e =
      rw (transform_state-eq-ok c j s e, format_state)
        (ap (λ t. drop state_size c.window ++ t)
          (take_all state_size (features json real s) (omega (arith, length-features s))))

  pub format_state_unreadable :
      (c : FlowContext R) (j : J) (e : Error)
      → read_sample json real j ≡ err e
      → ((format_state json real c j).0).window ≡ c.window
  unfolding format_state
  format_state_unreadable c j e h = rw (transform_state-eq-err c j e h, format_state)

  -- From a window of full size, after any reports, the window is what is left of the old one and of
  -- the features of the readable reports when ten values are dropped for each of those.
  format_all-window :
      (c : FlowContext R) (js : List J)
      → length c.window ≡ input_size
      → (format_all c js).window
        ≡ drop (state_size * length (readable js)) (c.window ++ features_all (readable js))
  unfolding format_all
  format_all-window c [] h = rw append-nil
  format_all-window c (j ∷ js) h = elim (Result-cases (read_sample json real j)) [
    | inl (s, e) ↦
        let next = (format_state json real c j).0 in
        let fs = features json real s in
        let rest = features_all (readable js) in
        let n = length (readable js) in
        let slid : next.window ≡ drop state_size c.window ++ fs = format_state_readable c j s e in
        let full : length next.window ≡ input_size = omega (
          arith,
          ap length slid,
          length-append (drop state_size c.window) fs,
          length-drop state_size c.window,
          length-features s,
        ) in
        let shifted : next.window ++ rest ≡ drop state_size (c.window ++ (fs ++ rest)) =
          ap (λ w. w ++ rest) slid
          ∙ append_assoc (drop state_size c.window) fs rest
          ∙ sym (drop-append_le state_size c.window (fs ++ rest) (omega arith)) in
        let count : state_size + state_size * n ≡ state_size * suc n = omega arith in
        rw (e, ← count)
          (format_all-window next js full
            ∙ ap (drop (state_size * n)) shifted
            ∙ drop-drop state_size (state_size * n) (c.window ++ (fs ++ rest)))
    | inr (x, e) ↦
        let same = format_state_unreadable c j x e in
        rw e (
          format_all-window (format_state json real c j).0 js (ap length same ∙ h)
          ∙ ap (λ w. drop (state_size * length (readable js)) (w ++ features_all (readable js)))
              same)
  ]

  length-features_all : (ss : List (Sample R)) → length (features_all ss) ≡ state_size * length ss
  length-features_all [] = refl
  length-features_all (s ∷ ss) = omega (
    arith,
    length-append (features json real s) (features_all ss),
    length-features s,
    length-features_all ss,
  )

  -- The window keeps its size.
  length-format_all :
      (c : FlowContext R) (js : List J)
      → length c.window ≡ input_size
      → length (format_all c js).window ≡ input_size
  length-format_all c js h =
      let ss = readable js in
      ap length (format_all-window c js h)
      ∙ length-drop (state_size * length ss) (c.window ++ features_all ss)
      ∙ omega (arith, length-append c.window (features_all ss), length-features_all ss)

  -- A new flow's window is, after any reports, what is left of fifty zeros and the features of the
  -- readable reports, in order, when ten values are dropped for each of those. Reports that cannot
  -- be read leave no trace.
  pub create-window :
      (flow_id : ℤ) (js : List J)
      → (format_all (create json real flow_id) js).window
        ≡ drop
            (state_size * length (readable js))
            (replicate input_size (real.of_int (pos 0)) ++ features_all (readable js))
  unfolding create
  create-window flow_id js = format_all-window (create json real flow_id) js refl

  -- After five readable reports at the end, whatever came before them, the window is their
  -- features, oldest first.
  window_five :
      (flow_id : ℤ) (before : List J) (a b c d e : J) (p q r s t : Sample R)
      → read_sample json real a ≡ ok p
      → read_sample json real b ≡ ok q
      → read_sample json real c ≡ ok r
      → read_sample json real d ≡ ok s
      → read_sample json real e ≡ ok t
      → (format_all (format_all (create json real flow_id) before) (a ∷ b ∷ c ∷ d ∷ e ∷ [])).window
        ≡ features_all (p ∷ q ∷ r ∷ s ∷ t ∷ [])
  unfolding create
  window_five flow_id before a b c d e p q r s t ha hb hc hd he =
      let old = format_all (create json real flow_id) before in
      let js = a ∷ b ∷ c ∷ d ∷ e ∷ [] in
      let last : readable js ≡ p ∷ q ∷ r ∷ s ∷ t ∷ [] = rw (ha, hb, hc, hd, he) in
      let full = length-format_all (create json real flow_id) before refl in
      format_all-window old js full
      ∙ ap (λ ss. drop (state_size * length ss) (old.window ++ features_all ss)) last
      ∙ drop-append_le 50 old.window (features_all (p ∷ q ∷ r ∷ s ∷ t ∷ [])) (omega arith)
      ∙ ap (λ w. w ++ features_all (p ∷ q ∷ r ∷ s ∷ t ∷ [])) (drop_all 50 old.window (omega arith))
