-- ===== src/Context/Action.antt =====
-- What `map_action` of inference/context.cc does to a window.
use astraea_open_source.Prelude.{
  ℕ, ◌^◌, ◌≤◌, ◌<◌, refl, Option, none, some, to_int32, to_int32_pos, ◌==ℤ◌, ==ℤ_iff, ◌≡◌, ℤ, pos,
  ◌≤ℤ◌, Bool, true, false, not, Bool-cases, inl, inr, sym, ap, ◌∙◌, arith, subst,
}
use astraea_open_source.Real.{Real, RealLaws}
use astraea_open_source.Result.{Result, ok, err, undefined}
use astraea_open_source.Context.{map_action, convert}

module _ {R : Type 0} (real : Real R) (laws : RealLaws real) where
  open laws use {
    of_int_nonneg, not_ge_of_gt, step_nonneg, step_nonpos, one_add, one_sub, inverse_bounds,
    narrow_mono, narrow_small, mul_mono, zero_mul, one_mul, ceil_mono, ceil_small, floor_between,
  }

  abbrev num : ℕ → R
  num n = real.of_int (pos n)

  abbrev IsAtLeast : R → R → Type 0
  IsAtLeast x y = real.ge x y ≡ true

  one_nonneg : IsAtLeast (num 1) (num 0)
  one_nonneg = of_int_nonneg 1

  -- A factor that is at least 1, rounded to `float`, does not shrink a window.
  grows :
      (f : R) (cwnd : ℕ)
      → 0 < cwnd
      → cwnd ≤ 2 ^ 24
      → IsAtLeast f (num 1)
      → IsAtLeast (real.mul (real.narrow f) (num cwnd)) (num cwnd)
  grows f cwnd positive small h =
      let above : IsAtLeast (real.narrow f) (num 1) =
        subst (λ y. IsAtLeast (real.narrow f) y) (narrow_small 1 (omega arith))
          (narrow_mono f (num 1) h) in
      subst (λ y. IsAtLeast (real.mul (real.narrow f) (num cwnd)) y) (one_mul cwnd small)
        (mul_mono (real.narrow f) (num 1) cwnd above one_nonneg positive small)

  -- A factor from 0 to 1, rounded to `float`, does not grow a window, and keeps it from falling below 0.
  shrinks :
      (f : R) (cwnd : ℕ)
      → 0 < cwnd
      → cwnd ≤ 2 ^ 24
      → IsAtLeast (num 1) f
      → IsAtLeast f (num 0)
      → IsAtLeast (num cwnd) (real.mul (real.narrow f) (num cwnd))
        × IsAtLeast (real.mul (real.narrow f) (num cwnd)) (num 0)
  shrinks f cwnd positive small h k =
      let below : IsAtLeast (num 1) (real.narrow f) =
        subst (λ y. IsAtLeast y (real.narrow f)) (narrow_small 1 (omega arith))
          (narrow_mono (num 1) f h) in
      let above : IsAtLeast (real.narrow f) (num 0) =
        subst (λ y. IsAtLeast (real.narrow f) y) (narrow_small 0 (omega arith))
          (narrow_mono f (num 0) k) in
      (
        subst (λ y. IsAtLeast y (real.mul (real.narrow f) (num cwnd))) (one_mul cwnd small)
            (mul_mono (num 1) (real.narrow f) cwnd below above positive small),
        subst (λ y. IsAtLeast (real.mul (real.narrow f) (num cwnd)) y) (zero_mul cwnd small)
            (mul_mono (real.narrow f) (num 0) cwnd above (of_int_nonneg 0) positive small),
      )

  -- What an action of at least 0, or below 0, may make of a window.
  abbrev pub MovesWith : Bool → ℕ → Result ℤ → Type 0
  MovesWith true cwnd (ok new) = pos cwnd ≤ℤ new
  MovesWith true cwnd (err e) = e ≡ undefined
  MovesWith false cwnd (ok new) = (new ≤ℤ pos cwnd) × (pos 0 ≤ℤ new)
  MovesWith false cwnd (err e) = ⊥

  convert-grows :
      (x : R) (cwnd : ℕ) (o : Option ℤ)
      → cwnd ≤ 2 ^ 24
      → IsAtLeast x (num cwnd)
      → real.ceil x ≡ o
      → MovesWith true cwnd (convert real o)
  convert-grows x cwnd none h up e = refl
  convert-grows x cwnd (some new) h up e = elim (Bool-cases (to_int32 new ==ℤ new)) [
    | inl fits ↦ rw fits (ceil_mono x (num cwnd) new (pos cwnd) up e (ceil_small cwnd h))
    | inr off ↦ rw off refl
  ]

  convert-small : (k : ℕ) → k ≤ 2 ^ 24 → convert real (some (pos k)) ≡ ok (pos k)
  convert-small k h = rw (to_int32_pos k (omega arith), (==ℤ_iff (pos k) (pos k)).1 refl) refl

  map_action_grows :
      (action : R) (cwnd : ℕ)
      → 0 < cwnd
      → cwnd ≤ 2 ^ 24
      → IsAtLeast action (num 0)
      → MovesWith true cwnd (map_action real action (num cwnd))
  unfolding map_action
  map_action_grows action cwnd positive h up =
      let f = real.add (num 1) (real.mul (real.decimal 25 3) action) in
      rw up (
        convert-grows _ cwnd (real.ceil (real.mul (real.narrow f) (num cwnd))) h
          (grows f cwnd positive h (one_add _ (step_nonneg action up))) refl)

  map_action_shrinks :
      (action : R) (cwnd : ℕ)
      → 0 < cwnd
      → cwnd ≤ 2 ^ 24
      → real.gt (num 0) action ≡ true
      → MovesWith false cwnd (map_action real action (num cwnd))
  unfolding map_action
  map_action_shrinks action cwnd positive h down =
      let step = real.mul (real.decimal 25 3) action in
      let f = real.div (num 1) (real.sub (num 1) step) in
      let bounds =
        inverse_bounds (real.sub (num 1) step) (one_sub step (step_nonpos action down)) in
      let (below, above) = shrinks f cwnd positive h bounds.0 bounds.1 in
      let (k, floored, le) =
        floor_between (real.mul (real.narrow f) (num cwnd)) cwnd h above below in
      rw (not_ge_of_gt (num 0) action down, floored, convert-small k (omega arith))
        (omega arith, omega arith)

  -- For a window from 1 to 2 ^ 24 and an action that compares with 0, infinities included: for an
  -- action of at least 0, the new window is not smaller, or the conversion to `int` is undefined; for
  -- one below 0, the conversion is defined, and the new window is neither larger nor negative.
  pub map_action-MovesWith :
      (action : R) (cwnd : ℕ)
      → 0 < cwnd
      → cwnd ≤ 2 ^ 24
      → real.gt (num 0) action ≡ not (real.ge action (num 0))
      → MovesWith (real.ge action (num 0)) cwnd (map_action real action (num cwnd))
  map_action-MovesWith action cwnd positive h compares =
      elim (Bool-cases (real.ge action (num 0))) [
        | inl up ↦
            subst (λ b. MovesWith b cwnd (map_action real action (num cwnd))) (sym up)
              (map_action_grows action cwnd positive h up)
        | inr down ↦
            subst (λ b. MovesWith b cwnd (map_action real action (num cwnd))) (sym down)
              (map_action_shrinks action cwnd positive h (compares ∙ ap not down))
      ]
