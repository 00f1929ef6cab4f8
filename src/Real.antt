-- ===== src/Real.antt =====
-- The floating-point operations that the program uses, as a parameter. `float` and `double` share
-- the type `R`, and `narrow` is the conversion from `double` to `float`.
pub mod Thousandths
use astraea_open_source.Prelude.{
  ℕ, ◌^◌, ◌≤◌, ◌<◌, ◌≡◌, ℤ, pos, ◌≤ℤ◌, Bool, true, false, Option, some,
}

pub record Real (R : Type 0) : Type 0 where
  -- the conversion of an integer; the constant m / 10 ^ e
  pub of_int : ℤ → R
  pub decimal : ℕ → ℕ → R
  pub narrow : R → R
  pub add : R → R → R
  pub sub : R → R → R
  pub mul : R → R → R
  pub div : R → R → R
  pub ge : R → R → Bool
  pub gt : R → R → Bool
  -- the integer that `std::ceil` or `std::floor` gives, which a NaN and an infinity do not have
  pub ceil : R → Option ℤ
  pub floor : R → Option ℤ

-- What the theorems use of IEEE arithmetic. A comparison that holds has no NaN in it, and the laws on
-- products keep an infinity from a zero: the operations are monotone, integers up to 2 ^ 24 are exact,
-- and 1 is neutral for products.
pub record RealLaws {R : Type 0} (real : Real R) : Type 0 where
  pub of_int_nonneg : (n : ℕ) → real.ge (real.of_int (pos n)) (real.of_int (pos 0)) ≡ true
  pub not_ge_of_gt : (x y : R) → real.gt x y ≡ true → real.ge y x ≡ false
  -- the product of 0.025 and a number that is not negative, or negative
  pub step_nonneg :
      (y : R)
      → real.ge y (real.of_int (pos 0)) ≡ true
      → real.ge (real.mul (real.decimal 25 3) y) (real.of_int (pos 0)) ≡ true
  pub step_nonpos :
      (y : R)
      → real.gt (real.of_int (pos 0)) y ≡ true
      → real.ge (real.of_int (pos 0)) (real.mul (real.decimal 25 3) y) ≡ true
  pub one_add :
      (y : R)
      → real.ge y (real.of_int (pos 0)) ≡ true
      → real.ge (real.add (real.of_int (pos 1)) y) (real.of_int (pos 1)) ≡ true
  pub one_sub :
      (y : R)
      → real.ge (real.of_int (pos 0)) y ≡ true
      → real.ge (real.sub (real.of_int (pos 1)) y) (real.of_int (pos 1)) ≡ true
  -- the inverse of a number that is at least 1
  pub inverse_bounds :
      (x : R)
      → real.ge x (real.of_int (pos 1)) ≡ true
      → (real.ge (real.of_int (pos 1)) (real.div (real.of_int (pos 1)) x) ≡ true)
        × (real.ge (real.div (real.of_int (pos 1)) x) (real.of_int (pos 0)) ≡ true)
  pub narrow_mono : (x y : R) → real.ge x y ≡ true → real.ge (real.narrow x) (real.narrow y) ≡ true
  pub narrow_small : (n : ℕ) → n ≤ 2 ^ 24 → real.narrow (real.of_int (pos n)) ≡ real.of_int (pos n)
  -- times a positive integer
  pub mul_mono :
      (x y : R) (n : ℕ)
      → real.ge x y ≡ true
      → real.ge y (real.of_int (pos 0)) ≡ true
      → 0 < n
      → n ≤ 2 ^ 24
      → real.ge (real.mul x (real.of_int (pos n))) (real.mul y (real.of_int (pos n))) ≡ true
  pub zero_mul :
      (n : ℕ)
      → n ≤ 2 ^ 24
      → real.mul (real.of_int (pos 0)) (real.of_int (pos n)) ≡ real.of_int (pos 0)
  pub one_mul :
      (n : ℕ)
      → n ≤ 2 ^ 24
      → real.mul (real.of_int (pos 1)) (real.of_int (pos n)) ≡ real.of_int (pos n)
  pub ceil_mono :
      (x y : R) (a b : ℤ)
      → real.ge x y ≡ true
      → real.ceil x ≡ some a
      → real.ceil y ≡ some b
      → b ≤ℤ a
  pub ceil_small : (n : ℕ) → n ≤ 2 ^ 24 → real.ceil (real.of_int (pos n)) ≡ some (pos n)
  -- a number between two integers has an integer below it
  pub floor_between :
      (x : R) (n : ℕ)
      → n ≤ 2 ^ 24
      → real.ge x (real.of_int (pos 0)) ≡ true
      → real.ge (real.of_int (pos n)) x ≡ true
      → (k : ℕ) × (real.floor x ≡ some (pos k)) × (k ≤ n)
