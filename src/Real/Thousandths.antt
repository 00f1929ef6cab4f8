-- ===== src/Real/Thousandths.antt =====
-- A value of the interface, for the witnesses: fixed-point numbers, n for n / 1000.
use native.Mathlib.Nat.{div-le_of_le-mul, mul-le-mul_right}
use astraea_open_source.Prelude.{
  ℕ, zero, suc, ◌+◌, ◌-◌, ◌*◌, ◌/◌, ◌^◌, ◌≤◌, ◌≡◌, refl, ℤ, pos, negsuc, ◌≤ℤ◌, Bool, true, false,
  leb, ltb, if◌then◌else◌, arith, ap, subst, Option, some,
}
use astraea_open_source.Real.{Real, RealLaws}

-- -n
abbrev pub neg : ℕ → ℤ
neg zero = pos 0
neg (suc n) = negsuc n

abbrev pub geℤ : ℤ → ℤ → Bool
geℤ (pos a) (pos b) = leb b a
geℤ (pos a) (negsuc b) = true
geℤ (negsuc a) (pos b) = false
geℤ (negsuc a) (negsuc b) = leb a b

abbrev pub gtℤ : ℤ → ℤ → Bool
gtℤ (pos a) (pos b) = ltb b a
gtℤ (pos a) (negsuc b) = true
gtℤ (negsuc a) (pos b) = false
gtℤ (negsuc a) (negsuc b) = ltb a b

-- a - b
abbrev pub diff : ℕ → ℕ → ℤ
diff a b = if leb b a then pos (a - b) else negsuc (b - a - 1)

abbrev pub addℤ : ℤ → ℤ → ℤ
addℤ (pos a) (pos b) = pos (a + b)
addℤ (pos a) (negsuc b) = diff a (b + 1)
addℤ (negsuc a) (pos b) = diff b (a + 1)
addℤ (negsuc a) (negsuc b) = negsuc (a + b + 1)

abbrev pub subℤ : ℤ → ℤ → ℤ
subℤ (pos a) (pos b) = diff a b
subℤ (pos a) (negsuc b) = pos (a + b + 1)
subℤ (negsuc a) (pos b) = negsuc (a + b)
subℤ (negsuc a) (negsuc b) = diff (b + 1) (a + 1)

-- Products and quotients are rounded towards 0.
abbrev pub mulℤ : ℤ → ℤ → ℤ
mulℤ (pos a) (pos b) = pos (a * b / 1000)
mulℤ (pos a) (negsuc b) = neg (a * suc b / 1000)
mulℤ (negsuc a) (pos b) = neg (suc a * b / 1000)
mulℤ (negsuc a) (negsuc b) = pos (suc a * suc b / 1000)

abbrev pub divℤ : ℤ → ℤ → ℤ
divℤ (pos a) (pos b) = pos (a * 1000 / b)
divℤ (pos a) (negsuc b) = neg (a * 1000 / suc b)
divℤ (negsuc a) (pos b) = neg (suc a * 1000 / b)
divℤ (negsuc a) (negsuc b) = pos (suc a * 1000 / suc b)

-- The integers next to a number
abbrev pub up : ℤ → ℤ
up (pos n) = pos ((n + 999) / 1000)
up (negsuc n) = neg (suc n / 1000)

abbrev pub down : ℤ → ℤ
down (pos n) = pos (n / 1000)
down (negsuc n) = negsuc (n / 1000)

abbrev pub thousandths : Real ℤ
thousandths = record {
  of_int = elim [ pos n ↦ pos (1000 * n) | negsuc n ↦ negsuc (1000 * n + 999) ];
  decimal = λ m e. pos (m * 1000 / 10 ^ e);
  narrow = λ x. x;
  add = addℤ;
  sub = subℤ;
  mul = mulℤ;
  div = divℤ;
  ge = geℤ;
  gt = gtℤ;
  ceil = λ x. some (up x);
  floor = λ x. some (down x);
}

nonneg_mul : (x y : ℤ) → geℤ x (pos 0) ≡ true → geℤ y (pos 0) ≡ true → geℤ (mulℤ x y) (pos 0) ≡ true
nonneg_mul (pos a) (pos b) p q = ground arith
nonneg_mul (pos a) (negsuc b) p q = cc
nonneg_mul (negsuc a) y p q = cc

neg-nonpos : (n : ℕ) → geℤ (pos 0) (neg n) ≡ true
neg-nonpos zero = refl
neg-nonpos (suc n) = refl

nonpos_mul : (x y : ℤ) → geℤ x (pos 0) ≡ true → gtℤ (pos 0) y ≡ true → geℤ (pos 0) (mulℤ x y) ≡ true
nonpos_mul (pos a) (pos b) p q = absurd (ground arith)
nonpos_mul (pos a) (negsuc b) p q = neg-nonpos (a * suc b / 1000)
nonpos_mul (negsuc a) y p q = cc

ge_of_gt : (x y : ℤ) → gtℤ x y ≡ true → geℤ y x ≡ false
ge_of_gt (pos a) (pos b) h = ground arith
ge_of_gt (pos a) (negsuc b) h = ground arith
ge_of_gt (negsuc a) (pos b) h = ground arith
ge_of_gt (negsuc a) (negsuc b) h = ground arith

grows_add : (x y : ℤ) → geℤ y (pos 0) ≡ true → geℤ (addℤ x y) x ≡ true
grows_add (pos a) (pos b) h = ground arith
grows_add (pos a) (negsuc b) h = cc
grows_add (negsuc a) (pos b) h = ground arith
grows_add (negsuc a) (negsuc b) h = cc

grows_sub : (x y : ℤ) → geℤ (pos 0) y ≡ true → geℤ (subℤ x y) x ≡ true
grows_sub (pos a) (pos b) h = ground arith
grows_sub (pos a) (negsuc b) h = ground arith
grows_sub (negsuc a) (pos b) h = ground arith
grows_sub (negsuc a) (negsuc b) h = ground arith

leb-of_le : (a b : ℕ) → a ≤ b → leb a b ≡ true
leb-of_le a b h = ground arith

inverse :
    (x : ℤ)
    → geℤ x (pos 1000) ≡ true
    → (geℤ (pos 1000) (divℤ (pos 1000) x) ≡ true) × (geℤ (divℤ (pos 1000) x) (pos 0) ≡ true)
inverse (pos a) h = (leb-of_le _ _ (div-le_of_le-mul a (ground arith)), ground arith)
inverse (negsuc a) h = cc

mono_mul :
    (x y c : ℤ)
    → geℤ x y ≡ true
    → geℤ y (pos 0) ≡ true
    → geℤ c (pos 0) ≡ true
    → geℤ (mulℤ x c) (mulℤ y c) ≡ true
mono_mul (pos a) (pos b) (pos c) p q r =
    let prod : b * c ≤ a * c = mul-le-mul_right c (ground arith) in leb-of_le _ _ (omega arith)
mono_mul (pos a) (pos b) (negsuc c) p q r = cc
mono_mul (pos a) (negsuc b) c p q r = cc
mono_mul (negsuc a) (pos b) c p q r = cc
mono_mul (negsuc a) (negsuc b) c p q r = cc

one_times : (c : ℤ) → mulℤ (pos 1000) c ≡ c
one_times (pos a) = ap pos (omega arith)
one_times (negsuc a) = let e : 1000 * suc a / 1000 ≡ suc a = omega arith in ap neg e

neg-mono : (m n : ℕ) → m ≤ n → neg n ≤ℤ neg m
neg-mono zero zero h = omega arith
neg-mono (suc m) zero h = absurd (omega arith)
neg-mono zero (suc n) h = tt
neg-mono (suc m) (suc n) h = omega arith

neg-le-pos : (m n : ℕ) → neg m ≤ℤ pos n
neg-le-pos zero n = omega arith
neg-le-pos (suc m) n = tt

mono_ceil : (x y : ℤ) → geℤ x y ≡ true → up y ≤ℤ up x
mono_ceil (pos a) (pos b) h = ground arith
mono_ceil (pos a) (negsuc b) h = neg-le-pos (suc b / 1000) _
mono_ceil (negsuc a) (pos b) h = cc
mono_ceil (negsuc a) (negsuc b) h = neg-mono (suc a / 1000) (suc b / 1000) (ground arith)

some-inj : {a b : ℤ} → ◌≡◌ {A = Option ℤ} (some a) (some b) → a ≡ b
some-inj h = cc

up-mono :
    (x y a b : ℤ)
    → geℤ x y ≡ true
    → ◌≡◌ {A = Option ℤ} (some (up x)) (some a)
    → ◌≡◌ {A = Option ℤ} (some (up y)) (some b)
    → b ≤ℤ a
up-mono x y a b h p q =
    subst (λ c. c ≤ℤ a) (some-inj q) (subst (λ c. up y ≤ℤ c) (some-inj p) (mono_ceil x y h))

down_between :
    (x : ℤ) (n : ℕ)
    → geℤ x (pos 0) ≡ true
    → geℤ (pos (1000 * n)) x ≡ true
    → (k : ℕ) × (◌≡◌ {A = Option ℤ} (some (down x)) (some (pos k))) × (k ≤ n)
down_between (pos a) n p q = (a / 1000, refl, ground arith)
down_between (negsuc a) n p q = absurd cc

pub thousandths-laws : RealLaws thousandths
thousandths-laws = record {
  of_int_nonneg = λ n. leb-of_le _ _ (omega arith);
  not_ge_of_gt = ge_of_gt;
  step_nonneg = λ y h. nonneg_mul (pos 25) y refl h;
  step_nonpos = λ y h. nonpos_mul (pos 25) y refl h;
  one_add = λ y h. grows_add (pos 1000) y h;
  one_sub = λ y h. grows_sub (pos 1000) y h;
  inverse_bounds = inverse;
  narrow_mono = λ x y h. h;
  narrow_small = λ n h. refl;
  mul_mono = λ x y n h k p small. mono_mul x y (pos (1000 * n)) h k (leb-of_le _ _ (omega arith));
  zero_mul = λ n h. ap pos (omega arith);
  one_mul = λ n h. one_times (pos (1000 * n));
  ceil_mono = up-mono;
  ceil_small = λ n h. let e : (1000 * n + 999) / 1000 ≡ n = omega arith in ap (λ k. some (pos k)) e;
  floor_between = λ x n small p q. down_between x n p q;
}
