-- ===== src/Result.antt =====
-- Exceptions as values: what a C++ function that may throw returns.
use astraea_open_source.Prelude.{◌≡◌, ◌⊎◌, inl, inr, refl, Bool, true, false, Option, none, some}

-- The exceptions that the modelled code throws or lets through.
pub data Error : Type 0 where
  -- `runtime_error`, `unix_error` of a failed system call, an exception of nlohmann::json
  runtime_error unix_error json_error : Error
  -- `invalid_argument` of `stoi`, `system_error` of `thread::join`, a call through a null pointer
  invalid_argument not_joinable null_pointer : Error
  -- an access out of bounds or the like: what the program does after it is undefined
  undefined : Error
  -- `tagged_error` of a name that is not looked up
  gai_error : Error
  -- a call of `std::terminate`
  terminated : Error

pub data Result {ℓ} (A : Type ℓ) : Type ℓ where
  ok : A → Result A
  err : Error → Result A

abbrev pub or_throw {ℓ} : {A : Type ℓ} → Error → Option A → Result A
or_throw e none = err e
or_throw e (some a) = ok a

abbrev pub throw_unless : Bool → Error → Result (Unit {0})
throw_unless true e = ok tt
throw_unless false e = err e

-- The rest of a function runs unless the first part has thrown.
infixl 5 ◌>>=◌ ◌>>◌
abbrev pub ◌>>=◌ {ℓ κ} : {A : Type ℓ} {B : Type κ} → Result A → (A → Result B) → Result B
err thrown >>= rest = err thrown
ok a >>= rest = rest a

abbrev pub ◌>>◌ {ℓ} : {B : Type ℓ} → Result (Unit {0}) → Result B → Result B
first >> rest = first >>= λ done. rest

pub Result-cases {ℓ} :
    {A : Type ℓ} (r : Result A) → ((a : A) × (r ≡ ok a)) ⊎ ((e : Error) × (r ≡ err e))
Result-cases (ok a) = inl (a, refl)
Result-cases (err e) = inr (e, refl)
