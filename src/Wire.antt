-- ===== src/Wire.antt =====
-- net/serialization.cc: the two-byte length that stands before every message, and the frame that
-- each sender makes of it, `put_field(len) + message`. A byte is a number below 256.
pub mod Framing
use astraea_open_source.Prelude.{
  ℕ, ◌+◌, ◌*◌, ◌/◌, ◌%◌, ◌^◌, List, [], ◌∷◌, ◌++◌, Option, none, some, length,
}

-- `htobe16`, read as bytes: the high byte first.
unfoldable pub put_field : ℕ → List ℕ
put_field n = (n / 256 % 256) ∷ (n % 256) ∷ []

-- `be16toh` of the first two bytes; `none` where the buffer holds fewer.
unfoldable pub get_uint16 : List ℕ → Option ℕ
get_uint16 [] = none
get_uint16 (hi ∷ []) = none
get_uint16 (hi ∷ lo ∷ rest) = some (hi * 256 + lo)

-- `uint16_t len = message.dump().length(); put_field(len) + message.dump()`
unfoldable pub frame : List ℕ → List ℕ
unfolding put_field
frame message = put_field (length message % 2 ^ 16) ++ message
