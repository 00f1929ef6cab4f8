-- ===== src/Wire/Framing.antt =====
-- The frame of net/serialization.cc, read back.
use astraea_open_source.Prelude.{ℕ, ◌+◌, ◌%◌, ◌^◌, ◌<◌, ◌≡◌, ap, List, ◌++◌, some, length, arith}
use astraea_open_source.Wire.{put_field, get_uint16, frame}

-- Every 16-bit length survives the wire, whatever follows it.
pub get_uint16-put_field :
    (n : ℕ) (rest : List ℕ) → n < 2 ^ 16 → get_uint16 (put_field n ++ rest) ≡ some n
unfolding get_uint16 put_field
get_uint16-put_field n rest h = ap some (omega arith)

-- The length that a reader takes off a frame is the message's length modulo 2 ^ 16.
pub get_uint16-frame :
    (message : List ℕ) → get_uint16 (frame message) ≡ some (length message % 2 ^ 16)
unfolding frame
get_uint16-frame message = get_uint16-put_field (length message % 2 ^ 16) message (omega arith)

pub length-frame : (message : List ℕ) → length (frame message) ≡ length message + 2
unfolding frame put_field
length-frame message = omega arith
