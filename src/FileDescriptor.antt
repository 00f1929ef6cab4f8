-- ===== src/FileDescriptor.antt =====
-- net/file_descriptor.cc, the reading half: `read` and `read_exactly` over a blocking descriptor.
-- What the kernel delivers is a list of segments, one for each `::read` that is not cut short by
-- its limit; after the last segment `::read` returns 0, or fails if `fails` is set, for which
-- `SystemCall` throws. An empty segment is such a 0 too.
pub mod Reading
pub mod Ownership
pub mod Write
pub mod Lifetimes
pub mod Blocking
pub mod Tests
use astraea_open_source.Prelude.{
  ℕ, zero, suc, ◌+◌, ◌-◌, ◌*◌, ◌≤◌, min, Bool, true, false, ◌==◌, ltb, if◌then◌else◌, List, [], ◌∷◌,
  ◌++◌, Option, none, some, length, take, drop,
}

pub record FileDescriptor : Type 0 where
  pub segments : List (List ℕ)
  pub fails : Bool
  pub eof : Bool
  pub read_count : ℕ

abbrev pub buffer_size : ℕ
buffer_size = 1024 * 1024

-- Whether the next `::read` fails.
abbrev pub sys_fails : FileDescriptor → Bool
sys_fails fd = elim fd.segments [ [] ↦ fd.fails | s ∷ rest ↦ false ]

-- `::read(fd, buffer, limit)` where it does not fail: what it returns, and what is left.
unfoldable pub sys_read : List (List ℕ) → ℕ → List ℕ × List (List ℕ)
sys_read [] limit = ([], [])
sys_read (s ∷ rest) limit =
    if ltb limit (length s) then (take limit s, drop limit s ∷ rest) else (s, rest)

-- `read`, where `::read` does not fail; where it fails, `read` throws and changes nothing.
-- `register_read` counts in an `unsigned int`, which the model lets grow.
unfoldable pub read : FileDescriptor → ℕ → List ℕ × FileDescriptor
unfolding sys_read
read fd limit =
    let (bytes, rest) = sys_read fd.segments (min buffer_size limit) in
    (
      bytes,
      record {
        segments = rest;
        fails = fd.fails;
        eof = if length bytes == 0 then true else fd.eof;
        read_count = fd.read_count + 1;
      },
    )

-- The result of `read_exactly`: the bytes, or the exception at the end of the stream or of a `read`.
pub data Exactly : Type 0 where
  done : List ℕ → FileDescriptor → Exactly
  reached_eof failed : FileDescriptor → Exactly
  out_of_fuel : Exactly

-- `while (ret.size() < length)`, with `fail_silently` as the callers here leave it, false.
unfoldable pub read_loop : ℕ → ℕ → List ℕ → FileDescriptor → Exactly
read_loop zero n ret fd = out_of_fuel
read_loop (suc fuel) n ret fd =
    let got = read fd (n - length ret) in
    let rest = read_loop fuel n (ret ++ got.0) got.1 in
    if ltb (length ret) n
    then (if sys_fails fd then failed fd else (if (got.1).eof then reached_eof got.1 else rest))
    else done ret fd

-- Each round but the last adds a byte, so `n + 1` rounds are enough.
unfoldable pub read_exactly : FileDescriptor → ℕ → Exactly
unfolding read_loop
read_exactly fd n = read_loop (suc n) n [] fd
