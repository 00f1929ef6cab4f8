-- ===== src/FileDescriptor/Blocking.antt =====
-- net/file_descriptor.cc, `set_blocking`: the flag of the kernel, a bit of the descriptor's flags.
use astraea_open_source.Prelude.{
  ℕ, ◌+◌, ◌-◌, ◌/◌, ◌%◌, ◌≡◌, Bool, true, false, ◌==◌, if◌then◌else◌, Option, none, some, arith,
}
use astraea_open_source.Result.{Result, ok, err, unix_error}

-- `O_NONBLOCK`
abbrev pub o_nonblock : ℕ
o_nonblock = 2_048

abbrev pub has_nonblock : ℕ → Bool
has_nonblock flags = flags / o_nonblock % 2 == 1

-- `flags & ~O_NONBLOCK` and `flags | O_NONBLOCK`
unfoldable pub with_blocking : ℕ → Bool → ℕ
with_blocking flags true = if has_nonblock flags then flags - o_nonblock else flags
with_blocking flags false = if has_nonblock flags then flags else flags + o_nonblock

-- The flags that `fcntl` is given, from those that it gave; `sets` says whether the second call works.
unfoldable pub set_blocking : Bool → Option ℕ → Bool → Result ℕ
unfolding with_blocking
set_blocking block none sets = err unix_error
set_blocking block (some flags) sets =
    if sets then ok (with_blocking flags block) else err unix_error

-- The bit is that of the argument, and the bits below and above it stay.
with_blocking-bits :
    (flags : ℕ) (block : Bool)
    → (has_nonblock (with_blocking flags block) ≡ (if block then false else true))
      × (with_blocking flags block % o_nonblock ≡ flags % o_nonblock)
      × (with_blocking flags block / 4_096 ≡ flags / 4_096)
unfolding with_blocking
with_blocking-bits flags true = (ground arith, ground arith, ground arith)
with_blocking-bits flags false = (ground arith, ground arith, ground arith)
