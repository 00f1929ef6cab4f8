-- ===== src/Signals.antt =====
-- net/signalfd.cc: masks of signals, and the descriptor that delivers them. What the system calls
-- answer is an argument.
pub mod Masks
use astraea_open_source.Prelude.{
  ℕ, zero, suc, ◌+◌, Bool, true, false, ◌||◌, ◌==◌, if◌then◌else◌, List, [], ◌∷◌, Option, length,
}
use astraea_open_source.Result.{
  Result, ok, err, runtime_error, unix_error, or_throw, throw_unless, ◌>>=◌, ◌>>◌,
}
use astraea_open_source.FileDescriptor.{FileDescriptor, sys_fails, read}

-- The members of `mask_`
pub record SignalMask : Type 0 where
  pub signals : List ℕ

abbrev pub is_in : ℕ → List ℕ → Bool
is_in signum [] = false
is_in signum (s ∷ signals) = (s == signum) || is_in signum signals

abbrev pub sigismember : SignalMask → ℕ → Bool
sigismember mask signum = is_in signum mask.signals

-- `sigaddset` of each signal; `valid` says for which the call succeeds.
unfoldable pub add_all : (ℕ → Bool) → SignalMask → List ℕ → Result SignalMask
add_all valid mask [] = ok mask
add_all valid mask (signal ∷ signals) =
    let rest = add_all valid (record { signals = signal ∷ mask.signals }) signals in
    if valid signal then rest else err unix_error

-- `SignalMask(signals)`; `empties` is the result of `sigemptyset`.
unfoldable pub construct : (ℕ → Bool) → Bool → List ℕ → Result SignalMask
unfolding add_all
construct valid empties signals =
    throw_unless empties unix_error >> add_all valid (record { signals = [] }) signals

-- `SignalMask::current_mask`, from what `sigprocmask` leaves
abbrev pub current_mask : Option SignalMask → Result SignalMask
current_mask answer = or_throw unix_error answer

-- `SignalMask::set_as_mask`
abbrev pub set_as_mask : Bool → Result (Unit {0})
set_as_mask works = throw_unless works unix_error

abbrev pub sigrtmax : ℕ
sigrtmax = 64

abbrev pub same_bit : Bool → Bool → Bool
same_bit true b = b
same_bit false true = false
same_bit false false = true

-- `n` rounds of the loop, from `signum` on
unfoldable pub agree : ℕ → ℕ → SignalMask → SignalMask → Bool
agree zero signum a b = true
agree (suc n) signum a b =
    let rest = agree n (signum + 1) a b in
    if same_bit (sigismember a signum) (sigismember b signum) then rest else false

-- `operator==`: the signals from 0 to the one below `SIGRTMAX`
unfoldable pub equals : SignalMask → SignalMask → Bool
unfolding agree
equals a b = agree sigrtmax 0 a b

-- `sizeof(signalfd_siginfo)`
abbrev pub siginfo_size : ℕ
siginfo_size = 128

-- `SignalFD::read_signal`: the bytes of a signal
unfoldable pub read_signal : FileDescriptor → FileDescriptor × Result (List ℕ)
read_signal fd =
    let got = read fd siginfo_size in
    if sys_fails fd
    then (fd, err unix_error)
    else (got.1, if length got.0 == siginfo_size then ok got.0 else err runtime_error)
