-- ===== src/Signals/Masks.antt =====
-- The comparison of masks in net/signalfd.cc.
use astraea_open_source.Prelude.{
  ℕ, zero, suc, ◌+◌, ◌≤◌, ◌≡◌, refl, Bool, true, false, ◌==◌, ◌∷◌, arith,
}
use astraea_open_source.Signals.{SignalMask, sigismember, same_bit, agree, equals, sigrtmax}

abbrev with_signal : ℕ → SignalMask → SignalMask
with_signal signal mask = record { signals = signal ∷ mask.signals }

same_bit_refl : (b : Bool) → same_bit b b ≡ true
same_bit_refl true = refl
same_bit_refl false = refl

agree_with :
    (n signum signal : ℕ) (mask : SignalMask)
    → signum + n ≤ signal
    → agree n signum (with_signal signal mask) mask ≡ true
unfolding agree
agree_with zero signum signal mask h = refl
agree_with (suc n) signum signal mask h =
    let other : (signal == signum) ≡ false = ground arith in
    rw (other, same_bit_refl (sigismember mask signum))
      (agree_with n (signum + 1) signal mask (omega arith))

-- A signal from `SIGRTMAX` on makes no difference to `operator==`, so that masks that differ in
-- `SIGRTMAX` are equal.
equals_without_rtmax :
    (signal : ℕ) (mask : SignalMask)
    → sigrtmax ≤ signal
    → equals (with_signal signal mask) mask ≡ true
unfolding equals
equals_without_rtmax signal mask h = agree_with sigrtmax 0 signal mask h
