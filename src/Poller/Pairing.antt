-- ===== src/Poller/Pairing.antt =====
-- The actions and the `pollfd` entries of net/poller.cc stay in step, and what a poll does then.
use astraea_open_source.Prelude.{
  ℕ, ◌≡◌, refl, sym, false, ap, ◌∙◌, subst, true, false, ◌==◌, ==_refl, ==_iff, if◌then◌else◌, List,
  [], ◌∷◌, ◌++◌, map, inl, inr, Bool-cases, arith, All, length, some,
}
use astraea_open_source.Poller.{
  Action, PollFd, Callbacks, is_member, remove_actions, new_pollfd, ask, wanted,
}
use astraea_open_source.Poller.Calls.{Paired, Asked}

pub Paired-append :
    (number : ℕ → ℕ) (l : List Action) (ps : List PollFd) (queue : List Action)
    → Paired number l ps
    → Paired number (l ++ queue) (ps ++ map (new_pollfd number) queue)
Paired-append number [] [] [] h = tt
Paired-append number [] [] (q ∷ queue) h = (refl, Paired-append number [] [] queue tt)
Paired-append number [] (p ∷ ps) queue h = absurd h
Paired-append number (a ∷ l) [] queue h = absurd h
Paired-append number (a ∷ l) (p ∷ ps) queue h = (h.0, Paired-append number l ps queue h.1)

pub length-Paired :
    (number : ℕ → ℕ) (l : List Action) (ps : List PollFd)
    → Paired number l ps
    → length ps ≡ length l
length-Paired number [] [] h = refl
length-Paired number [] (p ∷ ps) h = absurd h
length-Paired number (a ∷ l) [] h = absurd h
length-Paired number (a ∷ l) (p ∷ ps) h = omega (arith, length-Paired number l ps h.1)

-- The actions whose descriptor's number is not among the numbers.
abbrev pub kept : (ℕ → ℕ) → List ℕ → List Action → List Action
kept number fds [] = []
kept number fds (a ∷ l) =
    if is_member fds (number a.fd) then kept number fds l else a ∷ kept number fds l

abbrev pub kept_fds : List ℕ → List PollFd → List PollFd
kept_fds fds [] = []
kept_fds fds (p ∷ ps) = if is_member fds p.fd then kept_fds fds ps else p ∷ kept_fds fds ps

-- On paired lists, the one loop over both lists of `remove_actions` is a filter of each list by the
-- numbers to be removed, and the lists that are left are paired.
pub remove_actions-kept :
    (number : ℕ → ℕ) (fds : List ℕ) (l : List Action) (ps : List PollFd)
    → Paired number l ps
    → (remove_actions fds l ps ≡ (kept number fds l, kept_fds fds ps))
      × Paired number (kept number fds l) (kept_fds fds ps)
unfolding remove_actions
remove_actions-kept number fds [] [] h = (refl, tt)
remove_actions-kept number fds [] (p ∷ ps) h = absurd h
remove_actions-kept number fds (a ∷ l) [] h = absurd h
remove_actions-kept number fds (a ∷ l) (p ∷ ps) h =
    let (e, paired) = remove_actions-kept number fds l ps h.1 in
    let same = ap (is_member fds) h.0 in
    elim (Bool-cases (is_member fds (number a.fd))) [
      | inl m ↦ simp (same ∙ m, m, e) (refl, paired)
      | inr m ↦ simp (same ∙ m, m, e) (refl, (h.0, paired))
    ]

abbrev pub IsSubset : List ℕ → List ℕ → Type 0
IsSubset ns fds = (n : ℕ) → is_member ns n ≡ true → is_member fds n ≡ true

pub All-IsSubset : (fds ns : List ℕ) → All (λ m. is_member fds m ≡ true) ns → IsSubset ns fds
All-IsSubset fds [] all n h = absurd (ground (arith, h))
All-IsSubset fds (m ∷ ns) all n h = elim (Bool-cases (m == n)) [
  | inl e ↦ subst (λ k. is_member fds k ≡ true) ((==_iff m n).0 e) all.0
  | inr e ↦ All-IsSubset fds ns all.1 n (ground (arith, h, e))
]

-- None of the numbers to be removed is left.
pub kept-All :
    (number : ℕ → ℕ) (fds ns : List ℕ) (l : List Action)
    → IsSubset ns fds
    → All (λ a. is_member ns (number a.fd) ≡ false) (kept number fds l)
kept-All number fds ns [] sub = tt
kept-All number fds ns (a ∷ l) sub = elim (Bool-cases (is_member fds (number a.fd))) [
  | inl m ↦ simp m (kept-All number fds ns l sub)
  | inr m ↦ simp m (ground (arith, m, sub (number a.fd)), kept-All number fds ns l sub)
]

pub All-kept :
    (P : Action → Type 0) (number : ℕ → ℕ) (fds : List ℕ) (l : List Action)
    → All P l
    → All P (kept number fds l)
All-kept P number fds [] all = tt
All-kept P number fds (a ∷ l) all = elim (Bool-cases (is_member fds (number a.fd))) [
  | inl m ↦ simp m (All-kept P number fds l all.1)
  | inr m ↦ simp m (all.0, All-kept P number fds l all.1)
]

module _ {W : Type 0} (env : Callbacks W) where
  pub ask-Asked :
      (w : W) (l : List Action) (ps : List PollFd)
      → Paired (env.number w) l ps
      → (qs : List PollFd) × (ask env w l ps ≡ some qs) × Asked env w l qs
  unfolding ask
  ask-Asked w [] [] h = ([], refl, tt)
  ask-Asked w [] (p ∷ ps) h = absurd h
  ask-Asked w (a ∷ l) [] h = absurd h
  ask-Asked w (a ∷ l) (p ∷ ps) h =
      let (qs, e, asked) = ask-Asked w l ps h.1 in
      (
        record p { events = wanted env w a } ∷ qs,
        rw (ap (λ n. n == env.number w a.fd) h.0 ∙ ==_refl (env.number w a.fd), e) refl,
        ((h.0, refl), asked),
      )

-- The numbers of the start are those of the end, on actions of descriptors that are held.
module _ (IsHeld : ℕ → Type 0) (before after : ℕ → ℕ)
    (same : (d : ℕ) → IsHeld d → after d ≡ before d) where
  pub Paired-after :
      (l : List Action) (ps : List PollFd)
      → All (λ a. IsHeld a.fd) l
      → Paired before l ps
      → Paired after l ps
  Paired-after [] [] held h = tt
  Paired-after [] (p ∷ ps) held h = absurd h
  Paired-after (a ∷ l) [] held h = absurd h
  Paired-after (a ∷ l) (p ∷ ps) held h =
      (h.0 ∙ sym (same a.fd held.0), Paired-after l ps held.1 h.1)

  pub All-after :
      (fds : List ℕ) (l : List Action)
      → All (λ a. IsHeld a.fd) l
      → All (λ a. is_member fds (before a.fd) ≡ false) l
      → All (λ a. is_member fds (after a.fd) ≡ false) l
  All-after fds [] held h = tt
  All-after fds (a ∷ l) held h =
      (ap (is_member fds) (same a.fd held.0) ∙ h.0, All-after fds l held.1 h.1)
