-- ===== src/Poller/Calls.antt =====
-- The loop of `Poller::poll` that calls back: what it leaves of the two lists, whom it calls, and
-- what it has noted for removal.
use astraea_open_source.Prelude.{
  ℕ, ◌≡◌, refl, sym, ap, ◌∙◌, Bool, true, false, ◌==◌, ==_refl, ◌||◌, if◌then◌else◌, List, [], ◌∷◌,
  ◌++◌, ◌⊎◌, inl, inr, Bool-cases, arith, All,
}
use astraea_open_source.Result.{Result, ok, err, runtime_error}
use astraea_open_source.Poller.{
  Action, PollFd, Revents, ResultType, continue, cancel, cancel_all, exit, Call, Callbacks, Outcome,
  success, timeout, aborts, exits, throws, is_member, asked, Served, goes, stops, Round, wanted,
  is_wanted, noted, drop_fd, settle, give_up, unless_busy, call_back, serve, next_revents,
  later_revents,
}

pub is_member-append :
    (ms ns : List ℕ) (n : ℕ) → is_member (ms ++ ns) n ≡ (is_member ms n || is_member ns n)
is_member-append [] ns n = refl
is_member-append (m ∷ ms) ns n = ground (arith, is_member-append ms ns n)

-- The number just put at the end is there, and the others stay.
is_member-last : (ms : List ℕ) (n : ℕ) → is_member (ms ++ (n ∷ [])) n ≡ true
is_member-last ms n = ground (arith, is_member-append ms (n ∷ []) n)

is_member-more : (ms ns : List ℕ) (n : ℕ) → is_member ms n ≡ true → is_member (ms ++ ns) n ≡ true
is_member-more ms ns n h = ground (arith, is_member-append ms ns n)

-- How the loop may end before it is through.
abbrev pub Halts : Outcome → Type 0
Halts success = ⊥
Halts timeout = ⊥
Halts aborts = ⊥
Halts (exits status) = Unit
Halts (throws e) = Unit

module _ {W : Type 0} (env : Callbacks W) (IsHeld : ℕ → Type 0) where
  -- The callbacks leave the numbers of the descriptors that are held as they are.
  pub record Stable : Type 0 where
    pub call_keeps :
        (v : W) (a : Action) (d : ℕ) → IsHeld d → env.number (env.call v a).world d ≡ env.number v d
    pub fderror_keeps :
        (v : W) (a : Action) (d : ℕ)
        → IsHeld d
        → env.number (env.fderror v a).world d ≡ env.number v d

  -- What serving one action does to it and to the round.
  pub record Serves (a : Action) (asks : Bool) (r : Round W) (a' : Action) (r' : Round W)
      : Type 0 where
    pub same_fd : a'.fd ≡ a.fd
    pub keeps : (n : ℕ) → is_member r.removed n ≡ true → is_member r'.removed n ≡ true
    pub calls : (r'.called ≡ r.called) ⊎ ((asks ≡ true) × (r'.called ≡ r.called ++ (a ∷ [])))
    pub numbers : (d : ℕ) → IsHeld d → env.number r'.world d ≡ env.number r.world d

  abbrev pub Fits : Action → ℕ → Bool → Bool → Round W → Served W → Type 0
  Fits a n error asks r (goes a' r') =
      Serves a asks r a' r' × (error ≡ true → is_member r'.removed n ≡ true)
  Fits a n error asks r (stops a' r' o) = Serves a asks r a' r' × Halts o

module _ {W : Type 0} (env : Callbacks W) (IsHeld : ℕ → Type 0) (stable : Stable env IsHeld) where
  -- A call notes more numbers, and no fewer.
  noted-Serves :
      (a : Action) (asks : Bool) (r r' : Round W) (c : Call W)
      → ((d : ℕ) → IsHeld d → env.number c.world d ≡ env.number r'.world d)
      → Serves env IsHeld a asks r a r'
      → Serves env IsHeld a asks r a (noted env r' c)
  noted-Serves a asks r r' c same s = record {
    same_fd = s.same_fd;
    keeps = λ n h. is_member-more r'.removed c.removed n (s.keeps n h);
    calls = s.calls;
    numbers = λ d h. same d h ∙ s.numbers d h;
  }

  drop_fd-Fits :
      (a : Action) (n : ℕ) (asks error : Bool) (r r' : Round W) (result : Result ResultType)
      → Serves env IsHeld a asks r a r'
      → Fits env IsHeld a n error asks r (drop_fd env a n r' result)
  drop_fd-Fits a n asks error r r' (ok result) s = (
    record {
      same_fd = refl;
      keeps = λ m h. is_member-more r'.removed (n ∷ []) m (s.keeps m h);
      calls = s.calls;
      numbers = s.numbers;
    },
    λ faulty. is_member-last r'.removed n,
  )
  drop_fd-Fits a n asks error r r' (err e) s = (s, tt)

  give_up-Fits :
      (a : Action) (n : ℕ) (asks error : Bool) (r r' : Round W)
      → Serves env IsHeld a asks r a r'
      → Fits env IsHeld a n error asks r (give_up env a n r')
  unfolding give_up
  give_up-Fits a n asks error r r' s =
      let c = env.fderror r'.world a in
      drop_fd-Fits a n asks error r (noted env r' c) c.outcome
        (noted-Serves a asks r r' c (stable.fderror_keeps r'.world a) s)

  either-Fits :
      (a : Action) (n : ℕ) (error asks choice : Bool) (r : Round W) (first second : Served W)
      → Fits env IsHeld a n error asks r first
      → Fits env IsHeld a n error asks r second
      → Fits env IsHeld a n error asks r (if choice then first else second)
  either-Fits a n error asks true r first second one two = one
  either-Fits a n error asks false r first second one two = two

  unless_busy-Fits :
      (before : ℕ) (a a' : Action) (n : ℕ) (asks : Bool) (r r' : Round W)
      → Serves env IsHeld a asks r a' r'
      → Fits env IsHeld a n false asks r (unless_busy env before a' r')
  unless_busy-Fits before a a' n asks r r' s =
      either-Fits a n false asks (env.service_count r'.world a'.fd a'.direction == before) r
        (stops a' r' (throws runtime_error)) (goes a' r') (s, tt)
        (s, λ h. absurd (ground (arith, h)))

  settle-Fits :
      (before : ℕ) (a : Action) (n : ℕ) (r r' : Round W) (result : Result ResultType)
      → Serves env IsHeld a true r a r'
      → Fits env IsHeld a n false true r (settle env before a n r' result)
  unfolding give_up
  settle-Fits before a n r r' (ok continue) s = unless_busy-Fits before a a n true r r' s
  settle-Fits before a n r r' (ok cancel) s =
      unless_busy-Fits before a (record a { active = false }) n true r r'
        (record { same_fd = refl; keeps = s.keeps; calls = s.calls; numbers = s.numbers })
  settle-Fits before a n r r' (ok cancel_all) s =
      unless_busy-Fits before a a n true r (record r' { removed = r'.removed ++ (n ∷ []) })
        (record {
          same_fd = refl;
          keeps = λ m h. is_member-more r'.removed (n ∷ []) m (s.keeps m h);
          calls = s.calls;
          numbers = s.numbers;
        })
  settle-Fits before a n r r' (ok (exit status)) s = (s, tt)
  settle-Fits before a n r r' (err e) s =
      either-Fits a n false true a.fail_poller r (stops a r' (throws e)) (give_up env a n r')
        (s, tt) (give_up-Fits a n true false r r' s)

  -- The round as a served action finds it.
  same-Serves : (a : Action) (asks : Bool) (r : Round W) → Serves env IsHeld a asks r a r
  same-Serves a asks r = record {
    same_fd = refl;
    keeps = λ n h. h;
    calls = inl refl;
    numbers = λ d h. refl;
  }

  call_back-Fits :
      (a : Action) (n : ℕ) (r : Round W) → Fits env IsHeld a n false true r (call_back env a n r)
  unfolding call_back give_up
  call_back-Fits a n r =
      let c = env.call r.world a in
      settle-Fits (env.service_count r.world a.fd a.direction) a n r
        (record (noted env r c) { called = r.called ++ (a ∷ []) }) c.outcome
        (record {
          same_fd = refl;
          keeps = λ m h. is_member-more r.removed c.removed m h;
          calls = inr (refl, refl);
          numbers = stable.call_keeps r.world a;
        })

  pub serve-Fits :
      (a : Action) (p : PollFd) (v : Revents) (r : Round W)
      → p.fd ≡ env.number r.world a.fd
      → Fits env IsHeld a p.fd v.error (asked v p.events) r (serve env a p v r)
  unfolding serve call_back give_up
  serve-Fits a p v r same =
      let here = ap (λ n. p.fd == n) (sym same) ∙ ==_refl p.fd in
      elim (Bool-cases v.error) [
        | inl e ↦
            rw (here, e)
              (give_up-Fits a p.fd (asked v p.events) true r r (same-Serves a (asked v p.events) r))
        | inr e ↦ elim (Bool-cases (asked v p.events)) [
          | inl h ↦ rw (here, e, h) (call_back-Fits a p.fd r)
          | inr h ↦ rw (here, e, h) (same-Serves a false r, λ l. absurd (ground (arith, l)))
        ]
      ]

-- The two lists are in step: the numbers of the actions' descriptors, in the same order.
abbrev pub Paired : (ℕ → ℕ) → List Action → List PollFd → Type 0
Paired number [] [] = Unit
Paired number [] (p ∷ ps) = ⊥
Paired number (a ∷ rest) [] = ⊥
Paired number (a ∷ rest) (p ∷ ps) = (p.fd ≡ number a.fd) × Paired number rest ps

-- The numbers for which the kernel reports an error.
abbrev pub faults : (ℕ → ℕ) → List Action → List Revents → List ℕ
faults number [] vs = []
faults number (a ∷ rest) vs =
    let others = faults number rest (later_revents vs) in
    if (next_revents vs).error then number a.fd ∷ others else others

module _ {W : Type 0} (env : Callbacks W) (w : W) where
  -- Every `events` is what the loop before wrote, at the world of that time.
  abbrev pub Asked : List Action → List PollFd → Type 0
  Asked [] [] = Unit
  Asked [] (p ∷ ps) = ⊥
  Asked (a ∷ rest) [] = ⊥
  Asked (a ∷ rest) (p ∷ ps) =
      ((p.fd ≡ env.number w a.fd) × (p.events ≡ wanted env w a)) × Asked rest ps

  pub Asked-Paired : (l : List Action) (ps : List PollFd) → Asked l ps → Paired (env.number w) l ps
  Asked-Paired [] [] h = tt
  Asked-Paired [] (p ∷ ps) h = absurd h
  Asked-Paired (a ∷ rest) [] h = absurd h
  Asked-Paired (a ∷ rest) (p ∷ ps) h = (h.0.0, Asked-Paired rest ps h.1)

  pub asked→is_wanted :
      (a : Action) (v : Revents) → asked v (wanted env w a) ≡ true → is_wanted env w a ≡ true
  asked→is_wanted a v h = elim (Bool-cases (is_wanted env w a)) [
    | inl e ↦ e
    | inr e ↦ absurd (ground (arith, h, e))
  ]

  pub All-last :
      (l : List Action) (a : Action)
      → All (λ b. is_wanted env w b ≡ true) l
      → is_wanted env w a ≡ true
      → All (λ b. is_wanted env w b ≡ true) (l ++ (a ∷ []))
  All-last [] a all one = (one, tt)
  All-last (b ∷ l) a all one = (all.0, All-last l a all.1 one)
