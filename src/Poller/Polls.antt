-- ===== src/Poller/Polls.antt =====
-- A whole poll of net/poller.cc, from lists in step.
use astraea_open_source.Prelude.{
  ℕ, ◌≡◌, ◌≢◌, refl, ◌∙◌, subst, sym, true, false, ==_refl, List, [], ◌++◌, map, ◌⊎◌, inl, inr,
  Bool-cases, arith, All, ℤ, pos, ◌==ℤ◌, length, some,
}
use astraea_open_source.Result.{runtime_error, unix_error}
use astraea_open_source.Poller.{
  Action, PollFd, Revents, Callbacks, Outcome, success, timeout, aborts, exits, throws, Polled,
  failed, timed_out, ready, is_member, new_pollfd, Poller, admit, any_events, is_wanted, Round,
  serve_all, Turn, finish, answer, await, poll, quiet,
}
use astraea_open_source.Poller.Calls.{Paired, Stable, Halts, Asked, Asked-Paired, faults}
use astraea_open_source.Poller.Rounds.{Ran, serve_all-Ran}
use astraea_open_source.Poller.Pairing.{
  Paired-append, length-Paired, remove_actions-kept, All-IsSubset, kept-All, All-kept, ask-Asked,
  Paired-after, All-after,
}

-- The numbers of the actions for which `::poll` reports an error.
abbrev pub reported : (ℕ → ℕ) → List Action → Polled → List ℕ
reported number l failed = []
reported number l timed_out = []
reported number l (ready vs) = faults number l vs

not_at :
    (o : Outcome) {o' : Outcome}
    → Halts o' ⊎ (o' ≡ timeout)
    → o' ≡ o
    → (Halts o → ⊥)
    → timeout ≢ o
    → ⊥
not_at o (inl h) e not_halt other = not_halt (subst Halts e h)
not_at o (inr h) e not_halt other = other (sym h ∙ e)

module _ {W : Type 0} (env : Callbacks W) (IsHeld : ℕ → Type 0) (stable : Stable env IsHeld) where
  -- What a poll from paired lists leaves, where the numbers are those of the start.
  record Sound (p : Poller) (w : W) (kernel : Polled) (t : Turn W) : Type 0 where
    pub paired : Paired (env.number w) t.poller.actions t.poller.pollfds
    pub held : All (λ a. IsHeld a.fd) t.poller.actions
    pub numbers : (d : ℕ) → IsHeld d → env.number t.world d ≡ env.number w d
    pub no_abort : t.outcome ≢ aborts
    pub calls : All (λ a. is_wanted env w a ≡ true) t.called
    pub drops :
        t.outcome ≡ success
        → All
            (λ a.
              is_member
                (reported (env.number w) (p.actions ++ p.add_queue) kernel)
                (env.number w a.fd)
              ≡ false)
            t.poller.actions
    pub forgets :
        t.outcome ≡ success
        → All (λ a. is_member p.to_remove (env.number w a.fd) ≡ false) t.poller.actions

  -- A poll that does not come to its end.
  unfinished-Sound :
      (p : Poller) (w : W) (kernel : Polled) (t : Turn W)
      → Paired (env.number w) t.poller.actions t.poller.pollfds
      → All (λ a. IsHeld a.fd) t.poller.actions
      → ((d : ℕ) → IsHeld d → env.number t.world d ≡ env.number w d)
      → Halts t.outcome ⊎ (t.outcome ≡ timeout)
      → All (λ a. is_wanted env w a ≡ true) t.called
      → Sound p w kernel t
  unfinished-Sound p w kernel t paired held numbers halts calls = record {
    paired = paired;
    held = held;
    numbers = numbers;
    no_abort = λ e. not_at aborts halts e (λ h. h) (λ h. ground (arith, h));
    calls = calls;
    drops = λ e. absurd (not_at success halts e (λ h. h) (λ h. ground (arith, h)));
    forgets = λ e. absurd (not_at success halts e (λ h. h) (λ h. ground (arith, h)));
  }

  finish-Sound :
      (p : Poller) (w : W) (vs : List Revents) (ps : List PollFd) (l : List Action) (r : Round W)
      (o : Outcome)
      → Ran env IsHeld stable w
          (p.actions ++ p.add_queue)
          ps
          vs
          (record { world = w; added = []; removed = p.to_remove; called = [] })
          l
          r
          o
      → Sound p w (ready vs) (finish env ps (l, r, o))
  finish-Sound p w vs ps l r success ran =
      let number = env.number w in
      let (e, paired) = remove_actions-kept number r.removed l ps ran.paired in
      rw e (record {
        paired = paired;
        held = All-kept (λ a. IsHeld a.fd) number r.removed l ran.held;
        numbers = ran.numbers;
        no_abort = λ h. ground (arith, h);
        calls = ran.calls;
        drops = λ done.
            let bad = faults number (p.actions ++ p.add_queue) vs in
            kept-All number r.removed bad l (All-IsSubset r.removed bad (ran.drops done));
        forgets = λ _. kept-All number r.removed p.to_remove l ran.keeps;
      })
  finish-Sound p w vs ps l r timeout ran =
      unfinished-Sound p w (ready vs) (finish env ps (l, r, timeout)) ran.paired ran.held
        ran.numbers (inr refl) ran.calls
  finish-Sound p w vs ps l r aborts ran = absurd (ran.no_abort refl)
  finish-Sound p w vs ps l r (exits status) ran =
      unfinished-Sound p w (ready vs) (finish env ps (l, r, exits status)) ran.paired ran.held
        ran.numbers (inl tt) ran.calls
  finish-Sound p w vs ps l r (throws e) ran =
      unfinished-Sound p w (ready vs) (finish env ps (l, r, throws e)) ran.paired ran.held
        ran.numbers (inl tt) ran.calls

  -- A poll that calls nobody.
  quiet-Sound :
      (p : Poller) (w : W) (kernel : Polled) (q : Poller) (o : Outcome)
      → Paired (env.number w) q.actions q.pollfds
      → All (λ a. IsHeld a.fd) q.actions
      → Halts o ⊎ (o ≡ timeout)
      → Sound p w kernel (quiet env q w o)
  quiet-Sound p w kernel q o paired held halts =
      unfinished-Sound p w kernel (quiet env q w o) paired held (λ d h. refl) halts tt

  module _ (p : Poller) (w : W) (qs : List PollFd)
      (asked : Asked env w (p.actions ++ p.add_queue) qs)
      (held : All (λ a. IsHeld a.fd) (p.actions ++ p.add_queue)) where
    abbrev queued : Poller
    queued = record (admit (env.number w) p) { pollfds = qs }

    queued-Paired : Paired (env.number w) (p.actions ++ p.add_queue) qs
    queued-Paired = Asked-Paired env w (p.actions ++ p.add_queue) qs asked

    answer-Sound : (kernel : Polled) → Sound p w kernel (answer env queued w kernel)
    unfolding answer admit
    answer-Sound failed =
        quiet-Sound p w failed queued (throws unix_error) queued-Paired held (inl tt)
    answer-Sound timed_out = quiet-Sound p w timed_out queued timeout queued-Paired held (inr refl)
    answer-Sound (ready vs) =
        let r : Round W = record { world = w; added = []; removed = p.to_remove; called = [] } in
        let t = serve_all env (p.actions ++ p.add_queue) qs vs r in
        finish-Sound p w vs qs t.0 t.1 t.2 (
          serve_all-Ran env IsHeld stable w (p.actions ++ p.add_queue) qs vs r asked held
            (λ d h. refl) tt)

    asked-Sound :
        (kernel : Polled) → Sound p w kernel (await env (admit (env.number w) p) w kernel (some qs))
    unfolding admit
    asked-Sound kernel = elim (Bool-cases (any_events qs)) [
      | inl y ↦ rw y (answer-Sound kernel)
      | inr n ↦ rw n (quiet-Sound p w kernel queued (exits 0) queued-Paired held (inl tt))
    ]

  poll_sound :
      (p : Poller) (w : W) (timeout_ms : ℤ) (kernel : Polled)
      → Paired (env.number w) p.actions p.pollfds
      → All (λ a. IsHeld a.fd) (p.actions ++ p.add_queue)
      → Sound p w kernel (poll env p w timeout_ms kernel)
  unfolding poll admit
  poll_sound p w timeout_ms kernel h held =
      let number = env.number w in
      let l = p.actions ++ p.add_queue in
      let ps = p.pollfds ++ map (new_pollfd number) p.add_queue in
      let both = Paired-append number p.actions p.pollfds p.add_queue h in
      let (qs, e, asked) = ask-Asked env w l ps both in
      let size = length-Paired number l ps both in
      elim (Bool-cases (timeout_ms ==ℤ pos 0)) [
        | inl z ↦
            rw (size, ==_refl (length l), z)
              (quiet-Sound p w kernel (admit number p) (throws runtime_error) both held (inl tt))
        | inr z ↦ rw (size, ==_refl (length l), z, e) (asked-Sound p w qs asked held kernel)
      ]

-- What a poll that ended in this way leaves of the actions: after a success none on a number that was
-- to be removed or that the kernel reported an error for. `before` are the numbers of the start.
abbrev pub Left : (ℕ → ℕ) → (ℕ → ℕ) → Poller → Polled → List Action → Outcome → Type 0
Left before after p kernel l success =
    All (λ a. is_member p.to_remove (after a.fd) ≡ false) l
    × All (λ a. is_member (reported before (p.actions ++ p.add_queue) kernel) (after a.fd) ≡ false)
        l
Left before after p kernel l timeout = Unit
Left before after p kernel l aborts = ⊥
Left before after p kernel l (exits status) = Unit
Left before after p kernel l (throws e) = Unit

Left-Sound :
    {W : Type 0} (env : Callbacks W) (IsHeld : ℕ → Type 0) (stable : Stable env IsHeld) (p : Poller)
    (w : W) (kernel : Polled) (t : Turn W) (o : Outcome)
    → t.outcome ≡ o
    → Sound env IsHeld stable p w kernel t
    → Left (env.number w) (env.number t.world) p kernel t.poller.actions o
Left-Sound env IsHeld stable p w kernel t success e s =
    let moved = All-after IsHeld (env.number w) (env.number t.world) s.numbers in
    (
      moved p.to_remove t.poller.actions s.held (s.forgets e),
      moved (reported (env.number w) (p.actions ++ p.add_queue) kernel) t.poller.actions s.held
          (s.drops e),
    )
Left-Sound env IsHeld stable p w kernel t timeout e s = tt
Left-Sound env IsHeld stable p w kernel t aborts e s = s.no_abort e
Left-Sound env IsHeld stable p w kernel t (exits status) e s = tt
Left-Sound env IsHeld stable p w kernel t (throws thrown) e s = tt

-- From lists that are paired, an entry with the number of each action's descriptor, where all the
-- actions, the queued ones too, are on descriptors whose numbers no callback changes, and whatever
-- else the callbacks do and the kernel answers: no assertion of the poll fails and the lists are
-- paired after it, also when it throws; only actions that were active and of interest at its start,
-- and not input actions at the end of their file, are called; and after a poll that succeeds no
-- action is left on a number that was to be removed or that the kernel reported an error for.
pub poll-Paired :
    {W : Type 0} (env : Callbacks W) (IsHeld : ℕ → Type 0) (p : Poller) (w : W) (timeout_ms : ℤ)
    (kernel : Polled)
    → Stable env IsHeld
    → All (λ a. IsHeld a.fd) (p.actions ++ p.add_queue)
    → Paired (env.number w) p.actions p.pollfds
    → let t = poll env p w timeout_ms kernel in
      Paired (env.number t.world) t.poller.actions t.poller.pollfds
      × All (λ a. is_wanted env w a ≡ true) t.called
      × Left (env.number w) (env.number t.world) p kernel t.poller.actions t.outcome
poll-Paired env IsHeld p w timeout_ms kernel stable held h =
    let t = poll env p w timeout_ms kernel in
    let s = poll_sound env IsHeld stable p w timeout_ms kernel h held in
    (
      Paired-after IsHeld (env.number w) (env.number t.world) s.numbers t.poller.actions
          t.poller.pollfds s.held s.paired,
      s.calls,
      Left-Sound env IsHeld stable p w kernel t t.outcome refl s,
    )
