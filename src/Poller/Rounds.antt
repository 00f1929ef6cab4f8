-- ===== src/Poller/Rounds.antt =====
-- The whole loop of `Poller::poll` that calls back.
use astraea_open_source.Prelude.{
  ℕ, ◌≡◌, ◌≢◌, refl, sym, ap, ◌∙◌, subst, true, if◌then◌else◌, List, [], ◌∷◌, ◌⊎◌, inl, inr,
  Bool-cases, arith, All,
}
use astraea_open_source.Poller.{
  Action, PollFd, Revents, Callbacks, Outcome, success, aborts, is_member, asked, Served, goes,
  stops, Round, is_wanted, wanted, serve, serve_all, next_revents, later_revents,
}
use astraea_open_source.Poller.Calls.{
  Stable, Serves, Halts, Fits, serve-Fits, Paired, Asked, Asked-Paired, faults, asked→is_wanted,
  All-last,
}

abbrev HasAll : List ℕ → List ℕ → Type 0
HasAll removed = All (λ n. is_member removed n ≡ true)

Served-cases :
    {W : Type 0} (s : Served W)
    → ((a : Action) × (r : Round W) × (s ≡ goes a r))
      ⊎ ((a : Action) × (r : Round W) × (o : Outcome) × (s ≡ stops a r o))
Served-cases (goes a r) = inl (a, r, refl)
Served-cases (stops a r o) = inr (a, r, o, refl)

module _ {W : Type 0} (env : Callbacks W) (IsHeld : ℕ → Type 0) (stable : Stable env IsHeld)
    (w : W) where
  abbrev Wanted : List Action → Type 0
  Wanted = All (λ a. is_wanted env w a ≡ true)

  -- What the loop leaves, where the numbers are those of the start.
  pub record Ran (l : List Action) (ps : List PollFd) (vs : List Revents) (r : Round W)
      (l' : List Action) (r' : Round W) (o : Outcome) : Type 0 where
    pub paired : Paired (env.number w) l' ps
    pub held : All (λ a. IsHeld a.fd) l'
    pub numbers : (d : ℕ) → IsHeld d → env.number r'.world d ≡ env.number w d
    pub no_abort : o ≢ aborts
    pub calls : All (λ a. is_wanted env w a ≡ true) r'.called
    pub keeps : (n : ℕ) → is_member r.removed n ≡ true → is_member r'.removed n ≡ true
    pub drops : o ≡ success → All (λ n. is_member r'.removed n ≡ true) (faults (env.number w) l vs)

  Serves-Wanted :
      (a a' : Action) (v : Revents) (r r' : Round W)
      → Serves env IsHeld a (asked v (wanted env w a)) r a' r'
      → Wanted r.called
      → Wanted r'.called
  Serves-Wanted a a' v r r' s all = elim s.calls [
    | inl e ↦ rw e all
    | inr (h, e) ↦ rw e (All-last env w r.called a all (asked→is_wanted env w a v h))
  ]

  faults-more :
      (a : Action) (rest : List Action) (v : Revents) (vs : List Revents) (removed : List ℕ)
      → (v.error ≡ true → is_member removed (env.number w a.fd) ≡ true)
      → HasAll removed (faults (env.number w) rest vs)
      → HasAll removed (
          if v.error
          then env.number w a.fd ∷ faults (env.number w) rest vs
          else faults (env.number w) rest vs)
  faults-more a rest v vs removed h all = elim (Bool-cases v.error) [
    | inl e ↦ simp (e) (h e, all)
    | inr e ↦ simp (e) all
  ]

  pub serve_all-Ran :
      (l : List Action) (ps : List PollFd) (vs : List Revents) (r : Round W)
      → Asked env w l ps
      → All (λ a. IsHeld a.fd) l
      → ((d : ℕ) → IsHeld d → env.number r.world d ≡ env.number w d)
      → Wanted r.called
      → let t = serve_all env l ps vs r in Ran l ps vs r t.0 t.1 t.2
  unfolding serve_all
  serve_all-Ran [] [] vs r h held same all = record {
    paired = tt;
    held = tt;
    numbers = same;
    no_abort = λ p. ground (arith, p);
    calls = all;
    keeps = λ n m. m;
    drops = λ _. tt;
  }
  serve_all-Ran [] (p ∷ ps) vs r h held same all = absurd h
  serve_all-Ran (a ∷ rest) [] vs r h held same all = absurd h
  serve_all-Ran (a ∷ rest) (p ∷ ps) vs r h held same all =
      let v = next_revents vs in
      let fits =
        subst (λ e. Fits env IsHeld a p.fd v.error (asked v e) r (serve env a p v r)) h.0.1
          (serve-Fits env IsHeld stable a p v r (h.0.0 ∙ sym (same a.fd held.0))) in
      elim (Served-cases (serve env a p v r)) [
        | inl (a', r', e) ↦
            let f = subst (Fits env IsHeld a p.fd v.error (asked v (wanted env w a)) r) e fits in
            let later =
              serve_all-Ran rest ps (later_revents vs) r' h.1 held.1
                (λ d k. f.0.numbers d k ∙ same d k) (Serves-Wanted a a' v r r' f.0 all) in
            rw (e, serve_all)
              (record {
                paired = (h.0.0 ∙ ap (env.number w) (sym f.0.same_fd), later.paired);
                held = (subst IsHeld (sym f.0.same_fd) held.0, later.held);
                numbers = later.numbers;
                no_abort = later.no_abort;
                calls = later.calls;
                keeps = λ n m. later.keeps n (f.0.keeps n m);
                drops = λ ok.
                    faults-more a rest v (later_revents vs)
                      (serve_all env rest ps (later_revents vs) r').1.removed
                      (λ x.
                        later.keeps (env.number w a.fd)
                          (subst (λ n. is_member r'.removed n ≡ true) h.0.0 (f.1 x)))
                      (later.drops ok);
              })
        | inr (a', r', o, e) ↦
            let f = subst (Fits env IsHeld a p.fd v.error (asked v (wanted env w a)) r) e fits in
            rw (e, serve_all)
              (record {
                paired =
                    (h.0.0 ∙ ap (env.number w) (sym f.0.same_fd), Asked-Paired env w rest ps h.1);
                held = (subst IsHeld (sym f.0.same_fd) held.0, held.1);
                numbers = λ d k. f.0.numbers d k ∙ same d k;
                no_abort = λ x. subst Halts x f.1;
                calls = Serves-Wanted a a' v r r' f.0 all;
                keeps = f.0.keeps;
                drops = λ x. absurd (subst Halts x f.1);
              })
      ]
