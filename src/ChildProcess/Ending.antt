-- ===== src/ChildProcess/Ending.antt =====
-- The destructor of net/child_process.cc: it ends, and what it sends.
use astraea_open_source.Prelude.{
  ℕ, ◌≡◌, refl, ap, ◌∙◌, subst, Bool, true, false, not, ◌&&◌, ◌||◌, ◌==◌, ==_refl, if◌then◌else◌,
  List, [], ◌∷◌, ◌++◌, map, ◌⊎◌, inl, inr, Bool-cases, arith, none, some,
}
use astraea_open_source.Result.{Error, unix_error}
use astraea_open_source.ChildProcess.{
  ChildProcess, Code, exited, killed, dumped, stopped, continued, other, SigInfo, Outcome, returns,
  throws, aborts, SystemAnswer, changed, wait, signal, sigcont, resume, Turn, Progress, ended,
  waiting, turn, end_child, destroy,
}

-- A report that the child has stopped or gone on.
abbrev pub is_change : Code → Bool
is_change stopped = true
is_change continued = true
is_change exited = false
is_change killed = false
is_change dumped = false
is_change other = false

abbrev pub is_report : ℕ → SystemAnswer → Bool
is_report pid none = false
is_report pid (some info) = (info.si_pid == pid) && info.is_sigchld && is_change info.si_code

-- Whether some answer is no report that the child with this number has stopped or gone on.
abbrev pub has_end : ℕ → List Turn → Bool
has_end pid [] = false
has_end pid (t ∷ later) = not (is_report pid t.answer) || has_end pid later

-- What a `wait` or a turn from a live child leaves.
abbrev pub Lives : ChildProcess → SystemAnswer → Outcome ChildProcess → Type 0
Lives c answer (returns c') =
    (c'.moved_away ≡ false) × (c'.pid ≡ c.pid) × (is_report c.pid answer ≡ not c'.terminated)
Lives c answer (throws e) = Unit
Lives c answer aborts = ⊥

changed-Lives :
    (c : ChildProcess) (info : SigInfo)
    → c.moved_away ≡ false
    → c.terminated ≡ false
    → (info.si_pid == c.pid) ≡ true
    → info.is_sigchld ≡ true
    → (code : Code) → info.si_code ≡ code
    → Lives c (some info) (changed c info.si_status code)
changed-Lives c info here live same chld exited e = rw (e, same, chld) (here, refl, refl)
changed-Lives c info here live same chld killed e = rw (e, same, chld) (here, refl, refl)
changed-Lives c info here live same chld dumped e = rw (e, same, chld) (here, refl, refl)
changed-Lives c info here live same chld stopped e = rw (e, same, chld, live) (here, refl, refl)
changed-Lives c info here live same chld continued e = rw (e, same, chld, live) (here, refl, refl)
changed-Lives c info here live same chld other e = tt

pub wait-Lives :
    (c : ChildProcess) (nonblocking : Bool) (answer : SystemAnswer)
    → c.moved_away ≡ false
    → c.terminated ≡ false
    → Lives c answer (wait c nonblocking answer)
unfolding wait
wait-Lives c nonblocking none here live = rw (here, live) tt
wait-Lives c nonblocking (some info) here live =
    elim (Bool-cases (nonblocking && (info.si_pid == 0))) [
      | inl e ↦ rw (here, live, e) tt
      | inr absent ↦ elim (Bool-cases (info.si_pid == c.pid)) [
        | inr e ↦ rw (here, live, absent, e) tt
        | inl e ↦ elim (Bool-cases info.is_sigchld) [
          | inr h ↦ rw (here, live, absent, e, h) tt
          | inl h ↦
              simp (here, live, absent, e, h) (changed-Lives c info here live e h info.si_code refl)
        ]
      ]
    ]

pub Outcome-cases :
    {A : Type 0} (o : Outcome A)
    → ((a : A) × (o ≡ returns a)) ⊎ (((e : Error) × (o ≡ throws e)) ⊎ (o ≡ aborts))
Outcome-cases (returns a) = inl (a, refl)
Outcome-cases (throws e) = inr (inl (e, refl))
Outcome-cases aborts = inr (inr refl)

signal_cases :
    (c : ChildProcess) (sig : ℕ) (works : Bool)
    → c.moved_away ≡ false
    → c.terminated ≡ false
    → (signal c sig works ≡ returns (sig ∷ [])) ⊎ (signal c sig works ≡ throws unix_error)
unfolding signal
signal_cases c sig true here live = inl (rw (here, live) refl)
signal_cases c sig false here live = inr (rw (here, live) refl)

resume_cases :
    (c : ChildProcess) (works : Bool)
    → c.moved_away ≡ false
    → c.terminated ≡ false
    → ((sent : List ℕ) × (resume c works ≡ returns sent)) ⊎ (resume c works ≡ throws unix_error)
unfolding resume
resume_cases c works here live = elim (Bool-cases c.running) [
  | inl r ↦ inl ([], rw (here, r) refl)
  | inr r ↦ elim (signal_cases c sigcont works here live) [
    | inl e ↦ inl (sigcont ∷ [], simp (here, r, e))
    | inr e ↦ inr (simp (here, r, e))
  ]
]

turn-Lives :
    (c : ChildProcess) (t : Turn)
    → c.moved_away ≡ false
    → c.terminated ≡ false
    → Lives c t.answer (turn c t).1
unfolding turn
turn-Lives c t here live = elim (resume_cases c t.resumes here live) [
  | inr e ↦ rw e tt
  | inl (sent, e) ↦ elim (signal_cases c c.graceful_termination_signal t.signals here live) [
    | inr h ↦ rw (e, h) tt
    | inl h ↦ rw (e, h) (wait-Lives c false t.answer here live)
  ]
]

end_child-terminated :
    (c : ChildProcess) (ts : List Turn) → c.terminated ≡ true → (end_child c ts).1 ≡ ended
unfolding end_child
end_child-terminated c [] dead = rw dead refl
end_child-terminated c (t ∷ ts) dead = rw dead refl

-- Ended, or waiting after reports only.
abbrev Settled : ℕ → List Turn → Progress → Type 0
Settled pid ts p = (p ≡ ended) ⊎ ((p ≡ waiting) × (has_end pid ts ≡ false))

end_child-Settled :
    (c : ChildProcess) (ts : List Turn)
    → c.moved_away ≡ false
    → c.terminated ≡ false
    → Settled c.pid ts (end_child c ts).1
unfolding end_child
end_child-Settled c [] here live = inr (rw live refl, refl)
end_child-Settled c (t ∷ ts) here live = elim (Outcome-cases (turn c t).1) [
  | inl (c', e) ↦
      let (here', same, report) = subst (Lives c t.answer) e (turn-Lives c t here live) in
      elim (Bool-cases c'.terminated) [
        | inl dead ↦ inl (rw (e, live) (end_child-terminated c' ts dead))
        | inr live' ↦
            let later =
              subst (λ n. Settled n ts (end_child c' ts).1) same
                (end_child-Settled c' ts here' live') in
            rw (e, live, report ∙ ap not live') later
      ]
  | inr (inl (thrown, e)) ↦ inl (rw (e, live) refl)
  | inr (inr e) ↦ absurd (subst (Lives c t.answer) e (turn-Lives c t here live))
]

-- The destructor fails no assertion, and it waits on only while every answer of `waitid` so far was
-- a report that this child has stopped or gone on: with any other answer, an error included, it
-- comes to its end, whatever the state of the object.
pub destroy-ends :
    (c : ChildProcess) (turns : List Turn)
    → ((destroy c turns).1 ≡ ended)
      ⊎ (((destroy c turns).1 ≡ waiting) × (has_end c.pid turns ≡ false))
unfolding destroy
destroy-ends c turns = elim (Bool-cases c.moved_away) [
  | inl away ↦ inl (rw away refl)
  | inr here ↦ elim (Bool-cases c.terminated) [
    | inl dead ↦ inl (simp here (end_child-terminated c turns dead))
    | inr live ↦ simp here (end_child-Settled c turns here live)
  ]
]

-- The destructor's turn for a report, with no call that fails.
abbrev pub reporting : ℕ → Bool → Turn
reporting pid stops = record {
  resumes = true;
  signals = true;
  answer = some (record {
    si_pid = pid;
    is_sigchld = true;
    si_code = if stops then stopped else continued;
    si_status = 0;
  });
}

-- The signals for reports: `true` for a stop.
abbrev pub expected : ℕ → Bool → List Bool → List ℕ
expected sig running [] = []
expected sig running (stops ∷ later) =
    (if running then [] else sigcont ∷ []) ++ (sig ∷ expected sig (not stops) later)

signals_of :
    (c : ChildProcess) (reports : List Bool)
    → c.moved_away ≡ false
    → c.terminated ≡ false
    → end_child c (map (reporting c.pid) reports)
      ≡ (expected c.graceful_termination_signal c.running reports, waiting)
unfolding end_child turn resume signal wait
signals_of c [] here live = simp live
signals_of c (stops ∷ reports) here live =
    let rest = signals_of (record c { running = not stops }) reports here live in
    elim (Bool-cases c.running) [
      | inl r ↦ ground (arith, here, live, r, rest, ==_refl c.pid)
      | inr r ↦ ground (arith, here, live, r, rest, ==_refl c.pid)
    ]

-- With a child that is there and whose end is not known yet, and calls that do not fail, each report
-- of a stop or a continuation makes the destructor send its termination signal once more, after a
-- SIGCONT where the child was last reported stopped; it is then waiting.
pub destroy-signals :
    (c : ChildProcess) (reports : List Bool)
    → c.moved_away ≡ false
    → c.terminated ≡ false
    → destroy c (map (reporting c.pid) reports)
      ≡ (expected c.graceful_termination_signal c.running reports, waiting)
unfolding destroy
destroy-signals c reports here live = simp here (signals_of c reports here live)
