-- ===== src/ProcessManager/Visit.antt =====
-- One child in the loop of `ProcessManager::handle_signal`, net/child_process.cc.
use astraea_open_source.Prelude.{
  ℕ, ◌≡◌, ◌≢◌, refl, Bool, true, false, ◌==◌, [], ◌∷◌, inl, inr, Bool-cases, Option-cases, arith,
  Option, none, some, All,
}
use astraea_open_source.Result.{undefined}
use astraea_open_source.ChildProcess.{
  ChildProcess, SystemAnswer, Outcome, returns, throws, aborts, waitable, wait,
}
use astraea_open_source.ChildProcess.Ending.{Lives, wait-Lives}
use astraea_open_source.ProcessManager.{
  ProcessManager, Children, Step, run_callback, destroys, Verdict, keeps, stops, erases, clears,
  World, find, succeed, unless_missing, judge, waited, if_waitable, visit,
}

-- A child for which `waitable` and `wait` fail no assertion.
abbrev pub IsLive : ChildProcess → Type 0
IsLive c = (c.moved_away ≡ false) × (c.terminated ≡ false)

abbrev pub AllLive : Children → Type 0
AllLive = All (λ entry. IsLive entry.1)

abbrev pub Agrees : Verdict → Outcome (Unit {0}) → Type 0
Agrees (keeps c) (returns done) = IsLive c
Agrees (keeps c) (throws e) = ⊥
Agrees (keeps c) aborts = ⊥
Agrees erases (returns done) = Unit
Agrees erases (throws e) = ⊥
Agrees erases aborts = ⊥
Agrees clears (returns done) = ⊥
Agrees clears (throws e) = e ≡ undefined
Agrees clears aborts = ⊥
Agrees (stops c) (returns done) = ⊥
Agrees (stops c) (throws e) = Unit
Agrees (stops c) aborts = ⊥

module _ (m : ProcessManager) (world : World) where
  run_callback-Agrees :
      (pid : ℕ) (c : ChildProcess) (name : Option ℕ) (absent next : Step)
      → Agrees absent.1 absent.2
      → Agrees next.1 next.2
      → let v = run_callback m world pid c name absent next in Agrees v.1 v.2
  run_callback-Agrees pid c none absent next h g = h
  run_callback-Agrees pid c (some name) absent next h g =
      elim (Option-cases (world.thrown_by name)) [ inl e ↦ simp e g | inr (thrown, e) ↦ simp e tt ]

  judge-Agrees :
      (pid : ℕ) (c : ChildProcess)
      → c.moved_away ≡ false
      → Agrees (judge m world pid c).1 (judge m world pid c).2
  unfolding judge
  judge-Agrees pid c here =
      let gone : Step = (destroys pid ∷ [], erases, returns tt) in
      let done = run_callback-Agrees pid c (find pid m.callbacks) gone gone tt tt in
      let lost : Step = ([], clears, throws undefined) in
      let missing : (next : Step)
          → Agrees next.1 next.2
          → let v = unless_missing m world pid c next in Agrees v.1 v.2 =
        λ next h. run_callback-Agrees pid c (find pid m.error_callbacks) lost next refl h in
      elim (Bool-cases c.terminated) [
        | inl dead ↦ elim (Bool-cases (c.exit_status == 0)) [
          | inl e ↦ simp (dead, e) done
          | inr e ↦ simp (dead, e) (missing (succeed m world pid c) done)
        ]
        | inr live ↦ elim (Bool-cases c.running) [
          | inl e ↦ simp (live, e) (here, refl)
          | inr e ↦ simp (live, e) (missing ([], keeps c, returns tt) (here, live))
        ]
      ]

  waited-Agrees :
      (pid : ℕ) (c : ChildProcess) (o : Outcome ChildProcess) (answer : SystemAnswer)
      → Lives c answer o
      → Agrees (waited m world pid c o).1 (waited m world pid c o).2
  waited-Agrees pid c (returns c') answer h = judge-Agrees pid c' h.0
  waited-Agrees pid c (throws e) answer h = tt
  waited-Agrees pid c aborts answer h = absurd h

  if_waitable-Agrees :
      (pid : ℕ) (c : ChildProcess) (o : Outcome Bool)
      → IsLive c
      → o ≢ aborts
      → Agrees (if_waitable m world pid c o).1 (if_waitable m world pid c o).2
  if_waitable-Agrees pid c (returns true) live works =
      waited-Agrees pid c (wait c true (world.waits pid)) (world.waits pid)
        (wait-Lives c true (world.waits pid) live.0 live.1)
  if_waitable-Agrees pid c (returns false) live works = live
  if_waitable-Agrees pid c (throws e) live works = tt
  if_waitable-Agrees pid c aborts live works = absurd (works refl)

  waitable_asks : (c : ChildProcess) (answer : SystemAnswer) → IsLive c → waitable c answer ≢ aborts
  unfolding waitable
  waitable_asks c none live e = ground (arith, live.0, live.1, e)
  waitable_asks c (some info) live e = ground (arith, live.0, live.1, e)

  pub visit-Agrees :
      (pid : ℕ) (c : ChildProcess)
      → IsLive c
      → Agrees (visit m world pid c).1 (visit m world pid c).2
  unfolding visit
  visit-Agrees pid c live =
      if_waitable-Agrees pid c (waitable c (world.can_wait pid)) live
        (waitable_asks c (world.can_wait pid) live)
