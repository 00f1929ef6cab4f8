-- ===== src/ProcessManager/Invariant.antt =====
-- No child that has terminated stays in the maps of net/child_process.cc.
use astraea_open_source.Prelude.{ℕ, List, [], ◌∷◌, ◌++◌, inl, inr, Bool-cases}
use astraea_open_source.ChildProcess.{ChildProcess, Outcome, returns, throws, aborts}
use astraea_open_source.Poller.{ResultType}
use astraea_open_source.ProcessManager.{
  Swept, before, follow, as_result, ProcessManager, Children, Event, Step, keeps, stops, erases,
  clears, World, visit, sweep, Signal, sigchld, sigabrt, sighup, sigint, sigquit, sigterm,
  unknown_signal, is_empty, handle_signal,
}
use astraea_open_source.ProcessManager.Visit.{IsLive, AllLive, Agrees, visit-Agrees}

pub AllLive-last :
    (l : Children) (pid : ℕ) (c : ChildProcess)
    → AllLive l
    → IsLive c
    → AllLive (l ++ ((pid, c) ∷ []))
AllLive-last [] pid c all h = (h, tt)
AllLive-last (entry ∷ l) pid c all h = (all.0, AllLive-last l pid c all.1 h)

-- No assertion has failed, and after a normal return no child is left that has terminated.
abbrev Good : Children → Outcome (Unit {0}) → Type 0
Good l (returns done) = AllLive l
Good l (throws e) = Unit
Good l aborts = ⊥

before-Good :
    (events : List Event) (t : Swept) → Good t.0 t.2 → let u = before events t in Good u.0 u.2
before-Good events (children, later, o) h = h

follow-Good :
    (kept : Children) (pid : ℕ) (c : ChildProcess) (rest : Children) (v : Step)
    (again : Children → Swept)
    → AllLive kept
    → Agrees v.1 v.2
    → ((kept' : Children) → AllLive kept' → Good (again kept').0 (again kept').2)
    → let t = follow kept pid c rest v again in Good t.0 t.2
follow-Good kept pid c rest (events, keeps c', returns done) again h live later =
    before-Good events (again (kept ++ ((pid, c') ∷ [])))
      (later (kept ++ ((pid, c') ∷ [])) (AllLive-last kept pid c' h live))
follow-Good kept pid c rest (events, keeps c', throws e) again h live later = absurd live
follow-Good kept pid c rest (events, keeps c', aborts) again h live later = absurd live
follow-Good kept pid c rest (events, erases, o) again h live later =
    before-Good events (again kept) (later kept h)
follow-Good kept pid c rest (events, clears, returns done) again h live later = absurd live
follow-Good kept pid c rest (events, clears, throws e) again h live later = tt
follow-Good kept pid c rest (events, clears, aborts) again h live later = absurd live
follow-Good kept pid c rest (events, stops c', returns done) again h live later = absurd live
follow-Good kept pid c rest (events, stops c', throws e) again h live later = tt
follow-Good kept pid c rest (events, stops c', aborts) again h live later = absurd live

sweep-Good :
    (m : ProcessManager) (world : World) (kept rest : Children)
    → AllLive kept
    → AllLive rest
    → let t = sweep m world kept rest in Good t.0 t.2
unfolding sweep
sweep-Good m world kept [] h g = h
sweep-Good m world kept ((pid, c) ∷ rest) h g =
    follow-Good kept pid c rest (visit m world pid c) (λ kept'. sweep m world kept' rest) h
      (visit-Agrees m world pid c g.0) (λ kept' h'. sweep-Good m world kept' rest h' g.1)

-- The same for a signal.
abbrev pub Sound : Children → Outcome ResultType → Type 0
Sound l (returns result) = AllLive l
Sound l (throws e) = Unit
Sound l aborts = ⊥

swept-Sound : (l : Children) (o : Outcome (Unit {0})) → Good l o → Sound l (as_result o)
swept-Sound l (returns done) h = h
swept-Sound l (throws thrown) h = tt
swept-Sound l aborts h = absurd h

-- From children that are all live, whatever the signal, the system's answers and the callbacks: no
-- assertion of `waitable`, `wait` or the accessors fails, and unless an exception is thrown every
-- child that is left is live.
pub handle_signal-AllLive :
    (m : ProcessManager) (sig : Signal) (world : World)
    → AllLive m.child_processes
    → let h = handle_signal m sig world in Sound h.manager.child_processes h.outcome
unfolding handle_signal
handle_signal-AllLive m sigchld world h = elim (Bool-cases (is_empty m.child_processes)) [
  | inl e ↦ simp e h
  | inr e ↦
      let t = sweep m world [] m.child_processes in
      simp e (swept-Sound t.0 t.2 (sweep-Good m world [] m.child_processes tt h))
]
handle_signal-AllLive m sigabrt world h = tt
handle_signal-AllLive m sighup world h = tt
handle_signal-AllLive m sigint world h = tt
handle_signal-AllLive m sigquit world h = tt
handle_signal-AllLive m sigterm world h = tt
handle_signal-AllLive m unknown_signal world h = tt
