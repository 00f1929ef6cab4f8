-- ===== src/ProcessManager/Lifetimes.antt =====
-- A program's whole use of `ProcessManager`, net/child_process.cc.
use astraea_open_source.Prelude.{ℕ, ◌≡◌, ◌≢◌, subst, Option, none, []}
use astraea_open_source.Result.{ok}
use astraea_open_source.Poller.{ResultType}
use astraea_open_source.ChildProcess.{returns, aborts}
use astraea_open_source.ProcessManager.{
  ProcessManager, World, Signal, find, run_as_child, handle_signal,
}
use astraea_open_source.ProcessManager.Visit.{AllLive}
use astraea_open_source.ProcessManager.Invariant.{Sound, handle_signal-AllLive}
use astraea_open_source.ProcessManager.Starting.{run_as_child-callbacks}

-- The manager as its constructor makes it.
abbrev pub fresh : ProcessManager
fresh = record { child_processes = []; callbacks = []; error_callbacks = [] }

-- A program starts children, whose numbers no child in the map has, and handles signals; it stops
-- using the manager when an exception comes out of it.
pub data Step (m m' : ProcessManager) : Type 0 where
  starts :
      (pid : ℕ) (callback error_callback : Option ℕ)
      → find pid m.child_processes ≡ none
      → run_as_child m (ok pid) callback error_callback ≡ ok (m', pid)
      → Step m m'
  handles :
      (sig : Signal) (world : World) (result : ResultType)
      → (handle_signal m sig world).outcome ≡ returns result
      → (handle_signal m sig world).manager ≡ m'
      → Step m m'

pub data Reach (m : ProcessManager) : ProcessManager → Type 0 where
  here : Reach m m
  next : {m' m'' : ProcessManager} → Reach m m' → Step m' m'' → Reach m m''

Step-AllLive :
    (m m' : ProcessManager) → Step m m' → AllLive m.child_processes → AllLive m'.child_processes
Step-AllLive m m' (starts pid callback error_callback unused e) live =
    let (n, started, _, all, _, _) =
      run_as_child-callbacks m pid callback error_callback unused live in
    subst (λ k. AllLive k.child_processes) (same started e) all
  where
    same :
        {n : ProcessManager}
        → run_as_child m (ok pid) callback error_callback ≡ ok (n, pid)
        → run_as_child m (ok pid) callback error_callback ≡ ok (m', pid)
        → n ≡ m'
    same p q = cc
Step-AllLive m m' (handles sig world result e same) live =
    let h = handle_signal m sig world in
    subst (λ k. AllLive k.child_processes) same
      (subst (λ o. Sound h.manager.child_processes o) e (handle_signal-AllLive m sig world live))

Reach-AllLive :
    (m m' : ProcessManager) → Reach m m' → AllLive m.child_processes → AllLive m'.child_processes
Reach-AllLive m m' here live = live
Reach-AllLive m m' (next {m' = k} r s) live = Step-AllLive k m' s (Reach-AllLive m k r live)

-- From a new manager, through any starts of children, with numbers that no child in the map has, and
-- any signals, whatever the system answers, with callbacks that return or throw and do not use the
-- manager, as long as no exception comes out of a handler: no child in the map has terminated or was
-- moved away, and no assertion of `handle_signal` fails on the next signal.
pub Reach-never_aborts :
    (m : ProcessManager) (sig : Signal) (world : World)
    → Reach fresh m
    → AllLive m.child_processes × ((handle_signal m sig world).outcome ≢ aborts)
Reach-never_aborts m sig world r =
    let live = Reach-AllLive fresh m r tt in
    let h = handle_signal m sig world in
    (
      live,
      λ e.
          subst (λ o. Sound h.manager.child_processes o) e (handle_signal-AllLive m sig world live),
    )
