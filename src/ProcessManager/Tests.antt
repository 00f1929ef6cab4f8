-- ===== src/ProcessManager/Tests.antt =====
-- The theorems on `ProcessManager`, on three children.
use astraea_open_source.Prelude.{
  ℕ, ◌==◌, if◌then◌else◌, ◌≡◌, ◌≢◌, refl, [], ◌∷◌, ◌++◌, none, some, arith,
}
use astraea_open_source.Result.{ok}
use astraea_open_source.Poller.{continue}
use astraea_open_source.ChildProcess.{construct, waitable, wait, aborts, started, returns}
use astraea_open_source.ProcessManager.{
  sweep, visit, judge, sigint, ProcessManager, calls, destroys, find, run_as_child, sigchld,
  handle_signal, signalled, returned, wait_all,
}
use astraea_open_source.ProcessManager.Visit.{AllLive}
use astraea_open_source.ProcessManager.Reports.{Report, nothing, exit_with, killed_by, reporting}
use astraea_open_source.ProcessManager.Waiting.{handle_signal-left, wait_all-returns}
use astraea_open_source.ProcessManager.Lifetimes.{
  fresh, starts, handles, Reach, here, next, Reach-never_aborts,
}
use astraea_open_source.ProcessManager.Starting.{run_as_child-callbacks}

abbrev manager : ProcessManager
manager = record {
  child_processes = (70, started 1 70) ∷ (71, started 1 71) ∷ (72, started 1 72) ∷ [];
  callbacks = (70, 1) ∷ (71, 2) ∷ [];
  error_callbacks = (71, 3) ∷ [];
}

-- 70 has exited, 71 has failed, and 72 goes on.
abbrev reports : ℕ → Report
reports pid = if pid == 70 then exit_with 0 else (if pid == 71 then exit_with 2 else nothing)

-- 71 and 72 were killed, and for 72 there is no error callback.
abbrev failures : ℕ → Report
failures pid = if pid == 70 then nothing else killed_by 9

abbrev ends : ℕ → Report
ends pid = if pid == 71 then killed_by 9 else exit_with 0

live : AllLive manager.child_processes
live = ((refl, refl), ((refl, refl), ((refl, refl), tt)))

handle_signal-left_example :
    let h = handle_signal manager sigchld (reporting reports) in
    (h.manager.child_processes ≡ (72, started 1 72) ∷ [])
    × (h.events ≡ calls 1 70 ∷ destroys 70 ∷ calls 3 71 ∷ calls 2 71 ∷ destroys 71 ∷ [])
    × (h.outcome ≡ returns continue)
handle_signal-left_example = handle_signal-left manager reports (
  ((refl, λ e. ground (arith, e)), (refl, refl), refl),
  (
    ((refl, λ e. ground (arith, e)), (refl, refl), refl),
    (((refl, λ e. ground (arith, e)), (refl, refl), refl), tt),
  ),
)

wait_all-returns_example : wait_all manager (signalled sigchld (reporting ends) ∷ []) ≡ returned 0
wait_all-returns_example =
    wait_all-returns (record manager { error_callbacks = (71, 3) ∷ [] }) ends []
      (
        ((refl, λ e. ground (arith, e)), (refl, refl), refl),
        (
          ((refl, λ e. ground (arith, e)), (refl, refl), refl),
          (((refl, λ e. ground (arith, e)), (refl, refl), refl), tt),
        ),
      )
      (tt, (tt, (tt, tt)))

-- The number 73 had a child with the callback 9 before.
abbrev used : ProcessManager
used = record manager { callbacks = (73, 9) ∷ [] }

run_as_child-callbacks_example :
    (m' : ProcessManager) × (run_as_child used (ok 73) (some 4) none ≡ ok (m', 73))
    × (m'.child_processes ≡ used.child_processes ++ ((73, started 1 73) ∷ []))
    × AllLive m'.child_processes
    × (find 73 m'.callbacks ≡ some 9)
    × (find 73 m'.error_callbacks ≡ none)
run_as_child-callbacks_example = run_as_child-callbacks used 73 (some 4) none refl live

-- A child that has exited.
abbrev one_child : ProcessManager
one_child = record fresh { child_processes = (70, started 1 70) ∷ []; callbacks = (70, 1) ∷ [] }

abbrev none_left : ProcessManager
none_left = record one_child { child_processes = [] }

none_left-Reach : Reach fresh none_left
unfolding run_as_child construct handle_signal sweep visit waitable wait judge
none_left-Reach =
    next (next here (starts 70 (some 1) none refl refl))
      (handles sigchld (reporting reports) continue refl refl)

Reach-never_aborts_example :
    AllLive none_left.child_processes
    × ((handle_signal none_left sigint (reporting reports)).outcome ≢ aborts)
Reach-never_aborts_example = Reach-never_aborts none_left sigint (reporting reports) none_left-Reach
