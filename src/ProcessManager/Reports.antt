-- ===== src/ProcessManager/Reports.antt =====
-- What the system reports of the children of net/child_process.cc, and what a SIGCHLD is to do with
-- them by that.
use astraea_open_source.Prelude.{
  ℕ, ◌≡◌, ◌≢◌, Bool, true, false, not, ◌&&◌, ◌==◌, if◌then◌else◌, List, [], ◌∷◌, ◌++◌, Option, none,
  some,
}
use astraea_open_source.ChildProcess.{ChildProcess, SigInfo, Code}
use astraea_open_source.ProcessManager.{
  ProcessManager, Children, Event, calls, destroys, World, find,
}
use astraea_open_source.ProcessManager.Visit.{IsLive}

-- What the system has to report of a child.
pub data Report : Type 0 where
  nothing stop resume : Report
  exit_with killed_by : ℕ → Report

abbrev pub report_info : ℕ → Report → SigInfo
report_info pid nothing = record {
  si_pid = 0;
  is_sigchld = false;
  si_code = Code.other;
  si_status = 0;
}
report_info pid stop = record {
  si_pid = pid;
  is_sigchld = true;
  si_code = Code.stopped;
  si_status = 19;
}
report_info pid resume = record {
  si_pid = pid;
  is_sigchld = true;
  si_code = Code.continued;
  si_status = 18;
}
report_info pid (exit_with status) = record {
  si_pid = pid;
  is_sigchld = true;
  si_code = Code.exited;
  si_status = status;
}
report_info pid (killed_by sig) = record {
  si_pid = pid;
  is_sigchld = true;
  si_code = Code.killed;
  si_status = sig;
}

-- The system that answers with these reports, and callbacks that return.
abbrev pub reporting : (ℕ → Report) → World
reporting reports = record {
  can_wait = λ pid. some (report_info pid (reports pid));
  waits = λ pid. some (report_info pid (reports pid));
  thrown_by = λ name. none;
}

-- A report for which an error callback is wanted.
abbrev pub is_bad : Report → Bool
is_bad nothing = false
is_bad stop = true
is_bad resume = false
is_bad (exit_with status) = not (status == 0)
is_bad (killed_by sig) = not (sig == 0)

-- The child after the report, if it is still there.
abbrev pub left : Report → ChildProcess → Option ChildProcess
left nothing c = some c
left stop c = some (record c { running = false })
left resume c = some (record c { running = true })
left (exit_with status) c = none
left (killed_by sig) c = none

abbrev pub put_back : ℕ → Option ChildProcess → Children → Children
put_back pid none rest = rest
put_back pid (some c) rest = (pid, c) ∷ rest

abbrev pub left_all : (ℕ → Report) → Children → Children
left_all reports [] = []
left_all reports ((pid, c) ∷ rest) = put_back pid (left (reports pid) c) (left_all reports rest)

abbrev pub call_of : ℕ → Option ℕ → List Event
call_of pid none = []
call_of pid (some name) = calls name pid ∷ []

module _ (m : ProcessManager) where
  -- What is called for a report: the error callback first, and then, for a child that is gone, the
  -- callback.
  abbrev pub news : ℕ → Report → List Event
  news pid r = (if is_bad r then call_of pid (find pid m.error_callbacks) else []) ++ elim r [
    | nothing ↦ []
    | stop ↦ []
    | resume ↦ []
    | exit_with status ↦ call_of pid (find pid m.callbacks) ++ (destroys pid ∷ [])
    | killed_by sig ↦ call_of pid (find pid m.callbacks) ++ (destroys pid ∷ [])
  ]

  abbrev pub all_news : (ℕ → Report) → Children → List Event
  all_news reports [] = []
  all_news reports ((pid, c) ∷ rest) = news pid (reports pid) ++ all_news reports rest

  abbrev pub has_error_callback : ℕ → Bool
  has_error_callback pid = elim (find pid m.error_callbacks) [ none ↦ false | some name ↦ true ]

  -- A child under its own number, live, and with an error callback if the report is bad.
  abbrev pub IsHandled : (ℕ → Report) → ℕ × ChildProcess → Type 0
  IsHandled reports (pid, c) =
      ((c.pid ≡ pid) × (pid ≢ 0))
      × IsLive c
      × ((is_bad (reports pid) && not (has_error_callback pid)) ≡ false)
