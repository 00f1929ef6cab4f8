-- ===== src/ChildProcess.antt =====
-- net/child_process.cc, `class ChildProcess`: one child, as its parent sees it. What `fork`, `waitid`
-- and `kill` answer is a parameter.
pub mod Ending
pub mod Tests
use astraea_open_source.Prelude.{
  ℕ, Bool, true, false, not, ◌&&◌, ◌||◌, ◌==◌, if◌then◌else◌, List, [], ◌∷◌, ◌++◌, Option, none,
  some,
}
use astraea_open_source.Result.{Error, Result, ok, err, runtime_error, unix_error, ◌>>=◌}

pub record ChildProcess : Type 0 where
  pub pid : ℕ
  pub running : Bool
  pub terminated : Bool
  pub exit_status : ℕ
  pub died_on_signal : Bool
  pub graceful_termination_signal : ℕ
  pub moved_away : Bool

-- `do_fork`: the links of /proc/self/task, and the answer of `fork`.
unfoldable pub do_fork : Option ℕ → Option ℕ → Result ℕ
do_fork none forked = err unix_error
do_fork (some links) forked =
    if links == 3
    then elim forked [ none ↦ err unix_error | some pid ↦ ok pid ]
    else err runtime_error

-- The members as the constructor sets them.
abbrev pub started : ℕ → ℕ → ChildProcess
started termination_signal pid = record {
  pid = pid;
  running = true;
  terminated = false;
  exit_status = 0;
  died_on_signal = false;
  graceful_termination_signal = termination_signal;
  moved_away = false;
}

-- The constructor, in the parent.
unfoldable pub construct : Result ℕ → ℕ → Result ChildProcess
construct forked termination_signal = forked >>= λ pid. ok (started termination_signal pid)

-- The move constructor: the new object, and the old one; `none` is a failed assertion.
unfoldable pub move : ChildProcess → Option (ChildProcess × ChildProcess)
move other = if other.moved_away then none else some (other, record other { moved_away = true })

-- `si_code`
pub data Code : Type 0 where
  exited killed dumped stopped continued other : Code

pub record SigInfo : Type 0 where
  pub si_pid : ℕ
  pub is_sigchld : Bool
  pub si_code : Code
  pub si_status : ℕ

-- What a method comes to: `aborts` is a failed assertion.
pub data Outcome (A : Type 0) : Type 0 where
  returns : A → Outcome A
  throws : Error → Outcome A
  aborts : Outcome A

-- The answer of `waitid`; `none` is a failed call.
abbrev pub SystemAnswer : Type 0
SystemAnswer = Option SigInfo

unfoldable pub waitable : ChildProcess → SystemAnswer → Outcome Bool
waitable c answer = if c.moved_away || c.terminated then aborts else elim answer [
  | none ↦ throws unix_error
  | some info ↦
      if info.si_pid == 0
      then returns false
      else (if info.si_pid == c.pid then returns true else throws runtime_error)
]

-- How the process changed its state.
abbrev pub changed : ChildProcess → ℕ → Code → Outcome ChildProcess
changed c status exited = returns (record c { terminated = true; exit_status = status })
changed c status killed =
    returns (record c { terminated = true; exit_status = status; died_on_signal = true })
changed c status dumped =
    returns (record c { terminated = true; exit_status = status; died_on_signal = true })
changed c status stopped = returns (record c { running = false })
changed c status continued = returns (record c { running = true })
changed c status other = throws runtime_error

unfoldable pub wait : ChildProcess → Bool → SystemAnswer → Outcome ChildProcess
wait c nonblocking answer = if c.moved_away || c.terminated then aborts else elim answer [
  | none ↦ throws unix_error
  | some info ↦
      if nonblocking && (info.si_pid == 0)
      then throws runtime_error
      else (if info.si_pid == c.pid
          then (if info.is_sigchld
              then changed c info.si_status info.si_code
              else throws runtime_error)
          else throws runtime_error)
]

-- `signal`: the signals that are sent; `works` says whether `kill` succeeds.
unfoldable pub signal : ChildProcess → ℕ → Bool → Outcome (List ℕ)
signal c sig works =
    if c.moved_away
    then aborts
    else (if c.terminated
        then returns []
        else (if works then returns (sig ∷ []) else throws unix_error))

abbrev pub sigcont : ℕ
sigcont = 18

unfoldable pub resume : ChildProcess → Bool → Outcome (List ℕ)
resume c works =
    if c.moved_away then aborts else (if c.running then returns [] else signal c sigcont works)

-- The answers of the system in one turn of the destructor's loop.
pub record Turn : Type 0 where
  pub resumes : Bool
  pub signals : Bool
  pub answer : SystemAnswer

-- How far the destructor comes: to its end, to a failed assertion, or to a `waitid` that has not
-- answered yet.
pub data Progress : Type 0 where
  ended failed waiting : Progress

-- A turn of the loop: the signals sent, and the child after it. A failed call ends the turn, and the
-- signals before it are sent.
abbrev pub signalled :
    ChildProcess → SystemAnswer → List ℕ → Outcome (List ℕ) → List ℕ × Outcome ChildProcess
signalled c answer first (returns second) = (first ++ second, wait c false answer)
signalled c answer first (throws e) = (first, throws e)
signalled c answer first aborts = (first, aborts)

abbrev pub resumed : ChildProcess → Turn → Outcome (List ℕ) → List ℕ × Outcome ChildProcess
resumed c t (returns first) =
    signalled c t.answer first (signal c c.graceful_termination_signal t.signals)
resumed c t (throws e) = ([], throws e)
resumed c t aborts = ([], aborts)

unfoldable pub turn : ChildProcess → Turn → List ℕ × Outcome ChildProcess
turn c t = resumed c t (resume c t.resumes)

-- The loop of the destructor, for as many turns as the system has answered; an exception ends it.
unfoldable pub end_child : ChildProcess → List Turn → List ℕ × Progress
end_child c [] = ([], if c.terminated then ended else waiting)
end_child c (t ∷ later) = if c.terminated then ([], ended) else elim (turn c t).1 [
  | returns c' ↦ let rest = end_child c' later in ((turn c t).0 ++ rest.0, rest.1)
  | throws e ↦ ((turn c t).0, ended)
  | aborts ↦ ((turn c t).0, failed)
]

-- The destructor
unfoldable pub destroy : ChildProcess → List Turn → List ℕ × Progress
destroy c turns = if c.moved_away then ([], ended) else end_child c turns
