-- ===== src/SystemRunner/Child.antt =====
-- The half of net/child_process.cc and net/system_runner.cc that runs in the child: from `fork` to the
-- program that replaces it, or to its exit status. What the system calls answer is an argument.
use astraea_open_source.Prelude.{ℕ, Bool, true, false, ◌≡◌, refl, if◌then◌else◌, List, [], ◌∷◌}
use astraea_open_source.Result.{Result, ok, err, unix_error, throw_unless, ◌>>◌}
use astraea_open_source.SystemRunner.{Exec, ezexec}

-- What becomes of the child.
pub data Fate : Type 0 where
  becomes : Exec → Fate
  exits : ℕ → Fate

abbrev pub exit_failure : ℕ
exit_failure = 1

-- `_exit(child_procedure())`: `ezexec` returns only from a call that fails, -1, of which the status
-- keeps eight bits; an exception exits with `EXIT_FAILURE`. `execs` is the result of the call.
abbrev pub exit_of : Bool → Result Exec → Fate
exit_of execs (err e) = exits exit_failure
exit_of execs (ok program) = if execs then becomes program else exits 255

-- The constructor of `ChildProcess`, in the child: the mask of signals is emptied first;
-- `masks` says whether that works.
unfoldable pub run_child : Bool → Bool → Result Exec → Fate
run_child masks execs procedure = exit_of execs (throw_unless masks unix_error >> procedure)

-- The lambda of `run_as_child`: the two streams to the log, if there is one, and the program, with the
-- environment of the process and a search of the path. `calls` says whether `open`, the
-- descriptor's constructor, both `dup2` and `close` succeed.
abbrev pub redirect : List Bool → Result (Unit {0})
redirect [] = ok tt
redirect (works ∷ calls) = throw_unless works unix_error >> redirect calls

unfoldable pub as_child :
    List ℕ → List (List ℕ) → List ℕ → Bool × Bool × Bool × Bool × Bool → Bool → Bool → Result Exec
unfolding ezexec
as_child program prog_args [] calls is_root environ =
    ezexec program prog_args [] true true is_root environ
as_child program prog_args (c ∷ log_path) calls is_root environ =
    redirect (calls.0 ∷ calls.1 ∷ calls.2 ∷ calls.3 ∷ calls.4 ∷ [])
    >> ezexec program prog_args [] true true is_root environ

-- The lambda of `run`, on one stream: close the reading end, and make the other one the stream.
abbrev pub divert : Bool → Bool × Bool → Result (Unit {0})
divert false calls = ok tt
divert true calls = redirect (calls.0 ∷ calls.1 ∷ [])

abbrev pub in_run : Bool → Bool → Bool × Bool → Bool × Bool → Result Exec → Result Exec
in_run read_stdout read_stderr on_stdout on_stderr program =
    divert read_stdout on_stdout >> divert read_stderr on_stderr >> program

-- A child of a root with an environment never becomes a program: it exits with `EXIT_FAILURE`.
root-exits :
    (program : List ℕ) (prog_args : List (List ℕ)) (masks execs : Bool)
    (calls : Bool × Bool × Bool × Bool × Bool)
    → run_child masks execs (as_child program prog_args [] calls true true) ≡ exits exit_failure
unfolding run_child as_child ezexec
root-exits program prog_args false execs calls = refl
root-exits program [] true execs calls = refl
root-exits program (arg ∷ args) true execs calls = refl
