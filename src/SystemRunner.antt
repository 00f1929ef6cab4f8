-- ===== src/SystemRunner.antt =====
-- net/system_runner.cc: running a command and gathering its output, over the model of a child
-- process and of a descriptor. What the system calls answer is an argument.
pub mod Streams
pub mod Output
pub mod Deadlock
pub mod Child
pub mod Tests
use astraea_open_source.Prelude.{
  ℕ, zero, suc, ◌+◌, Bool, true, false, ◌&&◌, ◌==◌, if◌then◌else◌, List, [], ◌∷◌, ◌++◌, map, Option,
  none, some, length,
}
use astraea_open_source.Result.{
  Error, Result, ok, err, runtime_error, unix_error, undefined, throw_unless, ◌>>=◌, ◌>>◌,
}
use astraea_open_source.FileDescriptor.{FileDescriptor, sys_fails, read, buffer_size}
use astraea_open_source.FileDescriptor.Reading.{stream}
use astraea_open_source.ChildProcess.{
  ChildProcess, construct, Outcome, returns, throws, aborts, SystemAnswer, wait,
}

-- What `execve` and `execvpe` take; without an `envp` it is `environ`.
pub record Exec : Type 0 where
  pub filename : List ℕ
  pub argv : List (List ℕ)
  pub envp : Option (List (List ℕ))
  pub searches_path : Bool

-- The C string at a pointer: the bytes up to the first zero, which is there, since one is added.
unfoldable pub c_string : List ℕ → List ℕ
c_string [] = []
c_string (b ∷ bs) = let rest = c_string bs in if b == 0 then [] else b ∷ rest

-- `ezexec`, up to the call that replaces the program. `is_root` says that the effective user or group
-- is 0, `environ` that the pointer of this name is not null.
unfoldable pub ezexec :
    List ℕ → List (List ℕ) → List (List ℕ) → Bool → Bool → Bool → Bool → Result Exec
unfolding c_string
ezexec filename [] env use_environ path_search is_root environ = err runtime_error
ezexec filename (arg ∷ args) env use_environ path_search is_root environ =
    if is_root && environ
    then err runtime_error
    else (if is_root && path_search
        then err runtime_error
        else ok (record {
          filename = c_string filename;
          argv = map c_string (arg ∷ args);
          envp = if use_environ then none else some (map c_string env);
          searches_path = path_search;
        }))

-- `while (not fd.eof()) { output.append(fd.read()); }`
unfoldable pub read_until : ℕ → List ℕ → FileDescriptor → Option (Result (List ℕ))
read_until zero output fd = none
read_until (suc fuel) output fd =
    let got = read fd buffer_size in
    let rest = read_until fuel (output ++ got.0) got.1 in
    if fd.eof then some (ok output) else (if sys_fails fd then some (err unix_error) else rest)

-- Each round but the last two adds a byte: the last one but one meets the end, and the last sees it.
unfoldable pub read_until_eof : FileDescriptor → Option (Result (List ℕ))
unfolding read_until
read_until_eof fd = read_until (length (stream fd) + 2) [] fd

-- What the system calls of a run answer: the two `make_pipe`, with the descriptors of both ends,
-- `fork`, the two `close` of the writing ends, the two reading ends, and the answers of `waitid` so
-- far.
pub record Calls : Type 0 where
  pub stdout_opens : Bool
  pub stderr_opens : Bool
  pub forked : Result ℕ
  pub stdout_closes : Bool
  pub stderr_closes : Bool
  pub stdout : FileDescriptor
  pub stderr : FileDescriptor
  pub answers : List SystemAnswer

-- How far `run` comes; `unended` is a `read` or a `waitid` that has not answered.
pub data Run : Type 0 where
  returned : List ℕ → List ℕ → Run
  threw : Error → Run
  aborted unended : Run

abbrev pub make_pipe : Bool → Bool → Result (Unit {0})
make_pipe false opens = ok tt
make_pipe true opens = throw_unless opens unix_error

abbrev pub sighup : ℕ
sighup = 1

-- `args[0]` names the process, and is there only if the arguments are not empty.
abbrev pub name_of : List (List ℕ) → Result (List ℕ)
name_of [] = err undefined
name_of (arg ∷ args) = ok arg

-- The first part of `run`: the pipes and the child.
unfoldable pub launch : List (List ℕ) → Bool → Bool → Calls → Result ChildProcess
launch args read_stdout read_stderr calls =
    make_pipe read_stdout calls.stdout_opens
    >> make_pipe read_stderr calls.stderr_opens
    >> name_of args
    >>= λ name. construct calls.forked sighup

-- `if (pipe) { pipe->second.close(); … }`, and what follows it with the output.
abbrev pub reads : Bool → Bool → FileDescriptor → (List ℕ → Run) → Run
unfolding read_until_eof
reads false closes fd rest = rest []
reads true false fd rest = threw unix_error
reads true true fd rest = elim (read_until_eof fd) [
  | none ↦ unended
  | some (ok output) ↦ rest output
  | some (err e) ↦ threw e
]

abbrev pub throw_exception : Run
throw_exception = threw runtime_error

-- `while (!command_process.terminated()) { command_process.wait(); }` and the lines behind it.
unfoldable pub await : ChildProcess → List SystemAnswer → List ℕ → List ℕ → Run
await c [] output errors =
    if c.terminated
    then (if c.exit_status == 0 then returned output errors else throw_exception)
    else unended
await c (a ∷ later) output errors =
    if c.terminated
    then (if c.exit_status == 0 then returned output errors else throw_exception)
    else elim (wait c false a) [
      | returns c' ↦ await c' later output errors
      | throws e ↦ threw e
      | aborts ↦ aborted
    ]

-- What `run` does with a child that was started.
abbrev pub gather : Bool → Bool → Calls → ChildProcess → Run
unfolding await
gather read_stdout read_stderr calls child =
    reads read_stdout calls.stdout_closes calls.stdout (λ output.
      reads read_stderr calls.stderr_closes calls.stderr
        (λ errors. await child calls.answers output errors))

unfoldable pub run : List (List ℕ) → Bool → Bool → Calls → Run
unfolding launch await
run args read_stdout read_stderr calls = elim (launch args read_stdout read_stderr calls) [
  | ok child ↦ gather read_stdout read_stderr calls child
  | err e ↦ threw e
]

-- `command_str` of a command and an environment: a space behind each part
abbrev pub spaced : List (List ℕ) → List ℕ
spaced [] = []
spaced (part ∷ parts) = part ++ 32 ∷ spaced parts

unfoldable pub command_str : List (List ℕ) → List (List ℕ) → List ℕ
command_str command env = spaced env ++ spaced command

-- `command_str` of `argc` and `argv`: a space between two parts
unfoldable pub argv_str : List (List ℕ) → List ℕ
argv_str [] = []
argv_str (arg ∷ []) = arg
argv_str (arg ∷ next ∷ args) = arg ++ 32 ∷ argv_str (next ∷ args)
