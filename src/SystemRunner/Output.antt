-- ===== src/SystemRunner/Output.antt =====
-- `run` of net/system_runner.cc gathers the whole output and reports the end of the child.
use astraea_open_source.Prelude.{
  ℕ, ◌≡◌, refl, sym, ap, ◌∙◌, Bool, true, false, ◌==◌, if◌then◌else◌, List, [], ◌∷◌, ◌++◌, map, All,
  some, ==_iff,
}
use mathlib.Core.Bool.{true≢false}
use astraea_open_source.Result.{ok, runtime_error}
use astraea_open_source.FileDescriptor.{FileDescriptor}
use astraea_open_source.FileDescriptor.Reading.{stream, IsLive}
use astraea_open_source.ChildProcess.{
  ChildProcess, Code, exited, killed, dumped, stopped, continued, other, SigInfo, SystemAnswer,
  started, changed, returns, wait, construct,
}
use astraea_open_source.ChildProcess.Ending.{is_change}
use astraea_open_source.SystemRunner.Streams.{read_until_eof-stream}
use astraea_open_source.SystemRunner.{
  Calls, Run, returned, threw, launch, reads, await, run, sighup,
}

-- The child has ended.
abbrev pub ends : Code → Bool
ends exited = true
ends killed = true
ends dumped = true
ends stopped = false
ends continued = false
ends other = false

-- A report of this kind on the child with this number.
pub record IsReport (kind : Code → Bool) (pid : ℕ) (info : SigInfo) : Type 0 where
  pub same : info.si_pid ≡ pid
  pub is_child : info.is_sigchld ≡ true
  pub is_kind : kind info.si_code ≡ true

-- The child is alive, and this is its number.
pub record IsRunning (pid : ℕ) (c : ChildProcess) : Type 0 where
  pub here : c.moved_away ≡ false
  pub live : c.terminated ≡ false
  pub number : c.pid ≡ pid

-- What `run` comes to with the exit status of the child.
abbrev pub settled : ℕ → List ℕ → List ℕ → Run
settled status output errors = if status == 0 then returned output errors else threw runtime_error

-- What a `wait` leaves that reports the end.
abbrev pub HasEnded : ℕ → ChildProcess → Type 0
HasEnded status c = (c.terminated ≡ true) × (c.exit_status ≡ status)

changed-HasEnded :
    (c : ChildProcess) (status : ℕ) (code : Code)
    → ends code ≡ true
    → (c' : ChildProcess) × (changed c status code ≡ returns c') × HasEnded status c'
changed-HasEnded c status exited h =
    (record c { terminated = true; exit_status = status }, refl, (refl, refl))
changed-HasEnded c status killed h = (
  record c { terminated = true; exit_status = status; died_on_signal = true },
  refl,
  (refl, refl),
)
changed-HasEnded c status dumped h = (
  record c { terminated = true; exit_status = status; died_on_signal = true },
  refl,
  (refl, refl),
)
changed-HasEnded c status stopped h = absurd (true≢false (sym h))
changed-HasEnded c status continued h = absurd (true≢false (sym h))
changed-HasEnded c status other h = absurd (true≢false (sym h))

-- On a running child, a report of it is a change of state.
wait-changed :
    (pid : ℕ) (c : ChildProcess) (info : SigInfo)
    → IsRunning pid c
    → info.si_pid ≡ pid
    → info.is_sigchld ≡ true
    → wait c false (some info) ≡ changed c info.si_status info.si_code
unfolding wait
wait-changed pid c info r same chld =
    let known = (==_iff info.si_pid c.pid).1 (same ∙ sym r.number) in
    simp (r.here, r.live, known, chld) refl

await_stops :
    (c : ChildProcess) (answers : List SystemAnswer) (status : ℕ) (output errors : List ℕ)
    → HasEnded status c
    → await c answers output errors ≡ settled status output errors
unfolding await
await_stops c [] status output errors h = simp (h.0, h.1) refl
await_stops c (a ∷ later) status output errors h = simp (h.0, h.1) refl

await_goes :
    (c c' : ChildProcess) (a : SystemAnswer) (later : List SystemAnswer) (output errors : List ℕ)
    → c.terminated ≡ false
    → wait c false a ≡ returns c'
    → await c (a ∷ later) output errors ≡ await c' later output errors
unfolding await
await_goes c c' a later output errors h e = simp (h, e) refl

changed-IsRunning :
    (pid : ℕ) (c : ChildProcess) (status : ℕ) (code : Code)
    → IsRunning pid c
    → is_change code ≡ true
    → (c' : ChildProcess) × (changed c status code ≡ returns c') × IsRunning pid c'
changed-IsRunning pid c status stopped r h =
    (record c { running = false }, refl, record { here = r.here; live = r.live; number = r.number })
changed-IsRunning pid c status continued r h =
    (record c { running = true }, refl, record { here = r.here; live = r.live; number = r.number })
changed-IsRunning pid c status exited r h = absurd (true≢false (sym h))
changed-IsRunning pid c status killed r h = absurd (true≢false (sym h))
changed-IsRunning pid c status dumped r h = absurd (true≢false (sym h))
changed-IsRunning pid c status other r h = absurd (true≢false (sym h))

-- The answers of the system up to the end of the child: that it stopped or went on, and its end.
abbrev pub until_end : List SigInfo → SigInfo → List SystemAnswer → List SystemAnswer
until_end changes last later = map some changes ++ some last ∷ later

await-settled :
    (pid : ℕ) (c : ChildProcess) (changes : List SigInfo) (last : SigInfo)
    (later : List SystemAnswer) (output errors : List ℕ)
    → IsRunning pid c
    → All (IsReport is_change pid) changes
    → IsReport ends pid last
    → await c (until_end changes last later) output errors ≡ settled last.si_status output errors
await-settled pid c [] last later output errors r all e =
    let after = changed-HasEnded c last.si_status last.si_code e.is_kind in
    await_goes c after.0 (some last) later output errors r.live
      (wait-changed pid c last r e.same e.is_child ∙ after.1)
    ∙ await_stops after.0 later last.si_status output errors after.2
await-settled pid c (i ∷ is) last later output errors r all e =
    let after = changed-IsRunning pid c i.si_status i.si_code r all.0.is_kind in
    await_goes c after.0 (some i) (until_end is last later) output errors r.live
      (wait-changed pid c i r all.0.same all.0.is_child ∙ after.1)
    ∙ await-settled pid after.0 is last later output errors after.2 all.1 e

-- Every call of a run with these choices of output succeeds, the ends that are read are live, and the
-- child has this number.
pub record Works (pid : ℕ) (calls : Calls) : Type 0 where
  pub stdout_opens : calls.stdout_opens ≡ true
  pub stderr_opens : calls.stderr_opens ≡ true
  pub forked : calls.forked ≡ ok pid
  pub stdout_closes : calls.stdout_closes ≡ true
  pub stderr_closes : calls.stderr_closes ≡ true
  pub stdout_live : IsLive calls.stdout
  pub stderr_live : IsLive calls.stderr

abbrev pub wanted : Bool → FileDescriptor → List ℕ
wanted read_it fd = if read_it then stream fd else []

reads-wanted :
    (read_it closes : Bool) (fd : FileDescriptor) (rest : List ℕ → Run)
    → closes ≡ true
    → IsLive fd
    → reads read_it closes fd rest ≡ rest (wanted read_it fd)
unfolding reads
reads-wanted false closes fd rest h v = refl
reads-wanted true false fd rest h v = absurd (true≢false (sym h))
reads-wanted true true fd rest h v = rw (reads, read_until_eof-stream fd v) refl

launch-started :
    (arg : List ℕ) (args : List (List ℕ)) (read_stdout read_stderr : Bool) (calls : Calls) (pid : ℕ)
    → Works pid calls
    → launch (arg ∷ args) read_stdout read_stderr calls ≡ ok (started sighup pid)
unfolding launch construct
launch-started arg args false false calls pid w = simp (w.forked) refl
launch-started arg args false true calls pid w = simp (w.stderr_opens, w.forked) refl
launch-started arg args true false calls pid w = simp (w.stdout_opens, w.forked) refl
launch-started arg args true true calls pid w = simp (w.stdout_opens, w.stderr_opens, w.forked) refl

-- Where the system calls work and the child ends, after any stops and continuations, `run` returns
-- the whole output on the streams that were asked for, if the exit status is 0, and throws
-- otherwise, so for a child that a signal killed too.
pub run-settled :
    (arg : List ℕ) (args : List (List ℕ)) (read_stdout read_stderr : Bool) (calls : Calls) (pid : ℕ)
    (changes : List SigInfo) (last : SigInfo) (later : List SystemAnswer)
    → Works pid calls
    → calls.answers ≡ until_end changes last later
    → All (IsReport is_change pid) changes
    → IsReport ends pid last
    → run (arg ∷ args) read_stdout read_stderr calls
      ≡ settled last.si_status (wanted read_stdout calls.stdout) (wanted read_stderr calls.stderr)
unfolding run launch
run-settled arg args read_stdout read_stderr calls pid changes last later w answers all e =
    let output = wanted read_stdout calls.stdout in
    let errors = wanted read_stderr calls.stderr in
    let child = started sighup pid in
    let running : IsRunning pid child = record { here = refl; live = refl; number = refl } in
    rw (run, launch-started arg args read_stdout read_stderr calls pid w)
      (reads-wanted read_stdout calls.stdout_closes calls.stdout
          (λ (o : List ℕ).
            reads read_stderr calls.stderr_closes calls.stderr
              (λ errors'. await child calls.answers o errors'))
          w.stdout_closes w.stdout_live
        ∙ reads-wanted read_stderr calls.stderr_closes calls.stderr
            (await child calls.answers output) w.stderr_closes w.stderr_live
        ∙ ap (λ (a : List SystemAnswer). await child a output errors) answers
        ∙ await-settled pid child changes last later output errors running all e)
