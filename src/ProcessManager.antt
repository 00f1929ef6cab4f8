-- ===== src/ProcessManager.antt =====
-- net/child_process.cc, `class ProcessManager`: the children of a program and what it does when they
-- change. A callback is a number, and whether it throws is a parameter. It is assumed not to use the
-- manager: one that starts a child or clears the map within the loop is outside the model. The answers
-- of `waitid`, one for `waitable` and one for `wait`, are parameters too. A child's destructor is an
-- event here; what it does, and when it does not end, is `destroy` of ChildProcess.
pub mod Visit
pub mod Reports
pub mod Sweep
pub mod Waiting
pub mod Invariant
pub mod Starting
pub mod Lifetimes
pub mod Tests
use astraea_open_source.Prelude.{
  ℕ, Bool, true, false, not, ◌==◌, if◌then◌else◌, List, [], ◌∷◌, ◌++◌, map, Option, none, some,
}
use astraea_open_source.Result.{Error, Result, ok, err, runtime_error, undefined}
use astraea_open_source.ChildProcess.{
  ChildProcess, Outcome, returns, throws, aborts, SystemAnswer, waitable, wait, construct,
}
use astraea_open_source.Poller.{ResultType, continue, exit}

-- The maps, as association lists in the order in which an iteration comes by.
abbrev pub find {ℓ} : {V : Type ℓ} → ℕ → List (ℕ × V) → Option V
find k [] = none
find k ((j, v) ∷ m) = if j == k then some v else find k m

-- `emplace`: a key that is there keeps its value.
abbrev pub emplace {ℓ} : {V : Type ℓ} → ℕ → V → List (ℕ × V) → List (ℕ × V)
emplace k v m = elim (find k m) [ none ↦ m ++ ((k, v) ∷ []) | some w ↦ m ]

abbrev pub Children : Type 0
Children = List (ℕ × ChildProcess)

pub record ProcessManager : Type 0 where
  pub child_processes : Children
  pub callbacks : List (ℕ × ℕ)
  pub error_callbacks : List (ℕ × ℕ)

-- What the manager does outside itself: a callback called for a child, a child's destructor.
pub data Event : Type 0 where
  calls : ℕ → ℕ → Event
  destroys : ℕ → Event

abbrev pub emplace_callback : ℕ → Option ℕ → List (ℕ × ℕ) → List (ℕ × ℕ)
emplace_callback pid none m = m
emplace_callback pid (some name) m = emplace pid name m

-- `run_as_child`, in the parent; an empty function is `none`.
unfoldable pub run_as_child :
    ProcessManager → Result ℕ → Option ℕ → Option ℕ → Result (ProcessManager × ℕ)
run_as_child m forked callback error_callback = elim (construct forked 1) [
  | err e ↦ err e
  | ok child ↦ ok (
    record {
      child_processes = emplace child.pid child m.child_processes;
      callbacks = emplace_callback child.pid callback m.callbacks;
      error_callbacks = emplace_callback child.pid error_callback m.error_callbacks;
    },
    child.pid,
  )
]

-- What one child comes to in the loop of `handle_signal`: it is kept or erased and the loop goes on,
-- `child_processes_.clear()` is called, or the loop ends with the child as it is then.
pub data Verdict : Type 0 where
  keeps stops : ChildProcess → Verdict
  erases clears : Verdict

abbrev pub Step : Type 0
Step = List Event × Verdict × Outcome (Unit {0})

-- The answers and the callbacks that throw.
pub record World : Type 0 where
  pub can_wait : ℕ → SystemAnswer
  pub waits : ℕ → SystemAnswer
  pub thrown_by : ℕ → Option Error

abbrev pub Swept : Type 0
Swept = Children × List Event × Outcome (Unit {0})

abbrev pub before : List Event → Swept → Swept
before events (children, later, o) = (children, events ++ later, o)

-- The rest of the loop after one child, with `again` for its next turns.
abbrev pub follow : Children → ℕ → ChildProcess → Children → Step → (Children → Swept) → Swept
follow kept pid c rest (events, keeps c', o) again =
    before events (again (kept ++ ((pid, c') ∷ [])))
follow kept pid c rest (events, erases, o) again = before events (again kept)
follow kept pid c rest (events, clears, o) again =
    ([], events ++ map (λ entry. destroys entry.0) (kept ++ ((pid, c) ∷ rest)), o)
follow kept pid c rest (events, stops c', o) again = (kept ++ ((pid, c') ∷ rest), events, o)

module _ (m : ProcessManager) (world : World) where
  -- A callback that is there is called, and if it throws the loop ends; `next` follows it, and
  -- `absent` is what there is without it.
  abbrev pub called : ℕ → ChildProcess → ℕ → Step → Option Error → Step
  called pid c name next none = (calls name pid ∷ next.0, next.1, next.2)
  called pid c name next (some e) = (calls name pid ∷ [], stops c, throws e)

  abbrev pub run_callback : ℕ → ChildProcess → Option ℕ → Step → Step → Step
  run_callback pid c none absent next = absent
  run_callback pid c (some name) absent next = called pid c name next (world.thrown_by name)

  -- The end of a loop's turn for a child that has terminated: the callback, which is assumed to leave
  -- the maps as they are, and the child is erased.
  abbrev pub succeed : ℕ → ChildProcess → Step
  succeed pid c =
      let gone : Step = (destroys pid ∷ [], erases, returns tt) in
      run_callback pid c (find pid m.callbacks) gone gone

  -- The error callback, with the same assumption. Without one the map is cleared, its destructors
  -- being events, and the message is then made with the key of an element that is no more: what is
  -- thrown is `undefined` for want of a meaning.
  abbrev pub unless_missing : ℕ → ChildProcess → Step → Step
  unless_missing pid c next =
      run_callback pid c (find pid m.error_callbacks) ([], clears, throws undefined) next

  -- What follows `child.wait(true)`.
  unfoldable pub judge : ℕ → ChildProcess → Step
  judge pid c =
      if c.terminated
      then (if c.exit_status == 0 then succeed pid c else unless_missing pid c (succeed pid c))
      else (if c.running
          then ([], keeps c, returns tt)
          else unless_missing pid c ([], keeps c, returns tt))

  abbrev pub waited : ℕ → ChildProcess → Outcome ChildProcess → Step
  waited pid c (returns c') = judge pid c'
  waited pid c (throws e) = ([], stops c, throws e)
  waited pid c aborts = ([], stops c, aborts)

  abbrev pub if_waitable : ℕ → ChildProcess → Outcome Bool → Step
  if_waitable pid c (returns true) = waited pid c (wait c true (world.waits pid))
  if_waitable pid c (returns false) = ([], keeps c, returns tt)
  if_waitable pid c (throws e) = ([], stops c, throws e)
  if_waitable pid c aborts = ([], stops c, aborts)

  -- The body of the loop
  unfoldable pub visit : ℕ → ChildProcess → Step
  visit pid c = if_waitable pid c (waitable c (world.can_wait pid))

  -- The loop over the children, with the ones before that were kept.
  unfoldable pub sweep : Children → Children → Swept
  sweep kept [] = (kept, [], returns tt)
  sweep kept ((pid, c) ∷ rest) = follow kept pid c rest (visit pid c) (λ kept'. sweep kept' rest)

pub data Signal : Type 0 where
  sigchld sigabrt sighup sigint sigquit sigterm unknown_signal : Signal

-- The manager after a signal, what it did, and the result for the poller.
pub record Handled : Type 0 where
  pub manager : ProcessManager
  pub events : List Event
  pub outcome : Outcome ResultType

abbrev pub is_empty {ℓ} : {A : Type ℓ} → List A → Bool
is_empty [] = true
is_empty (x ∷ xs) = false

abbrev pub cleared : ProcessManager → Handled
cleared m = record {
  manager = record m { child_processes = [] };
  events = map (λ entry. destroys entry.0) m.child_processes;
  outcome = returns (exit 1);
}

abbrev pub as_result : Outcome (Unit {0}) → Outcome ResultType
as_result (returns done) = returns continue
as_result (throws e) = throws e
as_result aborts = aborts

unfoldable pub handle_signal : ProcessManager → Signal → World → Handled
handle_signal m sigchld world =
    if is_empty m.child_processes
    then record { manager = m; events = []; outcome = returns continue }
    else (let t = sweep m world [] m.child_processes in
        record {
          manager = record m { child_processes = t.0 };
          events = t.1;
          outcome = as_result t.2;
        })
handle_signal m sigabrt world = cleared m
handle_signal m sighup world = cleared m
handle_signal m sigint world = cleared m
handle_signal m sigquit world = cleared m
handle_signal m sigterm world = cleared m
handle_signal m unknown_signal world = cleared m

-- How far `wait` or `loop` comes: to its end with a status, to an exception or a failed assertion, or
-- to a poll that has not returned yet.
pub data Progress : Type 0 where
  returned : ℕ → Progress
  thrown : Error → Progress
  aborted polling : Progress

-- A poll in which the signal descriptor was served, or only others were.
pub data Polled : Type 0 where
  signalled : Signal → World → Polled
  others : Polled

-- The manager after a poll, and the end of the loop if it ends there.
abbrev pub after_poll : ProcessManager → Polled → ProcessManager × Option Progress
after_poll m others = (m, none)
after_poll m (signalled sig world) =
    let h = handle_signal m sig world in
    (
      h.manager,
      elim h.outcome [
        | returns continue ↦ none
        | returns (exit status) ↦ some (returned status)
        | returns _ ↦ none
        | throws e ↦ some (thrown e)
        | aborts ↦ some aborted
      ],
    )

-- `wait`, over the polls so far
unfoldable pub wait_all : ProcessManager → List Polled → Progress
wait_all m [] = if is_empty m.child_processes then returned 0 else polling
wait_all m (t ∷ later) =
    let u = after_poll m t in
    let rest = wait_all u.0 later in
    if is_empty m.child_processes then returned 0 else elim u.1 [ none ↦ rest | some p ↦ p ]

-- `loop`
unfoldable pub loop : ProcessManager → List Polled → Progress
loop m [] = polling
loop m (t ∷ later) =
    let u = after_poll m t in let rest = loop u.0 later in elim u.1 [ none ↦ rest | some p ↦ p ]

-- `run`
unfoldable pub run : ProcessManager → Result ℕ → Option ℕ → List Polled → Result Progress
unfolding run_as_child wait_all
run m forked callback polls = elim (run_as_child m forked callback none) [
  | ok (m', pid) ↦ ok (wait_all m' polls)
  | err e ↦ err e
]
