-- ===== src/Client/Threads.antt =====
-- The threads of client.cc, client_eval.cc, client_eval_batch.cc and client_eval_batch_udp.cc: the
-- control thread, whose rounds follow the clock, and the data thread. A lap is a pass of the loop,
-- with what the world does in it; the list of laps ends where the thread still runs. Intervals are not
-- negative.
pub mod Pace
pub mod Data
pub mod Tests
use astraea_open_source.Prelude.{
  ℕ, ℤ, ◌+◌, max, Bool, true, false, if◌then◌else◌, List, [], ◌∷◌, ◌++◌, Option, replicate,
}
use astraea_open_source.Result.{Error, Result, ok, err}
use astraea_open_source.TcpInfo.{TcpInfo}
use astraea_open_source.DeepCc.{DeepCc}
use astraea_open_source.Json.{Json}
use astraea_open_source.Real.{Real}
use astraea_open_source.FileDescriptor.Write.{
  Output, Outcome, returns, throws, blocks, write_buffer,
}
use astraea_open_source.Client.{Effect, Run, lift, ◌>>◌}
use astraea_open_source.Client.Train
use astraea_open_source.Client.Unix
use astraea_open_source.Client.Udp
use astraea_open_source.Client.Helper

-- How a thread ends: its flag was cleared, or an exception left it, which ends the program.
pub data Ending : Type 0 where
  stopped running : Ending
  terminated : Error → Ending

-- A pass: whether `send_traffic` is set at its test, how long the round takes, by how much
-- `sleep_until` wakes late, and what the round is told.
pub record Lap (A : Type 0) : Type 0 where
  pub sending : Bool
  pub duration : ℕ
  pub late : ℕ
  pub input : A

-- What a control thread has done: the times at which rounds started, its calls, its socket, its end.
pub record Course (S J : Type 0) : Type 0 where
  pub starts : List ℕ
  pub effects : List (Effect J)
  pub state : S
  pub ending : Ending

module _ {S A J : Type 0} (round : S → A → S × Run J (Unit {0})) (interval : ℕ) where
  -- A round that started at `now`, and what follows it.
  abbrev pub put_round : ℕ → S × Run J (Unit {0}) → Course S J → Course S J
  put_round now (s, (effects, ok done)) rest = record {
    starts = now ∷ rest.starts;
    effects = effects ++ rest.effects;
    state = rest.state;
    ending = rest.ending;
  }
  put_round now (s, (effects, err e)) rest = record {
    starts = now ∷ [];
    effects = effects;
    state = s;
    ending = terminated e;
  }

  -- `while (send_traffic.load())`, from the time `now`
  unfoldable pub paced : ℕ → ℕ → S → List (Lap A) → Course S J
  paced now target s [] = record { starts = []; effects = []; state = s; ending = running }
  paced now target s (l ∷ laps) =
      let r = round s l.input in
      let woken = max (now + l.duration) target + l.late in
      let rest = paced woken (target + interval) r.0 laps in
      if l.sending
      then put_round now r rest
      else record { starts = []; effects = []; state = s; ending = stopped }

  -- From `when_started` on
  unfoldable pub control_loop : ℕ → S → List (Lap A) → Course S J
  unfolding paced
  control_loop when_started s laps = paced when_started (when_started + interval) s laps

-- What a round of `do_congestion_control` is told; `sent` is read over UDP only.
pub record Answers : Type 0 where
  pub now : ℕ
  pub reply : Option TcpInfo
  pub sent : Result (Unit {0})
  pub answer : Result (List ℕ)
  pub accepted : Bool
  pub logging : Bool

module _ {J R : Type 0} (json : Json J R) (real : Real R) (flow_id : ℤ) where
  abbrev pub unix_round : DeepCc → Answers → DeepCc × Run J (Unit {0})
  unix_round sock a =
      Unix.do_congestion_control json real sock flow_id a.now a.reply a.answer a.accepted a.logging

  abbrev pub udp_round : DeepCc → Answers → DeepCc × Run J (Unit {0})
  udp_round sock a =
      Udp.do_congestion_control json real sock flow_id a.now a.reply a.sent a.answer a.accepted
        a.logging

  abbrev pub helper_round : DeepCc → Answers → DeepCc × Run J (Unit {0})
  helper_round sock a =
      Helper.do_congestion_control json real sock flow_id a.now a.reply a.answer a.accepted
        a.logging

  -- `control_thread` of client_eval_batch.cc
  unfoldable pub unix_control_thread : ℕ → ℕ → DeepCc → List (Lap Answers) → Course DeepCc J
  unfolding control_loop
  unix_control_thread interval started sock laps =
      control_loop unix_round interval started sock laps

  -- `control_thread` of client_eval_batch_udp.cc
  unfoldable pub udp_control_thread : ℕ → ℕ → DeepCc → List (Lap Answers) → Course DeepCc J
  unfolding control_loop
  udp_control_thread interval started sock laps = control_loop udp_round interval started sock laps

  -- `control_thread` of client_eval.cc
  unfoldable pub helper_control_thread : ℕ → ℕ → DeepCc → List (Lap Answers) → Course DeepCc J
  unfolding control_loop
  helper_control_thread interval started sock laps =
      control_loop helper_round interval started sock laps

-- The letter 'a', of which a buffer is made
abbrev pub filler : ℕ
filler = 97

-- How far a data thread is: ended, ended by an exception, in a write that blocks, or between two.
pub data Sending : Type 0 where
  ends goes_on stuck : Output → Sending
  fails : Output → Error → Sending

-- `data_thread`, with a buffer of `bufsiz` letters, the BUFSIZ of the C library: for each pass,
-- whether `send_traffic` is set, and the results of `::write` in it.
unfoldable pub data_thread : ℕ → Output → List (Bool × List (Option ℕ)) → Sending
data_thread bufsiz s [] = goes_on s
data_thread bufsiz s ((false, results) ∷ laps) = ends s
data_thread bufsiz s ((true, results) ∷ laps) =
    elim (write_buffer s (replicate bufsiz filler) true results) [
      | returns s' left ↦ data_thread bufsiz s' laps
      | throws s' e ↦ fails s' e
      | blocks s' ↦ stuck s'
    ]

-- An observation that an observer asks for, in the callback of the polling thread.
pub record Observation : Type 0 where
  pub now : ℕ
  pub reply : Option TcpInfo
  pub observer : ℤ
  pub step : ℤ

-- What a round of the training client's thread is told: the observations since the last round, taken
-- as done between the rounds, though the program does not keep the two threads apart.
pub record Told : Type 0 where
  pub observed : List Observation
  pub now : ℕ
  pub reply : Option TcpInfo

module _ {J R : Type 0} (json : Json J R) (real : Real R) (flow_id : ℤ) where
  abbrev pub observe_all : DeepCc → List Observation → DeepCc × Run J (Unit {0})
  observe_all sock [] = (sock, lift (ok tt))
  observe_all sock (o ∷ os) =
      let seen = Train.observation json real sock flow_id o.now o.reply o.observer o.step in
      let rest = observe_all seen.0 os in (rest.0, seen.1 >> rest.1)

  abbrev pub train_round : DeepCc → Told → DeepCc × Run J (Unit {0})
  train_round sock a =
      let seen = observe_all sock a.observed in
      let r = Train.do_congestion_control json real seen.0 flow_id a.now a.reply in
      (r.0, seen.1 >> r.1)

  -- The loop of `control_thread` of client.cc
  unfoldable pub train_control_thread : ℕ → ℕ → DeepCc → List (Lap Told) → Course DeepCc J
  unfolding control_loop
  train_control_thread interval started sock laps =
      control_loop train_round interval started sock laps
