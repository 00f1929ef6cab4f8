-- ===== src/Client/Threads/Pace.antt =====
-- When the rounds of the clients' control threads start.
use astraea_open_source.Prelude.{
  ℕ, ℤ, ◌+◌, ◌≤◌, max, List, [], ◌∷◌, arith, All, Bool-cases, inl, inr,
}
use astraea_open_source.Result.{ok, err}
use astraea_open_source.Json.{Json}
use astraea_open_source.Real.{Real}
use astraea_open_source.DeepCc.{DeepCc}
use astraea_open_source.Client.{Run}
use astraea_open_source.Client.Threads.{
  Lap, Course, put_round, paced, control_loop, Answers, unix_round, udp_round, helper_round,
  unix_control_thread, udp_control_thread, helper_control_thread, Told, train_round,
  train_control_thread,
}

-- The rounds start at `t`, `t + interval` and so on, each of them at most `slack` late.
abbrev pub OnTime : ℕ → ℕ → ℕ → List ℕ → Type 0
OnTime t interval slack [] = Unit
OnTime t interval slack (s ∷ starts) =
    (t ≤ s) × (s ≤ t + slack) × OnTime (t + interval) interval slack starts

-- A lap wakes at most `slack` late, and its round leaves that much of the interval.
abbrev pub IsPrompt : {A : Type 0} → ℕ → ℕ → Lap A → Type 0
IsPrompt interval slack l = (l.late ≤ slack) × (l.duration + slack ≤ interval)

module _ {S A J : Type 0} (round : S → A → S × Run J (Unit {0})) (interval slack : ℕ) where
  put_round-OnTime :
      (t now : ℕ) (r : S × Run J (Unit {0})) (rest : Course S J)
      → t ≤ now
      → now ≤ t + slack
      → OnTime (t + interval) interval slack rest.starts
      → OnTime t interval slack (put_round round interval now r rest).starts
  put_round-OnTime t now (s, (effects, ok done)) rest h h' i = (h, h', i)
  put_round-OnTime t now (s, (effects, err e)) rest h h' i = (h, h', tt)

  paced-OnTime :
      (t now : ℕ) (s : S) (laps : List (Lap A))
      → t ≤ now
      → now ≤ t + slack
      → All (IsPrompt interval slack) laps
      → OnTime t interval slack (paced round interval now (t + interval) s laps).starts
  unfolding paced
  paced-OnTime t now s [] h h' all = tt
  paced-OnTime t now s (l ∷ laps) h h' all = elim (Bool-cases l.sending) [
    | inr e ↦ rw (e) tt
    | inl e ↦
        let r = round s l.input in
        let woken = max (now + l.duration) (t + interval) + l.late in
        let rest =
          paced-OnTime (t + interval) woken r.0 laps (omega arith) (omega (arith, all.0)) all.1 in
        simp (e) (
          put_round-OnTime t now r (paced round interval woken (t + interval + interval) r.0 laps) h
            h' rest)
  ]

  -- A loop whose laps are prompt keeps the pace of the clock, however many they are.
  pub control_loop-OnTime :
      (started : ℕ) (s : S) (laps : List (Lap A))
      → All (IsPrompt interval slack) laps
      → OnTime started interval slack (control_loop round interval started s laps).starts
  unfolding control_loop
  control_loop-OnTime started s laps all =
      paced-OnTime started started s laps (omega arith) (omega arith) all

-- The control threads of the three clients of an inference service keep the pace of the clock: where
-- each round with the lateness of the waking takes at most an interval, the rounds start at the
-- thread's start and then an interval apart, each at most by that lateness behind, without drift.
pub control_threads-OnTime :
    {J R : Type 0} (json : Json J R) (real : Real R) (flow_id : ℤ) (interval slack started : ℕ)
    (sock : DeepCc) (laps : List (Lap Answers))
    → All (IsPrompt interval slack) laps
    → OnTime started interval slack
        (unix_control_thread json real flow_id interval started sock laps).starts
      × OnTime started interval slack
          (udp_control_thread json real flow_id interval started sock laps).starts
      × OnTime started interval slack
          (helper_control_thread json real flow_id interval started sock laps).starts
unfolding unix_control_thread udp_control_thread helper_control_thread
control_threads-OnTime json real flow_id interval slack started sock laps all = (
  control_loop-OnTime (unix_round json real flow_id) interval slack started sock laps all,
  control_loop-OnTime (udp_round json real flow_id) interval slack started sock laps all,
  control_loop-OnTime (helper_round json real flow_id) interval slack started sock laps all,
)

-- So does that of the training client.
train_control_thread-OnTime :
    {J R : Type 0} (json : Json J R) (real : Real R) (flow_id : ℤ) (interval slack started : ℕ)
    (sock : DeepCc) (laps : List (Lap Told))
    → All (IsPrompt interval slack) laps
    → OnTime started interval slack
        (train_control_thread json real flow_id interval started sock laps).starts
unfolding train_control_thread
train_control_thread-OnTime json real flow_id interval slack started sock laps all =
    control_loop-OnTime (train_round json real flow_id) interval slack started sock laps all
