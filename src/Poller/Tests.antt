-- ===== src/Poller/Tests.antt =====
-- The theorems on net/poller.cc, on two actions of which one is at fault.
use astraea_open_source.Prelude.{
  ℕ, suc, ◌^◌, ◌-◌, ◌==◌, ltb, ◌&&◌, ◌||◌, if◌then◌else◌, arith, refl, minus_one, ◌≡◌, true, false,
  [], ◌∷◌, All,
}
use astraea_open_source.Result.{ok}
use astraea_open_source.Poller.{
  Action, Direction, input, output, Callbacks, continue, Polled, ready, Poller, poll, is_wanted,
}
use astraea_open_source.Poller.Calls.{Paired, Stable}
use astraea_open_source.Poller.Polls.{Left, poll-Paired}

-- The world counts the calls. The descriptor 6 is closed by the first.
abbrev number : ℕ → ℕ → ℕ
number w d = if (d == 6) && ltb 0 w then 2 ^ 32 - 1 else d

abbrev env : Callbacks ℕ
env = record {
  number = number;
  eof = λ w fd. false;
  service_count = λ w fd direction. w;
  when_interested = λ w a. true;
  call = λ w a. record { world = suc w; added = []; removed = []; outcome = ok continue };
  fderror = λ w a. record { world = w; added = []; removed = []; outcome = ok continue };
}

abbrev action : ℕ → Direction → Action
action fd direction = record {
  fd = fd;
  direction = direction;
  callback = fd;
  fail_poller = true;
  active = true;
}

abbrev two_actions : Poller
two_actions = record {
  add_queue = action 4 input ∷ action 5 output ∷ [];
  actions = [];
  pollfds = [];
  to_remove = [];
}

-- The descriptor 4 is ready, and 5 has hung up.
abbrev mixed : Polled
mixed = ready (
    record { error = false; readable = true; writable = false }
    ∷ record { error = true; readable = false; writable = true }
    ∷ [])

-- The descriptors of the two actions.
abbrev IsHeld : ℕ → Type 0
IsHeld d = (d == 4) || (d == 5) ≡ true

env-Stable : Stable env IsHeld
env-Stable = record { call_keeps = λ v a d h. held v d h; fderror_keeps = λ v a d h. refl }
  where
    held : (v d : ℕ) → IsHeld d → number (suc v) d ≡ number v d
    held v d h = ground (arith, h)

poll-Paired_example :
    let t = poll env two_actions 0 minus_one mixed in
    Paired (number t.world) t.poller.actions t.poller.pollfds
    × All (λ a. is_wanted env 0 a ≡ true) t.called
    × Left (number 0) (number t.world) two_actions mixed t.poller.actions t.outcome
poll-Paired_example =
    poll-Paired env IsHeld two_actions 0 minus_one mixed env-Stable (refl, (refl, tt)) tt
