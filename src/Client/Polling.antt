-- ===== src/Client/Polling.antt =====
-- The polling thread of client.cc: `do_poll` over net/poller.cc, with the one action that
-- `control_thread` registers.
use astraea_open_source.Prelude.{ℕ, Bool, true, if◌then◌else◌, List, [], ◌∷◌, minus_one}
use astraea_open_source.Result.{ok}
use astraea_open_source.Poller.{
  Action, Direction, input, Call, Callbacks, ResultType, success, timeout, aborts, exits, throws,
  Polled, Poller, add_action, poll,
}

-- How the thread ends: by itself, with the process, or not while the kernel has answered so far.
pub data Thread : Type 0 where
  returns dies still : Thread
  exits_process : ℕ → Thread

-- The action of `control_thread`: always of interest, and its error callback writes to the log. No
-- callback closes or moves the connection, whose number stands for it.
unfoldable pub callbacks_of :
    {W : Type 0} → (W → ℕ → Bool) → (W → ℕ → Direction → ℕ) → (W → Action → Call W) → Callbacks W
callbacks_of eof service_count call = record {
  number = λ w fd. fd;
  eof = eof;
  service_count = service_count;
  when_interested = λ w a. true;
  call = call;
  fderror = λ w a. record { world = w; added = []; removed = []; outcome = ok ResultType.continue };
}

unfoldable pub ipc_action : ℕ → Action
ipc_action fd = record {
  fd = fd;
  direction = input;
  callback = 0;
  fail_poller = true;
  active = true;
}

module _ {W : Type 0} (env : Callbacks W) (do_polling : W → Bool) where
  -- The loop, for as many answers of the kernel as there are. `exit` is called for any result but
  -- success, and an exception or a failed assertion ends the process otherwise.
  unfoldable pub do_poll : Poller → W → List Polled → Thread
  do_poll p w [] = still
  do_poll p w (kernel ∷ later) =
      let t = poll env p w minus_one kernel in
      let rest = do_poll t.poller t.world later in
      if do_polling w
      then elim t.outcome [
        | success ↦ rest
        | timeout ↦ exits_process 0
        | exits status ↦ exits_process status
        | throws e ↦ dies
        | aborts ↦ dies
      ]
      else returns

abbrev pub empty : Poller
empty = record { add_queue = []; actions = []; pollfds = []; to_remove = [] }

module _ {W : Type 0} (eof : W → ℕ → Bool) (service_count : W → ℕ → Direction → ℕ)
    (call : W → Action → Call W) (do_polling : W → Bool) where
  abbrev env : Callbacks W
  env = callbacks_of eof service_count call

  abbrev fresh : ℕ → Poller
  fresh fd = add_action empty (ipc_action fd)
