-- ===== src/Inference/Shutdown.antt =====
-- The stop of the service: `TFInference::stop` of inference/tf_inference.hh against the thread of
-- `inference_loop`. The two run at once; a step is what one of them does with no other in between.
-- `stop` runs in the signal handler, on the thread that would submit. Spurious wake-ups of the
-- condition variable are left out.
use astraea_open_source.Prelude.{◌≡◌, refl, Bool, true, false, not, ◌||◌, arith, ◌⊎◌}

-- Where the loop's thread stands: at the head of the loop, before it tests the condition under its
-- lock, asleep in `wait`, at work on requests, or past the loop.
pub data Worker : Type 0 where
  at_head testing asleep working ended : Worker

-- Where `stop` stands: not called, past `notify_all`, past the store to the flag, past `join`.
pub data Stopper : Type 0 where
  uncalled notified cleared joined : Stopper

pub record Threads : Type 0 where
  pub worker : Worker
  pub stopper : Stopper
  pub keep_running : Bool
  pub has_requests : Bool

-- `notify_all` wakes a sleeper, which then tests again.
abbrev pub woken : Worker → Worker
woken asleep = testing
woken at_head = at_head
woken testing = testing
woken working = working
woken ended = ended

-- `while (keep_running_.load())`
unfoldable pub enter : Threads → Worker
enter t = elim t.keep_running [ true ↦ testing | false ↦ ended ]

-- `cv_.wait(lock, predicate)`: sleep, or go on with what is in the queue.
unfoldable pub test : Threads → Worker
test t = elim (not t.keep_running || t.has_requests) [ true ↦ working | false ↦ asleep ]

pub data Step (t u : Threads) : Type 0 where
  enters : t.worker ≡ at_head → u ≡ record t { worker = enter t } → Step t u
  tests :
      t.worker ≡ testing
      → u ≡ record t {
        worker = test t;
        has_requests = elim (test t) [ asleep ↦ t.has_requests | _ ↦ false ];
      }
      → Step t u
  finishes : t.worker ≡ working → u ≡ record t { worker = at_head } → Step t u
  submits :
      t.stopper ≡ uncalled
      → u ≡ record t { worker = woken t.worker; has_requests = true }
      → Step t u
  notifies :
      t.stopper ≡ uncalled → u ≡ record t { worker = woken t.worker; stopper = notified } → Step t u
  clears :
      t.stopper ≡ notified → u ≡ record t { stopper = cleared; keep_running = false } → Step t u
  joins : t.stopper ≡ cleared → t.worker ≡ ended → u ≡ record t { stopper = joined } → Step t u

pub data Reach (t : Threads) : Threads → Type 0 where
  here : Reach t t
  next : {u v : Threads} → Reach t u → Step u v → Reach t v

-- The loop sleeps and the flag is down, but nobody will notify again.
abbrev pub IsHung : Threads → Type 0
IsHung t = (t.worker ≡ asleep) × (t.stopper ≡ cleared)

hung_stays : (t u : Threads) → Step t u → IsHung t → ⊥
hung_stays t u (enters w e) h = ground arith
hung_stays t u (tests w e) h = ground arith
hung_stays t u (finishes w e) h = ground arith
hung_stays t u (submits w e) h = ground arith
hung_stays t u (notifies w e) h = ground arith
hung_stays t u (clears w e) h = ground arith
hung_stays t u (joins w w' e) h = ground arith

-- From every state in which the loop sleeps on an empty queue and `stop` is not yet called, `stop`
-- can hang: a state can be reached from which no thread has a step, and in which `join` has not
-- returned.
pub stop_can_hang :
    (t : Threads)
    → t.worker ≡ asleep
    → t.stopper ≡ uncalled
    → t.keep_running ≡ true
    → t.has_requests ≡ false
    → (u : Threads) × Reach t u × (u.stopper ≡ cleared) × ((v : Threads) → ¬ Step u v)
unfolding test
stop_can_hang t w s k q =
    let t1 : Threads = record t { worker = testing; stopper = notified } in
    let t2 : Threads = record t { worker = asleep; stopper = notified } in
    let t3 : Threads = record t { worker = asleep; stopper = cleared; keep_running = false } in
    let woke : Step t t1 = notifies s (ground arith) in
    let slept : Step t1 t2 = tests refl (ground arith) in
    let down : Step t2 t3 = clears refl refl in
    (t3, next (next (next here woke) slept) down, refl, λ v st. hung_stays t3 v st (refl, refl))

pub record Inv (t : Threads) : Type 0 where
  pub flag : (t.keep_running ≡ false) → (t.stopper ≡ cleared) ⊎ (t.stopper ≡ joined)
  pub ended_flag : t.worker ≡ ended → t.keep_running ≡ false
  pub joined_ended : t.stopper ≡ joined → t.worker ≡ ended

Step-Inv : (t u : Threads) → Step t u → Inv t → Inv u
unfolding enter test
Step-Inv t u (enters w e) v = ground (arith, v.flag, v.ended_flag, v.joined_ended)
Step-Inv t u (tests w e) v = ground (arith, v.flag, v.ended_flag, v.joined_ended)
Step-Inv t u (finishes w e) v = ground (arith, v.flag, v.ended_flag, v.joined_ended)
Step-Inv t u (submits w e) v = ground (arith, v.flag, v.ended_flag, v.joined_ended)
Step-Inv t u (notifies w e) v = ground (arith, v.flag, v.ended_flag, v.joined_ended)
Step-Inv t u (clears w e) v = ground (arith, v.flag, v.ended_flag, v.joined_ended)
Step-Inv t u (joins w w' e) v = ground (arith, v.flag, v.ended_flag, v.joined_ended)

Reach-Inv : (t u : Threads) → Reach t u → Inv t → Inv u
Reach-Inv t u here v = v
Reach-Inv t u (next {u = w} r st) v = Step-Inv w u st (Reach-Inv t w r v)

abbrev pub start : Threads
start = record { worker = at_head; stopper = uncalled; keep_running = true; has_requests = false }

-- In every state reached from the start in which `join` has returned, the loop has ended and the
-- flag is down.
joined_after_end :
    (t : Threads)
    → Reach start t
    → t.stopper ≡ joined
    → (t.worker ≡ ended) × (t.keep_running ≡ false)
joined_after_end t r j =
    let v = Reach-Inv start t r (record {
      flag = λ e. absurd (ground arith);
      ended_flag = λ e. absurd (ground arith);
      joined_ended = λ e. absurd (ground arith);
    }) in
    (v.joined_ended j, v.ended_flag (v.joined_ended j))
