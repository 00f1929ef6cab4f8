-- ===== src/Inference/Tests.antt =====
-- The theorems on inference/tf_inference.cc, on a network that doubles and callbacks that add.
use astraea_open_source.Prelude.{
  ℕ, ◌+◌, ◌≡◌, ◌⊎◌, inl, refl, insert, pos, true, false, List, [], ◌∷◌, ◌++◌, map, Option, some,
  lookup,
}
use astraea_open_source.Result.{ok}
use astraea_open_source.Inference.{
  Inference, Session, submit_inference_request, register_flow_callback, send_reply, collect, output,
  batch_inference, inference_round,
}
use astraea_open_source.Inference.Flows.{Has, ids}
use astraea_open_source.Inference.Batch.{
  System, Reach, start, here, next, submits, collects, outstanding, reply_served,
  Step-keeps_callback, Reach-Inv, start-Inv,
}
use astraea_open_source.Inference.Rounds.{answers, inference_round-sent}
use astraea_open_source.Inference.Shutdown.{
  Threads, asleep, uncalled, cleared, joined, ended, at_head, stop_can_hang,
}
use astraea_open_source.Inference.Shutdown

-- The sum of each row.
abbrev sum : List ℕ → ℕ
sum [] = 0
sum (x ∷ xs) = x + sum xs

abbrev network : Session ℕ
network rows = some (map sum rows)

-- A callback is a number, and sends the action with it.
abbrev call : ℕ → ℕ → Option (ℕ × ℕ)
call c a = some (c, a)

-- Two flows ask, and the loop takes both requests.
abbrev asked : System ℕ ℕ (ℕ × ℕ)
asked = record (start call network) {
  service =
      submit_inference_request call network (start call network).service (pos 7) (1 ∷ 2 ∷ []) 40;
}

abbrev asked_both : System ℕ ℕ (ℕ × ℕ)
asked_both = record asked {
  service = submit_inference_request call network asked.service (pos 9) (5 ∷ []) 50;
}

abbrev taken : System ℕ ℕ (ℕ × ℕ)
taken = record {
  service = (collect call network asked_both.service).0;
  pending = (pos 7, 3) ∷ (pos 9, 5) ∷ [];
}

abbrev both : Reach call network (start call network) asked_both
unfolding submit_inference_request register_flow_callback
both = next (next here (submits (pos 7) (1 ∷ 2 ∷ []) 40 refl)) (submits (pos 9) (5 ∷ []) 50 refl)

abbrev both_taken : Reach call network (start call network) taken
unfolding submit_inference_request register_flow_callback collect batch_inference
both_taken = next both (collects (3 ∷ 5 ∷ []) refl refl refl)

reply_served_example :
    (callback : ℕ) × (lookup (pos 7) taken.service.callbacks ≡ some callback)
    × ((send_reply call network taken.service (pos 7) 3).sent
        ≡ taken.service.sent ++ output call network (call callback 3))
unfolding submit_inference_request register_flow_callback collect batch_inference
reply_served_example =
    reply_served call network taken (pos 7) 3 ((pos 9, 5) ∷ []) both_taken
      ((((tt, tt), (refl, tt)), tt)) refl

Step-keeps_callback_example :
    (Has (pos 7) (outstanding call network asked_both)
      × (lookup (pos 7) asked_both.service.callbacks ≡ some 40))
    ⊎ ((a : ℕ) × (asked_both.service.sent ≡ asked.service.sent ++ output call network (call 40 a)))
unfolding submit_inference_request register_flow_callback insert lookup
Step-keeps_callback_example =
    Step-keeps_callback call network asked asked_both (pos 7) 40
      (Reach-Inv call network (start call network) asked
        (next here (submits (pos 7) (1 ∷ 2 ∷ []) 40 refl)) (tt, tt) (start-Inv call network))
      (inl refl) refl (submits (pos 9) (5 ∷ []) 50 refl) refl

inference_round-sent_example :
    (t : Inference ℕ ℕ (ℕ × ℕ)) × (inference_round call network asked_both.service ≡ ok t)
    × (t.sent
        ≡ asked_both.service.sent
          ++ answers call network asked_both.service.callbacks
              (ids asked_both.service.queue)
              (3 ∷ 5 ∷ []))
unfolding submit_inference_request register_flow_callback batch_inference
inference_round-sent_example =
    inference_round-sent call network asked_both.service (pos 7, 1 ∷ 2 ∷ []) ((pos 9, 5 ∷ []) ∷ [])
      (3 ∷ 5 ∷ []) refl ((refl, tt), (tt, tt)) refl

abbrev sleeping : Threads
sleeping = record { worker = asleep; stopper = uncalled; keep_running = true; has_requests = false }

stop_can_hang_example :
    (u : Threads) × Shutdown.Reach sleeping u
    × (u.stopper ≡ cleared)
    × ((v : Threads) → ¬ Shutdown.Step u v)
stop_can_hang_example = stop_can_hang sleeping refl refl refl refl

-- The loop ends when `stop` is called while it stands at its head.
abbrev stopped : Threads
stopped = record { worker = ended; stopper = joined; keep_running = false; has_requests = false }

Reach-stopped : Shutdown.Reach Shutdown.start stopped
unfolding Shutdown.enter
Reach-stopped =
    Shutdown.next
      (Shutdown.next
        (Shutdown.next (Shutdown.next Shutdown.here (Shutdown.notifies refl refl))
          (Shutdown.clears refl refl))
        (Shutdown.enters refl refl))
      (Shutdown.joins refl refl refl)
