-- ===== src/Inference/Rounds.antt =====
-- A whole round of `inference_loop` of inference/tf_inference.cc, with no other thread in between.
use astraea_open_source.Prelude.{
  ◌<◌, ◌≡◌, refl, sym, ap, ◌∙◌, ℤ, List, [], ◌∷◌, ◌++◌, append_assoc, append-nil, map, Option, none,
  length, arith, Map, lookup, insert, erase, lookup-erase, lookup-insert_self, ==ℤ_refl, lt→ltb,
}
use astraea_open_source.Result.{ok}
use astraea_open_source.Inference.{
  Inference, Session, submit_inference_request, register_flow_callback, send_reply, invoke, output,
  collect, batch_inference, inference_round, reply_all,
}
use astraea_open_source.Inference.Flows.{IsFresh, IsDistinct, ids, ==ℤ_comm}

module _ {C R O : Type 0} (call : C → R → Option O) (session : Session R) where
  -- What the callbacks of a map send for the actions.
  abbrev pub answers : Map C → List ℤ → List R → List O
  answers m [] actions = []
  answers m (f ∷ fs) [] = []
  answers m (f ∷ fs) (a ∷ rest) = invoke call session (lookup f m) a ++ answers m fs rest

  answers-erase :
      (m : Map C) (g : ℤ) (fs : List ℤ) (actions : List R)
      → IsFresh g fs
      → answers (erase g m) fs actions ≡ answers m fs actions
  answers-erase m g [] actions h = refl
  answers-erase m g (f ∷ fs) [] h = refl
  answers-erase m g (f ∷ fs) (a ∷ rest) h =
      rw (lookup-erase g f m, ==ℤ_comm f g h.0, answers-erase m g fs rest h.1)

  reply_all-sent :
      (s : Inference C R O) (fs : List ℤ) (actions : List R)
      → IsDistinct fs
      → (reply_all call session s fs actions).sent ≡ s.sent ++ answers s.callbacks fs actions
  unfolding reply_all send_reply
  reply_all-sent s [] actions d = sym (append-nil s.sent)
  reply_all-sent s (f ∷ fs) [] d = sym (append-nil s.sent)
  reply_all-sent s (f ∷ fs) (a ∷ rest) d =
      reply_all-sent (send_reply call session s f a) fs rest d.1
      ∙ ap (λ t. (send_reply call session s f a).sent ++ t)
          (answers-erase s.callbacks f fs rest d.0)
      ∙ append_assoc s.sent (invoke call session (lookup f s.callbacks) a)
          (answers s.callbacks fs rest)

  ids-map : (rs : List (ℤ × List R)) → map (λ r. r.0) rs ≡ ids rs
  ids-map [] = refl
  ids-map (r ∷ rs) = ap (◌∷◌ r.0) (ids-map rs)

  -- If the waiting requests are of different flows and the network gives their actions, a round
  -- sends, in the order of the requests, what each flow's callback makes of its action, after what
  -- was sent before.
  pub inference_round-sent :
      (s : Inference C R O) (r : ℤ × List R) (rs : List (ℤ × List R)) (actions : List R)
      → s.queue ≡ r ∷ rs
      → IsDistinct (ids s.queue)
      → batch_inference call session (map (λ q. q.1) s.queue) ≡ ok actions
      → (t : Inference C R O) × (inference_round call session s ≡ ok t)
        × (t.sent ≡ s.sent ++ answers s.callbacks (ids s.queue) actions)
  unfolding inference_round collect
  inference_round-sent s r rs actions e d ran =
      let emptied = (collect call session s).0 in
      let some_waiting : 0 < length s.queue = omega (arith, ap length e) in
      rw (lt→ltb 0 (length s.queue) some_waiting, ran, ids-map s.queue)
        (
          reply_all call session emptied (ids s.queue) actions,
          refl,
          reply_all-sent emptied (ids s.queue) actions d,
        )

  -- If a flow asks twice before the replies, only one answer is sent: what the callback of the
  -- second request makes of the first action.
  reply_all_twice :
      (s : Inference C R O) (f : ℤ) (old new : List R) (first second : C) (a b : R)
      → let twice =
          submit_inference_request call session
            (submit_inference_request call session s f old first)
            f
            new
            second in
        (reply_all call session twice (f ∷ f ∷ []) (a ∷ b ∷ [])).sent
        ≡ s.sent ++ output call session (call second a)
  unfolding submit_inference_request register_flow_callback reply_all send_reply
  reply_all_twice s f old new first second a b =
      let m = insert f second (insert f first s.callbacks) in
      let gone : lookup f (erase f m) ≡ none = lookup-erase f f m ∙ rw (==ℤ_refl f) in
      rw (lookup-insert_self f second (insert f first s.callbacks), gone) (append-nil _)
