-- ===== src/Inference/Batch.antt =====
-- The batch service of inference/tf_inference.cc under interleavings: server threads submit while the
-- loop's thread collects, runs the network and replies.
use astraea_open_source.Prelude.{
  ◌≡◌, sym, ap, ◌∙◌, ◌⊎◌, inl, inr, ℤ, true, List, [], ◌∷◌, ◌++◌, map, Option, some, length,
  length-take, length-map, arith, subst, append-nil, Map, lookup, insert, erase, lookup-insert,
  lookup-erase, lookup-insert_self, ==ℤ_iff, ◌==ℤ◌, false, Option-cases, contains, append_assoc,
}
use astraea_open_source.Result.{ok}
use astraea_open_source.Inference.Flows.{
  IsFresh, IsDistinct, Has, ==ℤ_comm, IsDistinct-append, Has-ne, Has-append, ids, ids-append,
  pair_up, ids-pair_up,
}
use astraea_open_source.Inference.{
  Inference, Session, register_flow_callback, submit_inference_request, send_reply, invoke, output,
  collect, batch_inference, prepare_batch_input,
}

-- The service between two atomic steps: `pending` are the replies that the loop has still to send.
pub record System (C R O : Type 0) : Type 0 where
  pub service : Inference C R O
  pub pending : List (ℤ × R)

module _ {C R O : Type 0} (call : C → R → Option O) (session : Session R) where
  -- The flows whose requests have no answer yet.
  abbrev pub outstanding : System C R O → List ℤ
  outstanding y = ids y.pending ++ ids y.service.queue

  -- Any flow submits at any time; the code does not ask whether it has a request under way. The loop
  -- collects when it has replied to all; what runs between its locked parts touches nothing
  -- that is shared, so it belongs to the collecting step.
  pub data Step (y z : System C R O) : Type 0 where
    submits :
        (f : ℤ) (state : List R) (callback : C)
        → z
          ≡ record y { service = submit_inference_request call session y.service f state callback }
        → Step y z
    collects :
        (actions : List R)
        → y.pending ≡ []
        → batch_inference call session (map (λ r. r.1) y.service.queue) ≡ ok actions
        → z ≡ record {
          service = (collect call session y.service).0;
          pending = pair_up y.service.queue actions;
        }
        → Step y z
    replies :
        (f : ℤ) (a : R) (rest : List (ℤ × R))
        → y.pending ≡ (f, a) ∷ rest
        → z ≡ record { service = send_reply call session y.service f a; pending = rest }
        → Step y z

  pub data Reach (y : System C R O) : System C R O → Type 0 where
    here : Reach y y
    next : {z w : System C R O} → Reach y z → Step z w → Reach y w

  -- The step is not the submission of a flow that has a request under way.
  abbrev pub IsPatient : {y z : System C R O} → Step y z → Type 0
  IsPatient {y = y} (submits f state callback e) = IsFresh f (outstanding y)
  IsPatient (collects actions empty ran e) = Unit {0}
  IsPatient (replies f a rest e e') = Unit {0}

  abbrev pub AllPatient : {y z : System C R O} → Reach y z → Type 0
  AllPatient here = Unit {0}
  AllPatient (next r st) = AllPatient r × IsPatient st

  -- The step is not a submission of the flow.
  abbrev pub IsNoSubmission : {y z : System C R O} → ℤ → Step y z → Type 0
  IsNoSubmission f (submits g state callback e) = (g ==ℤ f) ≡ false
  IsNoSubmission f (collects actions empty ran e) = Unit {0}
  IsNoSubmission f (replies g a rest e e') = Unit {0}

  -- Every flow of the list has a callback.
  abbrev pub IsServed : Map C → List ℤ → Type 0
  IsServed m [] = Unit {0}
  IsServed m (f ∷ fs) = (contains f m ≡ true) × IsServed m fs

  pub record Inv (y : System C R O) : Type 0 where
    pub distinct : IsDistinct (outstanding y)
    pub served : IsServed y.service.callbacks (outstanding y)

  IsServed-insert :
      (m : Map C) (f : ℤ) (c : C) (fs : List ℤ)
      → IsServed m fs
      → IsServed (insert f c m) (fs ++ (f ∷ []))
  IsServed-insert m f c [] h = (ground (arith, lookup-insert_self f c m), tt)
  IsServed-insert m f c (g ∷ fs) h =
      (ground (arith, lookup-insert f g c m, h.0), IsServed-insert m f c fs h.1)

  IsServed-erase :
      (m : Map C) (f : ℤ) (fs : List ℤ) → IsFresh f fs → IsServed m fs → IsServed (erase f m) fs
  IsServed-erase m f [] h s = tt
  IsServed-erase m f (g ∷ fs) h s =
      (ground (arith, lookup-erase f g m, s.0, ==ℤ_comm g f h.0), IsServed-erase m f fs h.1 s.1)

  length-batch_inference :
      (states : List (List R)) (actions : List R)
      → batch_inference call session states ≡ ok actions
      → length actions ≡ length states
  unfolding batch_inference
  length-batch_inference states actions e =
      let rows = prepare_batch_input call session states (length states) in
      elim (Option-cases (session rows)) [
        | inl none_left ↦ ground (arith, none_left)
        | inr (values, ran) ↦ ground (arith, ran, length-take (length states) values)
      ]

  outstanding-submit :
      (y : System C R O) (f : ℤ) (state : List R)
      → ids y.pending ++ ids (y.service.queue ++ ((f, state) ∷ [])) ≡ outstanding y ++ (f ∷ [])
  outstanding-submit y f state =
      ap (λ t. ids y.pending ++ t) (ids-append y.service.queue f state)
      ∙ sym (append_assoc (ids y.pending) (ids y.service.queue) (f ∷ []))

  outstanding-collect :
      (y : System C R O) (actions : List R)
      → y.pending ≡ []
      → length actions ≡ length y.service.queue
      → ids (pair_up y.service.queue actions) ++ [] ≡ outstanding y
  outstanding-collect y actions e h =
      append-nil (ids (pair_up y.service.queue actions))
      ∙ ids-pair_up y.service.queue actions h
      ∙ ap (λ p. ids p ++ ids y.service.queue) (sym e)

  -- Every step keeps the invariant, unless a flow submits that has a request under way: no flow has
  -- two requests under way, and each has its callback.
  Step-Inv : (y z : System C R O) (st : Step y z) → IsPatient st → Inv y → Inv z
  unfolding submit_inference_request register_flow_callback collect send_reply
  Step-Inv y z (submits f state callback e) fresh v =
      let m = insert f callback y.service.callbacks in
      let grown = sym (outstanding-submit y f state) in
      subst Inv (sym e) (record {
        distinct = subst IsDistinct grown (IsDistinct-append f (outstanding y) v.distinct fresh);
        served =
            subst (IsServed m) grown
              (IsServed-insert y.service.callbacks f callback (outstanding y) v.served);
      })
  Step-Inv y z (collects actions empty ran e) h v =
      let count =
        length-batch_inference (map (λ r. r.1) y.service.queue) actions ran
        ∙ length-map (λ r. r.1) y.service.queue in
      let same = sym (outstanding-collect y actions empty count) in
      subst Inv (sym e) (record {
        distinct = subst IsDistinct same v.distinct;
        served = subst (IsServed y.service.callbacks) same v.served;
      })
  Step-Inv y z (replies f a rest e e') h v =
      let left = ids rest ++ ids y.service.queue in
      let split : outstanding y ≡ f ∷ left = ap (λ p. ids p ++ ids y.service.queue) e in
      let distinct = subst IsDistinct split v.distinct in
      let served = subst (IsServed y.service.callbacks) split v.served in
      subst Inv (sym e') (record {
        distinct = distinct.1;
        served = IsServed-erase y.service.callbacks f left distinct.0 served.1;
      })

  pub Reach-Inv : (y z : System C R O) (r : Reach y z) → AllPatient r → Inv y → Inv z
  Reach-Inv y z here h v = v
  Reach-Inv y z (next {z = w} r st) h v = Step-Inv w z st h.1 (Reach-Inv y w r h.0 v)

  -- The service as it starts.
  abbrev pub start : System C R O
  start = record {
    service = record { queue = []; callbacks = []; keep_running = true; sent = [] };
    pending = [];
  }

  pub start-Inv : Inv start
  start-Inv = record { distinct = tt; served = tt }

  -- From the start, however submissions, collections and replies interleave, as long as no flow
  -- submits while it has a request without an answer: when a reply's turn comes its flow has a
  -- callback, and the reply sends what that callback makes of the action.
  pub reply_served :
      (y : System C R O) (f : ℤ) (a : R) (rest : List (ℤ × R)) (r : Reach start y)
      → AllPatient r
      → y.pending ≡ (f, a) ∷ rest
      → (callback : C) × (lookup f y.service.callbacks ≡ some callback)
        × ((send_reply call session y.service f a).sent
            ≡ y.service.sent ++ output call session (call callback a))
  unfolding send_reply
  reply_served y f a rest r patient e =
      let v = Reach-Inv start y r patient start-Inv in
      let served =
        subst (IsServed y.service.callbacks) (ap (λ p. ids p ++ ids y.service.queue) e) v.served in
      elim (Option-cases (lookup f y.service.callbacks)) [
        | inl missing ↦
            let has : contains f y.service.callbacks ≡ true = served.0 in
            ground (arith, missing, has)
        | inr (callback, found) ↦ (callback, found, rw found)
      ]

  -- If no flow has two requests under way and each has its callback, and a flow whose callback is
  -- registered has a request under way, then after any step but a submission of this flow, those of
  -- other flows included: the request is still under way with the same callback, or the step has sent
  -- what that callback makes of an action.
  pub Step-keeps_callback :
      (y z : System C R O) (f : ℤ) (callback : C)
      → Inv y
      → Has f (outstanding y)
      → lookup f y.service.callbacks ≡ some callback
      → (st : Step y z) → IsNoSubmission f st
      → (Has f (outstanding z) × (lookup f z.service.callbacks ≡ some callback))
        ⊎ ((a : R) × (z.service.sent ≡ y.service.sent ++ output call session (call callback a)))
  unfolding submit_inference_request register_flow_callback collect send_reply
  Step-keeps_callback y z f callback v m h (submits g state c e) other =
      let grown = sym (outstanding-submit y g state) in
      inl (
        subst (λ w. Has f (outstanding w)) (sym e)
            (subst (Has f) grown (Has-append f g (outstanding y) m)),
        ap (λ w. lookup f w.service.callbacks) e
            ∙ ground (arith, lookup-insert g f c y.service.callbacks, other, h),
      )
  Step-keeps_callback y z f callback v m h (collects actions empty ran e) any =
      let count =
        length-batch_inference (map (λ r. r.1) y.service.queue) actions ran
        ∙ length-map (λ r. r.1) y.service.queue in
      inl (
        subst (λ w. Has f (outstanding w)) (sym e)
            (subst (Has f) (sym (outstanding-collect y actions empty count)) m),
        ap (λ w. lookup f w.service.callbacks) e ∙ h,
      )
  Step-keeps_callback y z f callback v m h (replies g a rest e e') any =
      let split : outstanding y ≡ g ∷ (ids rest ++ ids y.service.queue) =
        ap (λ p. ids p ++ ids y.service.queue) e in
      let distinct = subst IsDistinct split v.distinct in
      elim (subst (Has f) split m) [
        | inl same ↦
            let mine = ap (λ k. lookup k y.service.callbacks) ((==ℤ_iff g f).0 same) ∙ h in
            inr (
              a,
              ap (λ w. w.service.sent) e'
                  ∙ ap (λ c. y.service.sent ++ invoke call session c a) mine,
            )
        | inr later ↦
            let other = Has-ne f g (ids rest ++ ids y.service.queue) later distinct.0 in
            inl (
              subst (λ w. Has f (outstanding w)) (sym e') later,
              ap (λ w. lookup f w.service.callbacks) e'
                  ∙ ground (arith, lookup-erase g f y.service.callbacks, other, h),
            )
      ]
