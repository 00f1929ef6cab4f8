-- ===== src/Service/Registry.antt =====
-- The flows that the service of inference/udp_server.cc and inference/server.hh knows, as a set.
use astraea_open_source.Prelude.{
  ℕ, ◌+◌, ◌-◌, ◌%◌, ◌^◌, ◌≡◌, ◌≢◌, ◌↔◌, refl, ap, ◌∙◌, sym, inl, inr, ℤ, Bool, true, false,
  if◌then◌else◌, ◌==ℤ◌, ==ℤ_iff, List, [], Option, none, some, Map, lookup, insert, erase, contains,
  lookup-insert, lookup-erase, Bool-cases, Option-cases, arith, ◌==◌, ==_iff, ◌≤◌, take, drop, min,
}
use astraea_open_source.Result.{json_error, Result, ok, err}
use astraea_open_source.Wire.{get_uint16}
use astraea_open_source.Json.{Json, Key}
use astraea_open_source.Real.{Real}
use astraea_open_source.Context.{FlowContext, create, format_state}
use astraea_open_source.Inference.{Session}
use astraea_open_source.Service.{
  Server, Callback, MessageType, init, start, finish, alive, observe, unknown, handle_flow_removal,
  dropped, recv_buffer_size,
}
use astraea_open_source.Service.Udp.{
  handle_flow_init, handle_congestion_control, dispatch, handle_receive, control, with_state,
  infer_if_read, infer, send, rearm, handle_head, handle_text,
}

-- What a message does to the set of known flows: a start adds the flow, or `random` if the flow is
-- known already; an end takes it away; nothing else changes the set.
abbrev pub registry_after : MessageType → ℤ → ℤ → (ℤ → Bool) → ℤ → Bool
registry_after start f random known g =
    if (if known f then random else f) ==ℤ g then true else known g
registry_after finish f random known g = if f ==ℤ g then false else known g
registry_after _ f random known g = known g

module _ {V : Type 0} where
  contains-insert :
      (k g : ℤ) (v : V) (m : Map V)
      → contains g (insert k v m) ≡ (if k ==ℤ g then true else contains g m)
  contains-insert k g v m = ground (arith, lookup-insert k g v m)

  contains-erase :
      (k g : ℤ) (m : Map V) → contains g (erase k m) ≡ (if k ==ℤ g then false else contains g m)
  contains-erase k g m = ground (arith, lookup-erase k g m)

  -- An entry that is there is overwritten.
  contains-insert_same :
      (k g : ℤ) (v w : V) (m : Map V)
      → lookup k m ≡ some w
      → contains g (insert k v m) ≡ contains g m
  contains-insert_same k g v w m h = elim (Bool-cases (k ==ℤ g)) [
    | inl e ↦
        let there : lookup g m ≡ some w = ap (λ j. lookup j m) (sym ((==ℤ_iff k g).0 e)) ∙ h in
        ground (arith, lookup-insert k g v m, there, e)
    | inr e ↦ ground (arith, lookup-insert k g v m, e)
  ]

module _ {E J R : Type 0} (json : Json J R) (real : Real R) (session : Session R)
    (batch_mode : Bool) where
  abbrev pub known : Server E J R → ℤ → Bool
  known s g = contains g s.contexts

  infer-contexts :
      (s : Server E J R) (f : ℤ) (state : List R) (c : Callback E J)
      → ((infer json real session batch_mode s f state c).0).contexts ≡ s.contexts
  unfolding infer
  infer-contexts s f state c = elim (Bool-cases batch_mode) [
    | inl e ↦ rw (e, infer)
    | inr e ↦ rw (e, infer)
  ]

  -- The contexts after a request: that of the flow is the one that `format_state` leaves.
  infer_if_read-known :
      (s : Server E J R) (f : ℤ) (c : Callback E J) (old : FlowContext R)
      (p : FlowContext R × Result (List R)) (g : ℤ)
      → lookup f s.contexts ≡ some old
      → known (infer_if_read json real session batch_mode s f c p).0 g ≡ known s g
  infer_if_read-known s f c old (context, ok state) g h =
      ap (contains g)
        (infer-contexts (record s { contexts = insert f context s.contexts }) f state c)
      ∙ contains-insert_same f g context old s.contexts h
  infer_if_read-known s f c old (context, err e) g h =
      contains-insert_same f g context old s.contexts h

  with_state-known :
      (s : Server E J R) (f : ℤ) (c : Callback E J) (context : FlowContext R) (o : Option J) (g : ℤ)
      → lookup f s.contexts ≡ some context
      → known (with_state json real session batch_mode s f c context o).0 g ≡ known s g
  with_state-known s f c context none g h =
      infer_if_read-known s f c context (record context { current = [] }, err json_error) g h
  with_state-known s f c context (some state) g h =
      infer_if_read-known s f c context (format_state json real context state) g h

  control-known :
      (s : Server E J R) (f : ℤ) (c : Callback E J) (o : Option (FlowContext R)) (g : ℤ)
      → lookup f s.contexts ≡ o
      → known (control json real session batch_mode s f c o).0 g ≡ known s g
  control-known s f c none g h = refl
  control-known s f c (some context) g h =
      with_state-known s f c context (json.at c.message Key.state) g h

  send-known :
      (s : Server E J R) (c : Callback E J) (bytes : Result (List ℕ)) (g : ℤ)
      → known (send json real session batch_mode s c bytes).0 g ≡ known s g
  send-known s c (ok bytes) g = refl
  send-known s c (err e) g = refl

  start-known :
      (s : Server E J R) (f random : ℤ) (c : Callback E J) (g : ℤ)
      → known (handle_flow_init json real session batch_mode s f c random).0 g
        ≡ registry_after start f random (known s) g
  unfolding handle_flow_init
  start-known s f random c g =
      let flow_id = if contains f s.contexts then random else f in
      send-known _ c _ g ∙ contains-insert flow_id g (create json real flow_id) s.contexts

  finish-known :
      (s : Server E J R) (f : ℤ) (g : ℤ)
      → known (handle_flow_removal s f) g ≡ (if f ==ℤ g then false else known s g)
  unfolding handle_flow_removal
  finish-known s f g = elim (Option-cases (lookup f s.contexts)) [
    | inl e ↦ ground (arith, e, ==ℤ_iff f g)
    | inr (context, e) ↦ ground (arith, e, lookup-erase f g s.contexts)
  ]

  -- Whatever message comes, whatever it holds and whether or not its handler throws, the flows that
  -- are known afterwards are those that `registry_after` gives.
  pub dispatch-known :
      (s : Server E J R) (type : MessageType) (f random : ℤ) (c : Callback E J) (g : ℤ)
      → known (dispatch json real session batch_mode s type f c random).0 g
        ≡ registry_after type f random (known s) g
  unfolding dispatch handle_congestion_control
  dispatch-known s init f random c g = refl
  dispatch-known s start f random c g = start-known s f random c g
  dispatch-known s finish f random c g = finish-known s f g
  dispatch-known s alive f random c g = control-known s f c (lookup f s.contexts) g refl
  dispatch-known s observe f random c g = refl
  dispatch-known s unknown f random c g = refl

  rearm-ne-dropped :
      (p : Server E J R × Result (Unit {0})) → (rearm json real session batch_mode p).1 ≢ dropped
  rearm-ne-dropped (s, ok x) e = ground arith
  rearm-ne-dropped (s, err x) e = ground arith

  handle_head-ne-dropped :
      (s : Server E J R) (peer : E) (message : J) (random : ℤ) (h : Result (ℤ × ℤ))
      → (handle_head json real session batch_mode s peer message random h).1 ≢ dropped
  handle_head-ne-dropped s peer message random (ok (t, f)) e = rearm-ne-dropped _ e
  handle_head-ne-dropped s peer message random (err x) e = ground arith

  handle_text-ne-dropped :
      (s : Server E J R) (peer : E) (o : Option J) (random : ℤ)
      → (handle_text json real session batch_mode s peer o random).1 ≢ dropped
  handle_text-ne-dropped s peer none random e = ground arith
  handle_text-ne-dropped s peer (some message) random e =
      handle_head-ne-dropped s peer message random _ e

  -- A datagram of 2 to 1024 bytes, which the buffer holds, is given up as incomplete, without an
  -- exception and with no receive armed, exactly if the length in its first two bytes is not that of
  -- its rest.
  pub handle_receive_drops_iff :
      (s : Server E J R) (peer : E) (buffer : List ℕ) (transferred n : ℕ) (random : ℤ)
      → 2 ≤ transferred
      → transferred ≤ recv_buffer_size
      → get_uint16 (take recv_buffer_size buffer) ≡ some n
      → ((handle_receive json real session batch_mode s false peer buffer transferred random).1
          ≡ dropped)
        ↔ (n ≢ transferred - 2)
  unfolding handle_receive
  handle_receive_drops_iff s peer buffer transferred n random h k e =
      let rest : (min transferred recv_buffer_size + 2 ^ 64 - 2) % 2 ^ 64 ≡ transferred - 2 =
        ground arith in
      let held = take recv_buffer_size buffer in
      elim (Bool-cases (n == (transferred - 2))) [
        | inl same ↦
            rw (e, rest, same)
              (
                λ d.
                    absurd
                      (handle_text-ne-dropped s peer (json.parse (take n (drop 2 held))) random d),
                λ ne. absurd (ne ((==_iff n (transferred - 2)).0 same)),
              )
        | inr other ↦ rw (e, rest, other) (λ d q. cc ((==_iff n (transferred - 2)).1 q), λ ne. refl)
      ]
