-- ===== src/Client/Setup.antt =====
-- What the clients do before they connect needs no TCP connection.
use astraea_open_source.Prelude.{
  ℕ, ◌≡◌, refl, Bool, true, false, if◌then◌else◌, ℤ, ◌==◌, List, [], ◌∷◌, some, length, Bool-cases,
  inl, inr,
}
use astraea_open_source.Result.{Error, ok, err, Result-cases}
use astraea_open_source.Json.{Json}
use astraea_open_source.Real.{Real}
use astraea_open_source.Client.{
  Options, stoi, Run, ◌>>=◌, lift, attempt, World, same_text, astraea, Effect,
}
use astraea_open_source.Client.Train
use astraea_open_source.Client.Unix
use astraea_open_source.Client.Udp
use astraea_open_source.Client.Helper
use astraea_open_source.Client.Passive
use astraea_open_source.Client.Trace.{is_quiet, Quiet, >>=-Quiet, attempt-Quiet}

module _ {J R : Type 0} (json : Json J R) (real : Real R) where
  pub Train_flow_of-Quiet : (world : World) (id : List ℕ) → Quiet (Train.flow_of json world id).0
  Train_flow_of-Quiet world [] = tt
  Train_flow_of-Quiet world (c ∷ text) = tt

  pub Unix_flow_of-Quiet : (world : World) (id : List ℕ) → Quiet (Unix.flow_of json world id).0
  Unix_flow_of-Quiet world [] = tt
  Unix_flow_of-Quiet world (c ∷ text) = tt

  interval_of-Quiet : (world : World) (text : List ℕ) → Quiet (Unix.interval_of json world text).0
  interval_of-Quiet world [] = tt
  interval_of-Quiet world (c ∷ text) = tt

  setup_ipc_socket-Quiet :
      (world : World) (file : List ℕ) (flow_id : ℤ)
      → Quiet (Train.setup_ipc_socket json world file flow_id).0
  unfolding Train.setup_ipc_socket
  setup_ipc_socket-Quiet world file flow_id = elim (Bool-cases world.ipc_file_usable) [
    | inl e ↦
        rw e (elim (Bool-cases world.ipc_accepts) [
          | inl a ↦ rw a (refl, (refl, tt))
          | inr a ↦ rw a tt
        ])
    | inr e ↦ rw e tt
  ]

  pub setup_control-Quiet :
      (world : World) (o : Options) (flow_id : ℤ)
      → Quiet (Train.setup_control json world o flow_id).0
  unfolding Train.setup_control
  setup_control-Quiet world o flow_id = elim (Bool-cases (length o.ipc_file == 0)) [
    | inl e ↦ rw e tt
    | inr e ↦ rw e (
        >>=-Quiet (Train.setup_ipc_socket json world o.ipc_file flow_id) _
          (setup_ipc_socket-Quiet world o.ipc_file flow_id)
          (λ done.
            >>=-Quiet (stoi {J = J} world o.interval) (λ i. lift (ok (some i))) tt (λ i. tt)))
  ]

  unix_ask-Quiet :
      (world : World) (flow_id interval : ℤ) → Quiet (Unix.ask json real world flow_id interval).0
  unfolding Unix.ask Unix.unix_send_message
  unix_ask-Quiet world flow_id interval = elim (Bool-cases world.ipc_accepts) [
    | inr e ↦ rw e tt
    | inl e ↦ rw e (elim (Result-cases world.reply) [
      | inr (x, r) ↦ rw r (refl, (refl, tt))
      | inl (text, r) ↦ rw r (elim (Result-cases (Unix.given_id json real text)) [
        | inl (n, g) ↦ rw g (refl, (refl, (refl, tt)))
        | inr (x, g) ↦ rw g (refl, (refl, (refl, tt)))
      ])
    ])
  ]

  udp_ask-Quiet :
      (world : World) (flow_id interval : ℤ) → Quiet (Udp.ask json real world flow_id interval).0
  unfolding Udp.ask Udp.udp_send_message
  udp_ask-Quiet world flow_id interval = elim (Result-cases world.sent) [
    | inr (x, s) ↦ rw s tt
    | inl (done, s) ↦ rw s (elim (Result-cases world.reply) [
      | inr (x, r) ↦ rw r (refl, tt)
      | inl (msg, r) ↦ rw r (elim (Result-cases (Udp.udp_recv_message msg)) [
        | inr (x, g) ↦ rw g (refl, (refl, tt))
        | inl (text, g) ↦ rw g (elim (Result-cases (Unix.given_id json real text)) [
          | inl (n, h) ↦ rw h (refl, (refl, tt))
          | inr (x, h) ↦ rw h (refl, (refl, tt))
        ])
      ])
    ])
  ]

  pub unix_setup-Quiet :
      (world : World) (o : Options) (flow_id : ℤ)
      → Quiet (Unix.setup_service json real world o flow_id).0
  unfolding Unix.setup_service
  unix_setup-Quiet world o flow_id = elim (Bool-cases (same_text o.cong_ctl astraea)) [
    | inr e ↦ rw e tt
    | inl e ↦ rw e (
        >>=-Quiet (Unix.interval_of json world o.interval) _ (interval_of-Quiet world o.interval)
          (λ interval. unix_ask-Quiet world flow_id interval))
  ]

  pub udp_setup-Quiet :
      (world : World) (o : Options) (flow_id : ℤ)
      → Quiet (Udp.setup_service json real world o flow_id).0
  unfolding Udp.setup_service
  udp_setup-Quiet world o flow_id = elim (Bool-cases (same_text o.cong_ctl astraea)) [
    | inr e ↦ rw e tt
    | inl e ↦ rw e (
        >>=-Quiet (Unix.interval_of json world o.interval) _ (interval_of-Quiet world o.interval)
          (λ interval. udp_ask-Quiet world flow_id interval))
  ]

  -- A call that needs no connection, and the rest.
  attempt-Quiet_then :
      {A : Type 0} (c : Effect J) (b : Bool) (k : Run J A)
      → is_quiet c ≡ true
      → Quiet k.0
      → Quiet (attempt c Error.unix_error b >>= λ _. k).0
  attempt-Quiet_then c b k q p =
      >>=-Quiet (attempt c Error.unix_error b) (λ _. k) (attempt-Quiet c Error.unix_error b q)
        (λ _. p)

  lift-Quiet :
      {A : Type 0} (b : Bool) (k : Run J A)
      → Quiet k.0
      → Quiet (lift (if b then ok tt else err Error.runtime_error) >>= λ _. k).0
  lift-Quiet true k p = p
  lift-Quiet false k p = tt

  start-Quiet : (world : World) (o : Options) → Quiet (Helper.start json world o).0
  unfolding Helper.start
  start-Quiet world o = lift-Quiet (world.exists o.pyhelper) _ (
      lift-Quiet (world.exists o.model) _ (
        attempt-Quiet_then _ world.creates_directory _ refl (
          attempt-Quiet_then _ world.binds _ refl (
            attempt-Quiet_then _ world.listens _ refl (
              attempt-Quiet_then _ world.forks _ refl (
                >>=-Quiet (Unix.interval_of json world o.interval) _
                  (interval_of-Quiet world o.interval)
                  (λ interval. attempt-Quiet_then _ world.helper_connects _ refl tt)))))))

  pub helper_setup-Quiet :
      (world : World) (o : Options) → Quiet (Helper.setup_helper json world o).0
  unfolding Helper.setup_helper
  helper_setup-Quiet world o = elim (Bool-cases (Helper.wants_helper o)) [
    | inl e ↦ rw e (>>=-Quiet (Helper.start json world o) _ (start-Quiet world o) (λ interval. tt))
    | inr e ↦ rw e tt
  ]

  passive_ipc-Quiet :
      (world : World) (file : List ℕ) (flow_id : ℤ)
      → Quiet (Passive.setup_ipc_socket json world file flow_id).0
  unfolding Passive.setup_ipc_socket
  passive_ipc-Quiet world file flow_id =
      lift-Quiet world.ipc_file_usable _ (attempt-Quiet_then _ world.ipc_accepts _ refl (refl, tt))

  pub passive_setup-Quiet :
      (world : World) (o : Options) (flow_id : ℤ)
      → Quiet (Passive.setup_control json world o flow_id).0
  unfolding Passive.setup_control
  passive_setup-Quiet world o flow_id = elim (Bool-cases (length o.ipc_file == 0)) [
    | inl e ↦ rw e tt
    | inr e ↦ rw e (
        >>=-Quiet (Passive.setup_ipc_socket json world o.ipc_file flow_id) _
          (passive_ipc-Quiet world o.ipc_file flow_id)
          (λ done.
            >>=-Quiet (stoi {J = J} world o.interval) (λ i. lift (ok (some i))) tt (λ i. tt)))
  ]
