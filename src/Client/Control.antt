-- ===== src/Client/Control.antt =====
-- A window on its way: computed by the inference service, carried in a datagram, set by the client.
use astraea_open_source.Prelude.{
  ℕ, ◌<◌, ◌≡◌, refl, ap, ◌∙◌, ℤ, true, false, List, [], ◌∷◌, Option, none, some, length, to_int32,
  ==ℤ_iff, arith, Bool-cases, inl, inr, pos,
}
use astraea_open_source.Result.{Result, ok, err}
use astraea_open_source.Address.{Address, construct}
use astraea_open_source.Socket.{Socket, Datagram, recvfrom}
use astraea_open_source.Socket.Datagrams.{recvfrom-whole}
use astraea_open_source.Wire.Framing.{length-frame}
use astraea_open_source.Wire.{frame}
use astraea_open_source.Json.{Json, JsonLaws, Key}
use astraea_open_source.Real.{Real}
use astraea_open_source.TcpInfo.{TcpInfo}
use astraea_open_source.Context.{map_action, convert}
use astraea_open_source.DeepCc.{
  DeepCc, get_tcp_deepcc_info_json, get_tcp_deepcc_info, touch, answer, set_tcp_cwnd,
}
use astraea_open_source.Service.{read_int, action_reply, response_bytes}
use astraea_open_source.Client.{Effect}
use astraea_open_source.Client.Unix.{parse_action, parsed_int}
use astraea_open_source.Client.Udp.{do_congestion_control, udp_send_message}
use astraea_open_source.Client.Delivery.{udp_recv_message-frame}

abbrev pub last : {A : Type 0} → List A → Option A
last [] = none
last (x ∷ []) = some x
last (x ∷ y ∷ rest) = last (y ∷ rest)

-- The payload that a `recvfrom` hands over.
abbrev pub payload_of : Result (Address × List ℕ) → Result (List ℕ)
payload_of (ok got) = ok got.1
payload_of (err e) = err e

module _ {R : Type 0} (real : Real R) where
  convert-fits : (o : Option ℤ) (w : ℤ) → convert real o ≡ ok w → to_int32 w ≡ w
  convert-fits none w h = absurd cc
  convert-fits (some n) w h = ground (arith, h, ==ℤ_iff (to_int32 n) n)

  map_action-fits : (action cwnd : R) (w : ℤ) → map_action real action cwnd ≡ ok w → to_int32 w ≡ w
  unfolding map_action
  map_action-fits action cwnd w h = elim (Bool-cases (real.ge action (real.of_int (pos 0)))) [
    | inl up ↦ convert-fits _ w (rw up at h)
    | inr down ↦ convert-fits _ w (rw down at h)
  ]

module _ {J R : Type 0} (json : Json J R) (real : Real R) (laws : JsonLaws json) where
  -- The reply that the service makes of a window.
  abbrev pub reply_of : ℤ → J → J
  reply_of w flow_id = json.put (json.put json.object Key.cwnd (json.of_int w)) Key.flow_id flow_id

  parse_action-reply :
      (w : ℤ) (flow_id : J)
      → laws.Printable flow_id
      → parse_action json real (json.dump (reply_of w flow_id)) ≡ ok (to_int32 w)
  unfolding parse_action read_int
  parse_action-reply w flow_id printable =
      let inner = json.put json.object Key.cwnd (json.of_int w) in
      let shown =
        laws.put-Printable inner Key.flow_id flow_id
          (laws.put-Printable json.object Key.cwnd (json.of_int w) laws.object-Printable
            (laws.of_int-Printable _))
          printable in
      ap (λ o. parsed_int json real o Key.cwnd) (laws.parse-dump (reply_of w flow_id) shown)
      ∙ rw (
        laws.at-put inner Key.flow_id Key.cwnd flow_id,
        laws.at-put json.object Key.cwnd Key.cwnd (json.of_int w),
        laws.to_int-of_int w,
      )

  response_bytes-reply :
      (message state flow_id : J) (action : R) (cwnd w : ℤ)
      → json.at message Key.state ≡ some state
      → read_int json real state Key.cwnd ≡ ok cwnd
      → json.at message Key.flow_id ≡ some flow_id
      → map_action real action (real.of_int cwnd) ≡ ok w
      → response_bytes json real message action [] ≡ ok (frame (json.dump (reply_of w flow_id)))
  unfolding response_bytes action_reply
  response_bytes-reply message state flow_id action cwnd w hs hc hf hw = rw (hs, hc, hf, hw)

  -- The service answers a report with a datagram, if the report has a state with a window and a
  -- flow whose id has a text, and the window made of the action is an `int`. If the answer's text has
  -- fewer than 65535 bytes and comes from an address, `sendto` takes the client's message whole, and
  -- the client's plugin is enabled, its kernel answers and takes the window, and it keeps no log,
  -- then `do_congestion_control`, with that datagram received by `recvfrom`, throws nothing, and its
  -- last call sets exactly the window that the service made of the action.
  pub do_congestion_control-sets :
      (message state flow_id : J) (action : R) (cwnd w : ℤ) (sock : DeepCc) (client_id : ℤ)
      (now : ℕ) (info : TcpInfo) (port : Socket) (bytes : List ℕ) (fromlen : ℕ) (source : Address)
      → json.at message Key.state ≡ some state
      → read_int json real state Key.cwnd ≡ ok cwnd
      → json.at message Key.flow_id ≡ some flow_id
      → map_action real action (real.of_int cwnd) ≡ ok w
      → laws.Printable flow_id
      → length (json.dump (reply_of w flow_id)) < 65_535
      → construct bytes fromlen ≡ ok source
      → sock.enabled ≡ true
      → (datagram : List ℕ) × (response_bytes json real message action [] ≡ ok datagram)
        × ((do_congestion_control json real sock client_id now
              (some info)
              (ok tt)
              (payload_of
                (recvfrom port
                  (some (record { payload = datagram; source = bytes; fromlen = fromlen }))).1)
              true
              false).1.1
            ≡ ok tt)
        × (last
              (do_congestion_control json real sock client_id now
                (some info)
                (ok tt)
                (payload_of
                  (recvfrom port
                    (some (record { payload = datagram; source = bytes; fromlen = fromlen }))).1)
                true
                false).1.0
            ≡ some (Effect.set_tcp_cwnd w))
  unfolding do_congestion_control udp_send_message get_tcp_deepcc_info_json get_tcp_deepcc_info
      touch answer set_tcp_cwnd
  do_congestion_control-sets message state flow_id action cwnd w sock client_id now info port bytes
        fromlen source hs hc hf hw printable small from on =
      let text = json.dump (reply_of w flow_id) in
      let d : Datagram = record { payload = frame text; source = bytes; fromlen = fromlen } in
      let got = recvfrom-whole port d source (omega (arith, length-frame text)) from in
      let read = udp_recv_message-frame text (omega arith) in
      let parsed =
        parse_action-reply w flow_id printable
        ∙ ap ok (map_action-fits real action (real.of_int cwnd) w hw) in
      (
        frame text,
        response_bytes-reply message state flow_id action cwnd w hs hc hf hw,
        rw (on, got, read, parsed) refl,
        rw (on, got, read, parsed) refl,
      )
