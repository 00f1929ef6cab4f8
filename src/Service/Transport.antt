-- ===== src/Service/Transport.antt =====
-- The two transports of the service, inference/udp_server.cc and inference/unix_socket_server.cc, on
-- one message.
use astraea_open_source.Prelude.{◌≡◌, Bool}
use astraea_open_source.Result.{Result}
use astraea_open_source.Json.{Json}
use astraea_open_source.Real.{Real}
use astraea_open_source.Inference.{Session}
use astraea_open_source.Service.{Server, Next, listening, closed, dropped, threw}
use astraea_open_source.Service.Udp
use astraea_open_source.Service.Session

-- A closed session is, for the UDP port, which has no sessions, one more message handled.
abbrev pub as_port : Next → Next
as_port closed = listening
as_port listening = listening
as_port dropped = dropped
as_port (threw e) = threw e

module _ {E J R : Type 0} (json : Json J R) (real : Real R) (session : Session R)
    (batch_mode : Bool) where
  abbrev pub Agree : Server E J R × Next → Server E J R × Next → Type 0
  Agree udp unix = (udp.0 ≡ unix.0) × (udp.1 ≡ as_port unix.1)
