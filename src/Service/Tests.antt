-- ===== src/Service/Tests.antt =====
-- The theorems on inference/udp_server.cc and inference/unix_socket_server.cc, on a server with one
-- flow and the messages of its client.
use astraea_open_source.Prelude.{
  ℕ, ◌≡◌, ◌≢◌, ◌↔◌, refl, ℤ, pos, true, false, List, [], ◌∷◌, some, arith,
}
use astraea_open_source.Wire.{get_uint16}
use astraea_open_source.Json.{Key}
use astraea_open_source.Json.Tokens.{Tree, tree_json}
use astraea_open_source.Real.Thousandths.{thousandths}
use astraea_open_source.Context.{create}
use astraea_open_source.Inference.{Session}
use astraea_open_source.Service.{Server, start, dropped}
use astraea_open_source.Service.Udp
use astraea_open_source.Service.Session
use astraea_open_source.Service.Registry.{
  known, registry_after, dispatch-known, handle_receive_drops_iff,
}

-- A network that answers every request with 1/2.
abbrev half : List (List ℤ) → List ℤ
half [] = []
half (row ∷ rows) = pos 500 ∷ half rows

abbrev network : Session ℤ
network rows = some (half rows)

abbrev server : Server ℕ Tree ℤ
server = record {
  contexts = (pos 7, create tree_json thousandths (pos 7)) ∷ [];
  inference = record { queue = []; callbacks = []; keep_running = true; sent = [] };
}

-- `{"type": 1, "flow_id": 7}`
abbrev hello : Tree
hello =
    tree_json.put (tree_json.put tree_json.object Key.type (tree_json.of_int (pos 1))) Key.flow_id
      (tree_json.of_int (pos 7))

abbrev hello_text : List ℕ
hello_text = 6 ∷ 24 ∷ 1 ∷ 7 ∷ 0 ∷ []

dispatch-known_example :
    known tree_json thousandths network false
      (Udp.dispatch tree_json thousandths network false server start
        (pos 7)
        (record { peer = 1; message = hello })
        (pos 42)).0
      (pos 42)
    ≡ registry_after start
        (pos 7)
        (pos 42)
        (known tree_json thousandths network false server)
        (pos 42)
dispatch-known_example =
    dispatch-known tree_json thousandths network false server start (pos 7) (pos 42)
      (record { peer = 1; message = hello }) (pos 42)

handle_receive_drops_iff_example :
    ((Udp.handle_receive tree_json thousandths network false server false 1
        (0 ∷ 9 ∷ hello_text)
        7
        (pos 42)).1
      ≡ dropped)
    ↔ (◌≢◌ {A = ℕ} 9 5)
unfolding get_uint16
handle_receive_drops_iff_example =
    handle_receive_drops_iff tree_json thousandths network false server 1 (0 ∷ 9 ∷ hello_text) 7 9
      (pos 42) (omega arith) (omega arith) refl
