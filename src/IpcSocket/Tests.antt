-- ===== src/IpcSocket/Tests.antt =====
-- The theorems on net/ipc_socket.cc, on a message of three bytes.
use astraea_open_source.Prelude.{ℕ, ◌≡◌, refl, pos, true, List, [], ◌∷◌, arith}
use astraea_open_source.IpcSocket.{IpcSocket, Attempt, clear, other, write, returns}
use astraea_open_source.IpcSocket.Writing.{NoneFails, write_whole}

abbrev open_socket : IpcSocket
open_socket = record { connected = true; write_count = 0; delivered = 9 ∷ [] }

abbrev message : List ℕ
message = 1 ∷ 2 ∷ 3 ∷ []

abbrev in_parts : List Attempt
in_parts =
    record { result = pos 2; errno = other }
    ∷ record { result = pos 1; errno = clear }
    ∷ record { result = pos 1; errno = clear }
    ∷ []

write_whole_example :
    (s' : IpcSocket) × (write open_socket message true in_parts ≡ returns s' [])
    × (s'.connected ≡ true)
    × (s'.delivered ≡ 9 ∷ 1 ∷ 2 ∷ 3 ∷ [])
unfolding NoneFails
write_whole_example =
    write_whole open_socket 1 (2 ∷ 3 ∷ []) in_parts refl (refl, (refl, (refl, tt))) (omega arith)
