-- ===== src/Socket/Tests.antt =====
-- Runs of net/socket.cc: a datagram that the kernel cuts, one that is too large, a name that is too
-- long, and an accepted socket of another type.
use astraea_open_source.Prelude.{◌≡◌, refl, [], ◌∷◌, true, some, pos, replicate}
use astraea_open_source.Result.{err, runtime_error, undefined}
use astraea_open_source.Socket.{of_fd, sendto, accept, adopt, strncpy, string_in}

sendto_cut :
    sendto (of_fd 5) (1 ∷ 2 ∷ 3 ∷ []) (some 2)
    ≡ (record { fd = 5; read_count = 0; write_count = 1 }, err runtime_error)
unfolding sendto
sendto_cut = refl

name_of_16 : string_in (strncpy 16 (replicate 16 97)) ≡ err undefined
unfolding strncpy string_in
name_of_16 = refl

name_of_2 : strncpy 4 (97 ∷ 98 ∷ []) ≡ 97 ∷ 98 ∷ 0 ∷ 0 ∷ []
unfolding strncpy
name_of_2 = refl

accept_other_type :
    accept (of_fd 5) (some (6, true)) (some (4, pos 2)) (some (4, pos 2))
    ≡ (record { fd = 5; read_count = 1; write_count = 0 }, err runtime_error)
unfolding accept adopt
accept_other_type = refl
