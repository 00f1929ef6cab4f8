-- ===== src/IpcSocket/Server.antt =====
-- net/ipc_socket.cc, the other operations: made, moved, bound, listening and accepted sockets. What a
-- system call answers is an argument.
use astraea_open_source.Prelude.{
  ℕ, ◌+◌, ◌%◌, ◌^◌, ℤ, pos, minus_one, ◌==ℤ◌, Bool, true, false, not, if◌then◌else◌, List, [], ◌∷◌,
  append-nil, Option, ◌≡◌, refl,
}
use astraea_open_source.Result.{
  Result, ok, err, runtime_error, unix_error, or_throw, throw_unless, ◌>>=◌, ◌>>◌,
}
use astraea_open_source.Socket.{Made, descriptor, SockOpt, verify, sock_stream}
use astraea_open_source.FileDescriptor.Blocking.{has_nonblock}
use astraea_open_source.IpcSocket.{
  IpcSocket, Attempt, write, write_loop, returns, create_sockaddr_un,
}

abbrev pub fresh : Bool → IpcSocket
fresh connected = record { connected = connected; write_count = 0; delivered = [] }

-- `IPCSocket()`
abbrev pub create : Made → Result IpcSocket
create made = descriptor made >>= λ fd. ok (fresh false)

abbrev pub af_unix : ℤ
af_unix = pos 1

-- `IPCSocket(fd, domain, type)`
abbrev pub adopt : Made → ℤ → ℤ → SockOpt → SockOpt → Result IpcSocket
adopt made domain type domain_is type_is =
    descriptor made >>= λ fd. verify domain domain_is >> verify type type_is >> ok (fresh true)

-- The move constructor, with the number that the move of the descriptor leaves in `other`
abbrev pub move : IpcSocket → ℤ → Result IpcSocket
move other left = if left ==ℤ minus_one then ok other else err runtime_error

-- `bind`
unfoldable pub bind : List ℕ → Bool → Result (List ℕ)
unfolding create_sockaddr_un
bind path works = create_sockaddr_un path >>= λ address. throw_unless works unix_error >> ok address

-- `listen`, and `set_reuseaddr`
abbrev pub listen : Bool → Result (Unit {0})
listen works = throw_unless works unix_error

-- `accept`: the reads that the listening socket counts, and the new socket
unfoldable pub accept : ℕ → Made → SockOpt → SockOpt → ℕ × Result IpcSocket
accept read_count accepted domain_is type_is =
    ((read_count + 1) % 2 ^ 32, adopt accepted af_unix sock_stream domain_is type_is)

-- `check_blocking`, from the flags of `fcntl`
abbrev pub check_blocking : Option ℕ → Result Bool
check_blocking flags = or_throw unix_error flags >>= λ val. ok (not (has_nonblock val))

-- To write nothing disconnects the socket: `::write` of no byte returns 0, which is taken for a
-- failure.
write-disconnects :
    (s : IpcSocket) (write_all : Bool) (a : Attempt) (later : List Attempt)
    → s.connected ≡ true
    → a.result ≡ pos 0
    → write s [] write_all (a ∷ later) ≡ returns (record s { connected = false }) []
unfolding write write_loop
write-disconnects s write_all a later h e = simp (h, e, append-nil s.delivered) refl
