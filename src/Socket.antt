-- ===== src/Socket.antt =====
-- net/socket.cc: sockets over UDP and TCP. What each system call answers is an argument; `none` is a
-- call that fails.
pub mod Datagrams
pub mod Tests
use astraea_open_source.Prelude.{
  ℕ, zero, suc, ◌+◌, ◌-◌, ◌%◌, ◌^◌, Bool, true, false, ◌&&◌, ◌==◌, ltb, if◌then◌else◌, List, [],
  ◌∷◌, ◌++◌, Option, none, some, length, take, replicate, ℤ, pos, ◌==ℤ◌,
}
use astraea_open_source.Result.{
  Result, ok, err, runtime_error, unix_error, undefined, or_throw, throw_unless, ◌>>=◌, ◌>>◌,
}
use astraea_open_source.Address.{Address, construct}

-- What the base class counts, in an `unsigned int` each.
pub record Socket : Type 0 where
  pub fd : ℕ
  pub read_count : ℕ
  pub write_count : ℕ

abbrev pub of_fd : ℕ → Socket
of_fd fd = record { fd = fd; read_count = 0; write_count = 0 }

-- What a call answers that makes a descriptor: its number, and whether `fcntl` sets its flag then.
abbrev pub Made : Type 0
Made = Option (ℕ × Bool)

-- `FileDescriptor(SystemCall(…))`, which refuses the numbers of the standard streams
abbrev pub descriptor : Made → Result Socket
descriptor made = or_throw unix_error made >>= λ fd.
    throw_unless (ltb 2 fd.0 && fd.1) unix_error >> ok (of_fd fd.0)

abbrev pub register_read : Socket → Socket
register_read s = record s { read_count = (s.read_count + 1) % 2 ^ 32 }

abbrev pub register_write : Socket → Socket
register_write s = record s { write_count = (s.write_count + 1) % 2 ^ 32 }

-- `Socket(domain, type)`, from the answer of `socket`
abbrev pub create : Made → Result Socket
create made = descriptor made

-- `getsockopt` into an `int`: the length and the value that the kernel leaves.
abbrev pub SockOpt : Type 0
SockOpt = Option (ℕ × ℤ)

abbrev pub int_size : ℕ
int_size = 4

-- One of the two checks of a descriptor
abbrev pub verify : ℤ → SockOpt → Result (Unit {0})
verify wanted answer = or_throw unix_error answer >>= λ got.
    throw_unless ((got.0 == int_size) && (got.1 ==ℤ wanted)) runtime_error

-- `Socket(fd, domain, type)`
unfoldable pub adopt : Socket → ℤ → ℤ → SockOpt → SockOpt → Result Socket
adopt fd domain type domain_is type_is = verify domain domain_is >> verify type type_is >> ok fd

-- `get_address`: what `getsockname` or `getpeername` leaves, the bytes and their number
unfoldable pub get_address : Option (List ℕ × ℕ) → Result Address
unfolding construct
get_address answer = or_throw unix_error answer >>= λ found. construct found.0 found.1

-- `bind`, `connect`, `listen` and the options of `setsockopt` throw if the call fails.
abbrev pub system_call : Bool → Result (Unit {0})
system_call works = throw_unless works unix_error

-- `UDPSocket::sendto` and `UDPSocket::send`, from the number of bytes that the kernel took
unfoldable pub sendto : Socket → List ℕ → Option ℕ → Socket × Result (Unit {0})
sendto s payload none = (s, err unix_error)
sendto s payload (some bytes_sent) =
    (register_write s, throw_unless (bytes_sent == length payload) runtime_error)

abbrev pub receive_mtu : ℕ
receive_mtu = 65_536

-- A datagram that `recvfrom` answers: its bytes, and its source. With `MSG_TRUNC` the call returns the
-- length of the whole datagram, of which the buffer holds the first bytes.
pub record Datagram : Type 0 where
  pub payload : List ℕ
  pub source : List ℕ
  pub fromlen : ℕ

-- `UDPSocket::recvfrom`
unfoldable pub recvfrom : Socket → Option Datagram → Socket × Result (Address × List ℕ)
unfolding construct
recvfrom s none = (s, err unix_error)
recvfrom s (some d) =
    let recv_len = length d.payload in
    let buffer = take receive_mtu d.payload in
    if ltb receive_mtu recv_len then (s, err runtime_error) else (
      register_read s,
      construct d.source d.fromlen >>= λ source. ok (source, take recv_len buffer),
    )

abbrev pub af_inet : ℤ
af_inet = pos 2

abbrev pub sock_stream : ℤ
sock_stream = pos 1

-- `TCPSocket::accept`: the read is counted before the call.
unfoldable pub accept : Socket → Made → SockOpt → SockOpt → Socket × Result Socket
unfolding adopt
accept s accepted domain_is type_is =
    (register_read s, descriptor accepted >>= λ fd. adopt fd af_inet sock_stream domain_is type_is)

-- `original_dest`
abbrev pub original_dest : Option (List ℕ × ℕ) → Result Address
unfolding get_address
original_dest answer = get_address answer

abbrev pub tcp_cc_name_max : ℕ
tcp_cc_name_max = 16

-- `strncpy` into a buffer of `n` characters: up to the zero, then zeros.
unfoldable pub strncpy : ℕ → List ℕ → List ℕ
strncpy zero cc = []
strncpy (suc n) [] = 0 ∷ strncpy n []
strncpy (suc n) (c ∷ cc) = let rest = strncpy n cc in if c == 0 then 0 ∷ replicate n 0 else c ∷ rest

-- `set_congestion_control`: what is handed to the kernel, and whether it takes it
unfoldable pub set_congestion_control : List ℕ → (List ℕ → Bool) → Result (Unit {0})
unfolding strncpy
set_congestion_control cc takes = throw_unless (takes (strncpy tcp_cc_name_max cc)) runtime_error

-- The string in a buffer, which must have its zero there.
unfoldable pub string_in : List ℕ → Result (List ℕ)
string_in [] = err undefined
string_in (c ∷ buffer) =
    let rest = string_in buffer in if c == 0 then ok [] else rest >>= λ cs. ok (c ∷ cs)

-- `get_congestion_control`
abbrev pub get_congestion_control : Option (List ℕ) → Result (List ℕ)
unfolding string_in
get_congestion_control answer = or_throw unix_error answer >>= string_in
