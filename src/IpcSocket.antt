-- ===== src/IpcSocket.antt =====
-- net/ipc_socket.cc and .hh: the Unix socket between a client and its controller. What `::write` does
-- is a list of attempts; the model keeps the bytes that the kernel took.
pub mod Writing
pub mod Server
pub mod Tests
use astraea_open_source.Prelude.{
  ℕ, ◌+◌, ◌<◌, ℤ, pos, negsuc, Bool, true, false, ◌||◌, ◌==◌, ltb, if◌then◌else◌, List, [], ◌∷◌,
  ◌++◌, Option, none, some, length, take, drop,
}
use astraea_open_source.Result.{Error, Result, ok, err, runtime_error, unix_error}

pub record IpcSocket : Type 0 where
  pub connected : Bool
  pub write_count : ℕ
  pub delivered : List ℕ

-- The values of `errno` that the code tells apart.
pub data Errno : Type 0 where
  clear epipe ebadf other : Errno

-- One `::write`: its result, and what `errno` holds afterwards. A call that succeeds leaves `errno`
-- as an earlier call set it.
pub record Attempt : Type 0 where
  pub result : ℤ
  pub errno : Errno

abbrev pub is_broken : Errno → Bool
is_broken epipe = true
is_broken ebadf = true
is_broken clear = false
is_broken other = false

-- `bytes_written <= 0 or errno == EPIPE or errno == EBADF`
abbrev pub failed : ℤ → Errno → Bool
failed (pos n) e = n == 0 || is_broken e
failed (negsuc n) e = true

abbrev pub gives_up : Attempt → Bool
gives_up a = failed a.result a.errno

-- What the kernel took in an attempt that offered it `rest`.
abbrev pub taken : ℤ → List ℕ → List ℕ
taken (pos n) rest = take n rest
taken (negsuc n) rest = []

-- What `write` returns: the bytes that are left from the iterator on; or it blocks in the kernel,
-- where no further attempt ends.
pub data Written : Type 0 where
  returns : IpcSocket → List ℕ → Written
  blocks : IpcSocket → Written

-- The loop of `write`, over what is left of the buffer.
unfoldable pub write_loop : IpcSocket → List ℕ → Bool → List Attempt → Written
write_loop s rest write_all [] = blocks s
write_loop s rest write_all (a ∷ later) =
    let bytes = taken a.result rest in
    let got = s.delivered ++ bytes in
    let left = drop (length bytes) rest in
    let going = record s { write_count = s.write_count + 1; delivered = got } in
    let again = write_loop going left write_all later in
    if gives_up a
    then returns (record s { connected = false; delivered = got }) rest
    else (if length left == 0
        then returns going left
        else (if write_all then again else returns going left))

-- `write`: nothing at all on a socket that is not connected.
unfoldable pub write : IpcSocket → List ℕ → Bool → List Attempt → Written
unfolding write_loop
write s buffer write_all attempts =
    if s.connected then write_loop s buffer write_all attempts else returns s buffer

-- `sizeof(sockaddr_un::sun_path)`
abbrev pub sun_path_size : ℕ
sun_path_size = 108

-- `create_sockaddr_un`
unfoldable pub create_sockaddr_un : List ℕ → Result (List ℕ)
create_sockaddr_un path = if ltb (length path) sun_path_size then ok path else err runtime_error

-- `connect`: `accepted` says whether the system call succeeds.
unfoldable pub connect : IpcSocket → List ℕ → Bool → IpcSocket × Result (Unit {0})
unfolding create_sockaddr_un
connect s path accepted = elim (create_sockaddr_un path) [
  | err e ↦ (s, err e)
  | ok address ↦ if accepted then (record s { connected = true }, ok tt) else (s, err unix_error)
]

unfoldable pub set_disconnected : IpcSocket → IpcSocket
set_disconnected s = record s { connected = false }
