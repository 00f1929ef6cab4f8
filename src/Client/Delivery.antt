-- ===== src/Client/Delivery.antt =====
-- The messages of the clients, received again.
use astraea_open_source.Prelude.{
  ℕ, ◌+◌, ◌*◌, ◌%◌, subst, ◌≢◌, ◌^◌, ◌<◌, ◌≡◌, refl, sym, ap, ◌∙◌, ◌==◌, ==_iff, if◌then◌else◌,
  List, [], ◌∷◌, ◌++◌, some, length, take, drop, take_all, arith, mod-eq_of_lt, Bool-cases, inl,
  inr, length-append, take-append_self, drop-append_self,
}
use astraea_open_source.Result.{Error, ok, err, runtime_error, ◌>>=◌}
use astraea_open_source.Wire.{put_field, get_uint16, frame}
use astraea_open_source.Wire.Framing.{get_uint16-put_field}
use astraea_open_source.Address.{Address, construct}
use astraea_open_source.Socket.{Socket, Datagram, recvfrom, register_read}
use astraea_open_source.Socket.Datagrams.{recvfrom-whole}
use astraea_open_source.FileDescriptor.{FileDescriptor, done, read_exactly}
use astraea_open_source.FileDescriptor.Reading.{IsLive, stream, read_exactly-Reads}
use astraea_open_source.Client.Unix.{unix_recv_message, body, announced_body}
use astraea_open_source.Client.Udp.{udp_recv_message}

accepted :
    (n m : ℕ) (text : List ℕ)
    → n ≡ length text
    → m ≡ length text + 2
    → (if n + 2 == m then ok (take n text) else err runtime_error) ≡ ok text
accepted n m text e f = rw ((==_iff (n + 2) m).1 (omega arith), take_all n text (omega arith)) refl

get_uint16_field : (n : ℕ) → n < 2 ^ 16 → get_uint16 (put_field n) ≡ some n
unfolding put_field
get_uint16_field n h = get_uint16-put_field n [] h

same_split : (a b x y : List ℕ) → length a ≡ length b → a ++ x ≡ b ++ y → (a ≡ b) × (x ≡ y)
same_split a b x y n e = (
  sym (take-append_self a x)
      ∙ ap (take (length a)) e
      ∙ ap (λ m. take m (b ++ y)) n
      ∙ take-append_self b y,
  sym (drop-append_self a x)
      ∙ ap (drop (length a)) e
      ∙ ap (λ m. drop m (b ++ y)) n
      ∙ drop-append_self b y,
)

-- A datagram that holds the frame of a text of fewer than 2 ^ 16 bytes is accepted, and gives the text.
pub udp_recv_message-frame :
    (text : List ℕ) → length text < 2 ^ 16 → udp_recv_message (frame text) ≡ ok text
unfolding udp_recv_message frame put_field get_uint16
udp_recv_message-frame text h = accepted _ _ text (omega arith) (omega arith)

length-frame : (text : List ℕ) → length (frame text) ≡ length text + 2
unfolding frame put_field
length-frame text = omega arith

-- A datagram from an address, with the frame of a text of at most 65534 bytes, is received whole by
-- `recvfrom`, counted as one read, and gives the text to the client.
pub recvfrom-frame :
    (s : Socket) (text bytes : List ℕ) (fromlen : ℕ) (source : Address)
    → length text < 65_535
    → construct bytes fromlen ≡ ok source
    → let received =
        recvfrom s (some (record { payload = frame text; source = bytes; fromlen = fromlen })) in
      (received.0 ≡ register_read s) × ((received.1 >>= λ got. udp_recv_message got.1) ≡ ok text)
recvfrom-frame s text bytes fromlen source h e =
    let d : Datagram = record { payload = frame text; source = bytes; fromlen = fromlen } in
    rw (recvfrom-whole s d source (omega (arith, length-frame text)) e)
      (refl, udp_recv_message-frame text (omega arith))

-- A datagram is accepted only whole: its text is two bytes shorter, and is all that follows them.
udp_recv_message-whole :
    (msg text : List ℕ)
    → udp_recv_message msg ≡ ok text
    → (length msg ≡ length text + 2) × (text ≡ drop 2 msg)
unfolding udp_recv_message
udp_recv_message-whole [] text h = absurd cc
udp_recv_message-whole (x ∷ []) text h = absurd cc
udp_recv_message-whole (hi ∷ lo ∷ rest) text h =
    elim (Bool-cases (hi * 256 + lo + 2 == length (hi ∷ lo ∷ rest))) [
      | inr off ↦ absurd (
          refused (
            subst (λ b. (if b then ok (take (hi * 256 + lo) rest) else err runtime_error) ≡ ok text)
              off h))
      | inl on ↦
          let size = (==_iff (hi * 256 + lo + 2) (length (hi ∷ lo ∷ rest))).0 on in
          let kept : take (hi * 256 + lo) rest ≡ text = ok-inj (
            subst (λ b. (if b then ok (take (hi * 256 + lo) rest) else err runtime_error) ≡ ok text)
              on h) in
          let whole = sym kept ∙ take_all (hi * 256 + lo) rest (omega arith) in
          (omega (arith, ap length whole), whole)
    ]
  where
    refused : {e : Error} → err e ≢ ok text
    refused e = cc

    ok-inj : {a : List ℕ} → ok a ≡ ok text → a ≡ text
    ok-inj e = cc

announced :
    (fd1 : FileDescriptor) (text : List ℕ)
    → length text < 2 ^ 16
    → body (done (put_field (length text % 2 ^ 16)) fd1) ≡ read_exactly fd1 (length text)
announced fd1 text small =
    ap (λ n. announced_body (get_uint16 (put_field n)) fd1) (mod-eq_of_lt small)
    ∙ ap (λ o. announced_body o fd1) (get_uint16_field (length text) small)

-- On a live descriptor whose next bytes are the frame of a text of fewer than 2 ^ 16 bytes,
-- `unix_recv_message` gives the text, however the kernel cuts the stream, and leaves what follows.
pub unix_recv_message-frame :
    (fd : FileDescriptor) (text rest : List ℕ)
    → IsLive fd
    → stream fd ≡ frame text ++ rest
    → length text < 2 ^ 16
    → (fd' : FileDescriptor) × (unix_recv_message fd ≡ done text fd')
      × (stream fd' ≡ rest)
      × IsLive fd'
unfolding unix_recv_message frame
unix_recv_message-frame fd text rest live next small =
    let (header, fd1, got, first) = read_exactly-Reads fd 2 live (omega (arith, ap length next)) in
    let (head, after) =
      same_split header (put_field (length text % 2 ^ 16)) (stream fd1) (text ++ rest) first.exact
        (first.whole ∙ next) in
    let (bytes, fd2, read_text, second) =
      read_exactly-Reads fd1 (length text) first.live
        (omega (arith, ap length after, length-append text rest)) in
    let (same, left) =
      same_split bytes text (stream fd2) rest second.exact (second.whole ∙ after) in
    (
      fd2,
      ap body got
          ∙ ap (λ h. body (done h fd1)) head
          ∙ announced fd1 text small
          ∙ read_text
          ∙ ap (λ t. done t fd2) same,
      left,
      second.live,
    )
