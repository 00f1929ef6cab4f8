-- ===== src/Socket/Datagrams.antt =====
-- The names of congestion controls in net/socket.name, and the datagrams that it counts.
use astraea_open_source.Prelude.{
  ℕ, zero, suc, ◌≤◌, ◌<◌, ◌≡◌, ◌≢◌, ◌↔◌, refl, List, [], ◌∷◌, length, All, arith, some, ltb,
  take_all, Bool-cases, inl, inr, ltb→lt, ltb_false→le, le→ltb_false, sym, ◌∙◌,
}
use astraea_open_source.Result.{ok, err, undefined}
use astraea_open_source.Address.{Address, construct}
use astraea_open_source.Socket.{
  Socket, strncpy, string_in, recvfrom, receive_mtu, register_read, Datagram,
}

string_in_short :
    (n : ℕ) (name : List ℕ)
    → All (λ c. 0 < c) name
    → length name < n
    → string_in (strncpy n name) ≡ ok name
unfolding strncpy string_in
string_in_short zero name all h = absurd (omega arith)
string_in_short (suc n) [] all h = refl
string_in_short (suc n) (c ∷ name) all h =
    ground (arith, all.0, string_in_short n name all.1 (omega arith))

string_in_long :
    (n : ℕ) (name : List ℕ)
    → All (λ c. 0 < c) name
    → n ≤ length name
    → string_in (strncpy n name) ≡ err undefined
unfolding strncpy string_in
string_in_long zero name all h = refl
string_in_long (suc n) [] all h = absurd (omega arith)
string_in_long (suc n) (c ∷ name) all h =
    ground (arith, all.0, string_in_long n name all.1 (omega arith))

ok_ne : {l : List ℕ} → ok l ≢ err undefined
ok_ne e = cc

-- A name without zeros, cut to the `n` characters of the buffer, is read back from it exactly if it
-- leaves room for its zero: of `n` characters or more, the buffer has no zero, and reading it runs past
-- its end.
string_in-strncpy_iff :
    (n : ℕ) (name : List ℕ)
    → All (λ c. 0 < c) name
    → (string_in (strncpy n name) ≡ ok name) ↔ (length name < n)
string_in-strncpy_iff n name all = (
  λ e. elim (Bool-cases (ltb (length name) n)) [
    | inl short ↦ ltb→lt _ _ short
    | inr long ↦ absurd (ok_ne (sym e ∙ string_in_long n name all (ltb_false→le _ _ long)))
  ],
  string_in_short n name all,
)

-- A datagram that fits into the buffer is received whole, and counted.
pub recvfrom-whole :
    (s : Socket) (d : Datagram) (source : Address)
    → length d.payload ≤ receive_mtu
    → construct d.source d.fromlen ≡ ok source
    → recvfrom s (some d) ≡ (register_read s, ok (source, d.payload))
unfolding recvfrom
recvfrom-whole s d source h e =
    rw
      (
        le→ltb_false receive_mtu (length d.payload) h,
        e,
        take_all receive_mtu d.payload h,
        take_all (length d.payload) d.payload (omega arith),
      )
      refl
