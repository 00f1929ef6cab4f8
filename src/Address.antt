-- ===== src/Address.antt =====
-- net/address.cc: addresses as bytes, and their order. What `getaddrinfo`, `getnameinfo` and `strtol`
-- answer, and `to_string`, are parameters.
pub mod Order
pub mod Tests
use astraea_open_source.Prelude.{
  ℕ, ◌+◌, ◌-◌, ◌*◌, ◌%◌, ◌^◌, Bool, true, false, not, ◌==◌, ltb, if◌then◌else◌, List, [], ◌∷◌, ◌++◌,
  Option, none, some, length, take, replicate, ℤ, to_uint64,
}
use astraea_open_source.Result.{Result, ok, err, runtime_error, unix_error, gai_error, ◌>>=◌}

-- `sizeof(addr_)`, that of a `sockaddr_storage`
abbrev pub storage_size : ℕ
storage_size = 128

-- The bytes of `addr_` are 0 where none was copied.
pub record Address : Type 0 where
  pub size : ℕ
  pub addr : List ℕ

-- `Address(const sockaddr & addr, const size_t size)`, from the bytes at `addr`, and so for a `raw`.
unfoldable pub construct : List ℕ → ℕ → Result Address
construct bytes size =
    if ltb storage_size size
    then err runtime_error
    else ok (record { size = size; addr = take size bytes ++ replicate (storage_size - size) 0 })

-- What `getaddrinfo` finds: the bytes of the first entry and its `ai_addrlen`, or no entry.
pub data Lookup : Type 0 where
  fails no_entry : Lookup
  finds : List ℕ → ℕ → Lookup

-- The private constructor, from the answer of `getaddrinfo`.
unfoldable pub resolve : Lookup → Result Address
unfolding construct
resolve fails = err gai_error
resolve no_entry = err runtime_error
resolve (finds bytes size) = construct bytes size

-- The hints: the family is `AF_INET` in both; whether the names are numbers.
abbrev pub LookUp : Type 0
LookUp = List ℕ → List ℕ → Bool → Lookup

module _ (getaddrinfo : LookUp) (to_string : ℕ → List ℕ) where
  -- By a host's name and a service's
  abbrev pub of_names : List ℕ → List ℕ → Result Address
  unfolding resolve
  of_names hostname service = resolve (getaddrinfo hostname service false)

  -- By a numerical address and a port
  unfoldable pub of_numbers : List ℕ → ℕ → Result Address
  unfolding resolve
  of_numbers ip port = resolve (getaddrinfo ip (to_string port) true)

  -- `Address()`
  abbrev pub nowhere : Result Address
  unfolding of_numbers
  nowhere = of_numbers (48 ∷ []) 0

  -- `Address::cgnat`, behind "100.64.0."
  abbrev pub cgnat : ℕ → Result Address
  unfolding of_numbers
  cgnat last_octet =
      of_numbers (49 ∷ 48 ∷ 48 ∷ 46 ∷ 54 ∷ 52 ∷ 46 ∷ 48 ∷ 46 ∷ [] ++ to_string last_octet) 0

-- What `strtol` answers: the number, how many characters it took, and whether `errno` is 0.
pub record Number : Type 0 where
  pub value : ℤ
  pub taken : ℕ
  pub no_errno : Bool

-- `myatoi`
unfoldable pub myatoi : (List ℕ → Number) → List ℕ → Result ℤ
myatoi strtol [] = err runtime_error
myatoi strtol (d ∷ str) =
    let ret = strtol (d ∷ str) in
    if not ret.no_errno
    then err unix_error
    else (if ret.taken == length (d ∷ str) then ok ret.value else err runtime_error)

module _ (getnameinfo : Address → Option (List ℕ × List ℕ)) (strtol : List ℕ → Number) where
  -- The port becomes a `uint16_t`.
  unfoldable pub ip_port : Address → Result (List ℕ × ℕ)
  unfolding myatoi to_uint64
  ip_port a = elim (getnameinfo a) [
    | none ↦ err gai_error
    | some names ↦ myatoi strtol names.1 >>= λ port. ok (names.0, to_uint64 port % 2 ^ 16)
  ]

  abbrev pub str : (ℕ → List ℕ) → List ℕ → Address → Result (List ℕ)
  unfolding ip_port
  str to_string separator a = ip_port a >>= λ names. ok (names.0 ++ separator ++ to_string names.1)

-- The sign of `memcmp`
pub data Sign : Type 0 where
  below same above : Sign

-- `memcmp` of two blocks of one length
unfoldable pub memcmp : List ℕ → List ℕ → Sign
memcmp [] ys = same
memcmp (x ∷ xs) [] = same
memcmp (x ∷ xs) (y ∷ ys) =
    let rest = memcmp xs ys in if ltb x y then below else (if ltb y x then above else rest)

abbrev pub is_same : Sign → Bool
is_same below = false
is_same same = true
is_same above = false

abbrev pub is_below : Sign → Bool
is_below below = true
is_below same = false
is_below above = false

-- `operator==`, which compares as many bytes as the left address has
unfoldable pub equals : Address → Address → Bool
unfolding memcmp
equals a b = is_same (memcmp (take a.size a.addr) (take a.size b.addr))

-- `operator<`, which compares all the bytes
unfoldable pub less : Address → Address → Bool
unfolding memcmp
less a b = is_below (memcmp a.addr b.addr)
