-- ===== src/FileDescriptor/Ownership.antt =====
-- The objects of net/file_descriptor.cc and the numbers they own: construction, moves, `close` and the
-- destructor. An object is a place; `none` in it stands for the number -1.
use astraea_open_source.Prelude.{ℕ, Bool, false, ◌==◌, leb, if◌then◌else◌, Option, none, some}
use astraea_open_source.Result.{Result, ok, err, unix_error}

pub record Descriptors : Type 0 where
  pub fd : ℕ → Option ℕ
  pub is_open : ℕ → Bool

abbrev pub update {ℓ} : {A : Type ℓ} → (ℕ → A) → ℕ → A → ℕ → A
update f k v j = if k == j then v else f j

-- `FileDescriptor(fd)`, where `cloexec` says whether the call of `fcntl` succeeds. A constructor that
-- throws makes no object, and leaves the number open.
unfoldable pub construct : Descriptors → ℕ → ℕ → Bool → Descriptors × Result (Unit {0})
construct s place n cloexec =
    if leb n 2
    then (s, err unix_error)
    else (if cloexec
        then (record s { fd = update s.fd place (some n) }, ok tt)
        else (s, err unix_error))

-- `FileDescriptor(FileDescriptor&&)` and `operator=`: the same assignments, of which the second finds
-- an object where the first makes one.
unfoldable pub move : Descriptors → ℕ → ℕ → Descriptors
move s to from = record s { fd = update (update s.fd to (s.fd from)) from none }

-- The number is no longer open, whether or not `::close` succeeds.
abbrev pub close_number : Descriptors → ℕ → Option ℕ → Bool → Descriptors × Result (Unit {0})
close_number s place none closes = (s, ok tt)
close_number s place (some n) closes =
    let shut = record s { is_open = update s.is_open n false } in
    if closes then (record shut { fd = update s.fd place none }, ok tt) else (shut, err unix_error)

-- `close`
unfoldable pub close : Descriptors → ℕ → Bool → Descriptors × Result (Unit {0})
close s place closes = close_number s place (s.fd place) closes

-- `~FileDescriptor`: the exception of `close` is printed, and the object is gone.
unfoldable pub destroy : Descriptors → ℕ → Bool → Descriptors
unfolding close
destroy s place closes = record ((close s place closes).0) { fd = update s.fd place none }
