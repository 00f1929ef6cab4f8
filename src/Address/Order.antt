-- ===== src/Address/Order.antt =====
-- The comparisons of net/address.cc.
use astraea_open_source.Prelude.{
  ℕ, zero, suc, ◌-◌, ◌≤◌, ◌≡◌, ◌↔◌, refl, sym, ap, ◌∙◌, Bool, true, false, List, [], ◌∷◌, ◌++◌,
  length, take, drop, replicate, arith, le→ltb_false, take-append-drop, drop-append_self, drop-drop,
  length-take, length-append, length-replicate,
}
use mathlib.Core.Bool.{false≢true}
use astraea_open_source.Result.{ok}
use astraea_open_source.Address.{
  Address, storage_size, construct, Sign, below, same, above, memcmp, is_same, is_below, equals,
  less,
}

abbrev pub opposite : Sign → Sign
opposite below = above
opposite same = same
opposite above = below

memcmp_equal_head : (x : ℕ) (xs ys : List ℕ) → memcmp (x ∷ xs) (x ∷ ys) ≡ memcmp xs ys
unfolding memcmp
memcmp_equal_head x xs ys = ground arith

memcmp-flip : (xs ys : List ℕ) → memcmp ys xs ≡ opposite (memcmp xs ys)
unfolding memcmp
memcmp-flip [] [] = refl
memcmp-flip [] (y ∷ ys) = refl
memcmp-flip (x ∷ xs) [] = refl
memcmp-flip (x ∷ xs) (y ∷ ys) = ground (arith, memcmp-flip xs ys)

memcmp_refl : (xs : List ℕ) → memcmp xs xs ≡ same
unfolding memcmp
memcmp_refl [] = refl
memcmp_refl (x ∷ xs) = memcmp_equal_head x xs xs ∙ memcmp_refl xs

memcmp_same : (xs ys : List ℕ) → length xs ≡ length ys → memcmp xs ys ≡ same → xs ≡ ys
unfolding memcmp
memcmp_same [] [] h e = refl
memcmp_same [] (y ∷ ys) h e = absurd (omega arith)
memcmp_same (x ∷ xs) [] h e = absurd (omega arith)
memcmp_same (x ∷ xs) (y ∷ ys) h e = ground (arith, memcmp_same xs ys (omega arith))

memcmp_below :
    (xs ys zs : List ℕ)
    → length xs ≡ length ys
    → memcmp xs ys ≡ below
    → memcmp ys zs ≡ below
    → memcmp xs zs ≡ below
unfolding memcmp
memcmp_below [] ys zs h e e' = e
memcmp_below (x ∷ xs) [] zs h e e' = absurd (omega arith)
memcmp_below (x ∷ xs) (y ∷ ys) [] h e e' = e'
memcmp_below (x ∷ xs) (y ∷ ys) (z ∷ zs) h e e' = ground (arith, memcmp_below xs ys zs (omega arith))

abbrev pub zeros : ℕ → List ℕ
zeros n = replicate n 0

drop-zeros : (n m : ℕ) → drop n (zeros m) ≡ zeros (m - n)
drop-zeros zero m = let e : m ≡ m - 0 = omega arith in ap zeros e
drop-zeros (suc n) zero = let e : 0 ≡ 0 - suc n = omega arith in ap zeros e
drop-zeros (suc n) (suc m) =
    let e : m - n ≡ suc m - suc n = omega arith in drop-zeros n m ∙ ap zeros e

-- What the constructors make: bytes of the storage's size, with zeros behind those of the address.
pub record IsWellFormed (a : Address) : Type 0 where
  pub size_fits : a.size ≤ storage_size
  pub full : length a.addr ≡ storage_size
  pub padding : drop a.size a.addr ≡ zeros (storage_size - a.size)

pub construct-IsWellFormed :
    (bytes : List ℕ) (size : ℕ)
    → size ≤ storage_size
    → size ≤ length bytes
    → (a : Address) × (construct bytes size ≡ ok a) × (a.size ≡ size) × IsWellFormed a
unfolding construct
construct-IsWellFormed bytes size h h' =
    let copied : length (take size bytes) ≡ size = omega (arith, length-take size bytes) in
    let bytes' = take size bytes ++ zeros (storage_size - size) in
    rw (le→ltb_false storage_size size h) (
      record { size = size; addr = bytes' },
      refl,
      refl,
      record {
        size_fits = h;
        full = omega (
          arith,
          copied,
          length-append (take size bytes) (zeros (storage_size - size)),
          length-replicate {A = ℕ} (storage_size - size) 0,
        );
        padding =
            ap (λ (n : ℕ). drop n bytes') (sym copied)
            ∙ drop-append_self (take size bytes) (zeros (storage_size - size));
      },
    )

-- Behind the size of a longer address, the bytes of a shorter one are zeros too.
drop-padding :
    (a : Address) (n : ℕ)
    → IsWellFormed a
    → a.size ≤ n
    → n ≤ storage_size
    → drop n a.addr ≡ zeros (storage_size - n)
drop-padding a n w h h' =
    ap (λ (k : ℕ). drop k a.addr) (omega arith)
    ∙ sym (drop-drop a.size (n - a.size) a.addr)
    ∙ ap (drop (n - a.size)) w.padding
    ∙ drop-zeros (n - a.size) (storage_size - a.size)
    ∙ ap zeros (omega arith)

-- A sign that says whether two blocks of one length are the same.
is_same_iff : (xs ys : List ℕ) → length xs ≡ length ys → (is_same (memcmp xs ys) ≡ true) ↔ (xs ≡ ys)
is_same_iff xs ys h = (
  λ e. memcmp_same xs ys h (same_of (memcmp xs ys) e),
  λ e. ap (λ (l : List ℕ). is_same (memcmp xs l)) (sym e) ∙ ap is_same (memcmp_refl xs),
)
  where
    same_of : (s : Sign) → is_same s ≡ true → s ≡ same
    same_of same e = refl
    same_of below e = absurd (false≢true e)
    same_of above e = absurd (false≢true e)

-- An address of the same size or a smaller one is equal exactly if all its bytes are.
equals_iff :
    (a b : Address)
    → IsWellFormed a
    → IsWellFormed b
    → b.size ≤ a.size
    → (equals a b ≡ true) ↔ (a.addr ≡ b.addr)
unfolding equals
equals_iff a b v w h =
    let n = a.size in
    let cut : length (take n a.addr) ≡ length (take n b.addr) =
      omega (arith, length-take n a.addr, length-take n b.addr, v.full, w.full) in
    let tails =
      drop-padding a n v (omega arith) v.size_fits ∙ sym (drop-padding b n w h v.size_fits) in
    let heads = is_same_iff (take n a.addr) (take n b.addr) cut in
    (
      λ e.
          sym (take-append-drop n a.addr)
          ∙ ap (λ (l : List ℕ). l ++ drop n a.addr) (heads.0 e)
          ∙ ap (◌++◌ (take n b.addr)) tails
          ∙ take-append-drop n b.addr,
      λ e. heads.1 (ap (take n) e),
    )

-- Exactly one of the three tests is true.
abbrev pub OneOf : Bool → Bool → Bool → Type 0
OneOf true false false = Unit
OneOf false true false = Unit
OneOf false false true = Unit
OneOf true true c = ⊥
OneOf true false true = ⊥
OneOf false true true = ⊥
OneOf false false false = ⊥

OneOf-sign :
    (s : Sign) (eq : Bool)
    → (eq ≡ true) ↔ (is_same s ≡ true)
    → OneOf (is_below s) eq (is_below (opposite s))
OneOf-sign same true h = tt
OneOf-sign same false h = absurd (false≢true (h.1 refl))
OneOf-sign below true h = absurd (false≢true (h.0 refl))
OneOf-sign below false h = tt
OneOf-sign above true h = absurd (false≢true (h.0 refl))
OneOf-sign above false h = tt

-- On addresses of one size, exactly one of `a < b`, `a == b` and `b < a` holds.
pub compare-OneOf :
    (a b : Address)
    → IsWellFormed a
    → IsWellFormed b
    → a.size ≡ b.size
    → OneOf (less a b) (equals a b) (less b a)
unfolding less
compare-OneOf a b v w h =
    let found = equals_iff a b v w (omega arith) in
    let signs = is_same_iff a.addr b.addr (v.full ∙ sym w.full) in
    rw (memcmp-flip a.addr b.addr) (
      OneOf-sign (memcmp a.addr b.addr) (equals a b)
        (λ e. signs.1 (found.0 e), λ e. found.1 (signs.0 e)))
