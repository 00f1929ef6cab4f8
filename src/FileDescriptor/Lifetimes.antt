-- ===== src/FileDescriptor/Lifetimes.antt =====
-- Who owns a number, over any life of the objects of net/file_descriptor.cc.
use astraea_open_source.Prelude.{
  ℕ, ◌≡◌, ◌≢◌, Bool, true, false, ◌==◌, ==_iff, Option, none, some, arith, leb, Bool-cases, ==_refl,
  Option-cases, inl, inr,
}
use astraea_open_source.FileDescriptor.Ownership.{
  Descriptors, update, construct, move, close, destroy,
}

abbrev pub start : Descriptors
start = record { fd = λ place. none; is_open = λ n. false }

-- What a program does with its objects, with calls of `close` that succeed or fail. The kernel gives
-- out numbers that are not open, and an object is made where there is none.
pub data Step (s t : Descriptors) : Type 0 where
  opens :
      (place n : ℕ) (cloexec : Bool)
      → s.is_open n ≡ false
      → s.fd place ≡ none
      → t ≡ (construct (record s { is_open = update s.is_open n true }) place n cloexec).0
      → Step s t
  moves : (to from : ℕ) → t ≡ move s to from → Step s t
  closes : (place : ℕ) (works : Bool) → t ≡ (close s place works).0 → Step s t
  destroys : (place : ℕ) (works : Bool) → t ≡ destroy s place works → Step s t

pub data Reach (s : Descriptors) : Descriptors → Type 0 where
  here : Reach s s
  next : {t u : Descriptors} → Reach s t → Step t u → Reach s u

-- The step is not an explicit `close` that fails.
abbrev pub ClosesWork : {s t : Descriptors} → Step s t → Type 0
ClosesWork (opens place n cloexec fresh empty e) = Unit
ClosesWork (moves to from e) = Unit
ClosesWork (closes place works e) = works ≡ true
ClosesWork (destroys place works e) = Unit

abbrev pub AllClosesWork : {s t : Descriptors} → Reach s t → Type 0
AllClosesWork here = Unit
AllClosesWork (next r st) = AllClosesWork r × ClosesWork st

pub record Inv (s : Descriptors) : Type 0 where
  pub unique : (i j n : ℕ) → s.fd i ≡ some n → s.fd j ≡ some n → i ≡ j
  pub live : (i n : ℕ) → s.fd i ≡ some n → s.is_open n ≡ true

-- An owner among the others, once a place is emptied.
update-none-some :
    (f : ℕ → Option ℕ) (k j n : ℕ)
    → update f k none j ≡ some n
    → (f j ≡ some n) × ((k == j) ≡ false)
update-none-some f k j n h = ground arith

opened-Inv :
    (s : Descriptors) (n : ℕ) → Inv s → Inv (record s { is_open = update s.is_open n true })
opened-Inv s n v = record { unique = v.unique; live = λ i m p. ground (arith, v.live i m p) }

made-Inv :
    (s : Descriptors) (place n : ℕ)
    → s.is_open n ≡ false
    → Inv s
    → Inv (record { fd = update s.fd place (some n); is_open = update s.is_open n true })
made-Inv s place n fresh v = record {
  unique = λ i j m p q.
      ground (
        arith,
        fresh,
        p,
        q,
        v.unique i j m,
        v.live i m,
        v.live j m,
        ==_iff place i,
        ==_iff place j,
      );
  live = λ i m p. ground (arith, p, v.live i m, ==_iff n m);
}

construct-Inv :
    (s : Descriptors) (place n : ℕ) (cloexec : Bool)
    → s.is_open n ≡ false
    → s.fd place ≡ none
    → Inv s
    → Inv (construct (record s { is_open = update s.is_open n true }) place n cloexec).0
unfolding construct
construct-Inv s place n cloexec fresh empty v = elim (Bool-cases (leb n 2)) [
  | inl e ↦ rw e (opened-Inv s n v)
  | inr e ↦ rw e (elim (Bool-cases cloexec) [
    | inl c ↦ rw c (made-Inv s place n fresh v)
    | inr c ↦ rw c (opened-Inv s n v)
  ])
]

move-Inv : (s : Descriptors) (to from : ℕ) → Inv s → Inv (move s to from)
unfolding move
move-Inv s to from v = record {
  unique = λ i j m p q.
      let (p', pi) = update-none-some (update s.fd to (s.fd from)) from i m p in
      let (q', qj) = update-none-some (update s.fd to (s.fd from)) from j m q in
      ground (
        arith,
        v.unique i j m,
        v.unique from j m,
        v.unique i from m,
        v.unique from from m,
        p',
        pi,
        q',
        qj,
        ==_iff to i,
        ==_iff to j,
        ==_iff from i,
        ==_iff from j,
      );
  live = λ i m p.
      let (p', pi) = update-none-some (update s.fd to (s.fd from)) from i m p in
      ground (arith, p', v.live i m, v.live from m);
}

close_number-Inv :
    (s : Descriptors) (place n : ℕ)
    → s.fd place ≡ some n
    → Inv s
    → Inv (record { fd = update s.fd place none; is_open = update s.is_open n false })
close_number-Inv s place n owns v = record {
  unique = λ i j m p q.
      v.unique i j m (update-none-some s.fd place i m p).0 (update-none-some s.fd place j m q).0;
  live = λ i m p.
      let (p', other) = update-none-some s.fd place i m p in
      ground (arith, v.live i m, v.unique place i n, p', other, ==_iff n m, ==_iff place i);
}

close-Inv : (s : Descriptors) (place : ℕ) → Inv s → Inv (close s place true).0
unfolding close
close-Inv s place v = elim (Option-cases (s.fd place)) [
  | inl e ↦ rw e v
  | inr (n, e) ↦ rw e (close_number-Inv s place n e v)
]

destroy-Inv : (s : Descriptors) (place : ℕ) (works : Bool) → Inv s → Inv (destroy s place works)
unfolding destroy close
destroy-Inv s place works v = elim (Option-cases (s.fd place)) [
  | inl e ↦ rw e (record {
    unique = λ i j m p q.
        v.unique i j m (update-none-some s.fd place i m p).0 (update-none-some s.fd place j m q).0;
    live = λ i m p. v.live i m (update-none-some s.fd place i m p).0;
  })
  | inr (n, e) ↦ rw e (elim (Bool-cases works) [
    | inl w ↦ rw w (close_number-Inv s place n e v)
    | inr w ↦ rw w (close_number-Inv s place n e v)
  ])
]

Step-Inv : (s t : Descriptors) (st : Step s t) → ClosesWork st → Inv s → Inv t
Step-Inv s t (opens place n cloexec fresh empty e) h v =
    rw e (construct-Inv s place n cloexec fresh empty v)
Step-Inv s t (moves to from e) h v = rw e (move-Inv s to from v)
Step-Inv s t (closes place works e) h v = rw (e, h) (close-Inv s place v)
Step-Inv s t (destroys place works e) h v = rw e (destroy-Inv s place works v)

Reach-Inv : (s t : Descriptors) (r : Reach s t) → AllClosesWork r → Inv s → Inv t
Reach-Inv s t here h v = v
Reach-Inv s t (next {t = u} r st) h v = Step-Inv u t st h.1 (Reach-Inv s u r h.0 v)

-- From a start without objects, through any openings, moves, assignments, destructions and explicit
-- closings, where no explicit closing fails: a number that an object owns is open, and no other object
-- owns it.
pub Reach-owner :
    (t : Descriptors) (i n : ℕ) (r : Reach start t)
    → AllClosesWork r
    → t.fd i ≡ some n
    → (t.is_open n ≡ true) × ((j : ℕ) → t.fd j ≡ some n → j ≡ i)
Reach-owner t i n r works owns =
    let v =
      Reach-Inv start t r works
        (record { unique = λ i j m p q. absurd cc; live = λ i m p. absurd cc }) in
    (v.live i n owns, λ j q. v.unique j i n q owns)

-- In such a state, an assignment to another object that owns a number leaves the number open, and no
-- object owns it any more.
move_leaks :
    (t : Descriptors) (to from n : ℕ) (r : Reach start t)
    → AllClosesWork r
    → t.fd to ≡ some n
    → from ≢ to
    → ((move t to from).is_open n ≡ true) × ((j : ℕ) → (move t to from).fd j ≢ some n)
unfolding move
move_leaks t to from n r works owns other =
    let (alive, only) = Reach-owner t to n r works owns in
    (
      alive,
      λ j q.
          let (q', away) = update-none-some (update t.fd to (t.fd from)) from j n q in
          ground (arith, q', away, only j, only from, other, ==_iff to j),
    )

-- An explicit `close` that fails leaves the object with a number that is not open, which its destructor
-- closes again: by then it may be the number of another object.
close_fails :
    (s : Descriptors) (place n : ℕ)
    → s.fd place ≡ some n
    → ((close s place false).0.fd place ≡ some n) × ((close s place false).0.is_open n ≡ false)
unfolding close
close_fails s place n e = rw e (e, ground (arith, ==_refl n))
