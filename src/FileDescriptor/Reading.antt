-- ===== src/FileDescriptor/Reading.antt =====
-- `read_exactly` gives the bytes of the stream, however the kernel cuts them.
use astraea_open_source.Prelude.{
  ℕ, zero, suc, ◌+◌, ◌-◌, ◌≤◌, ◌<◌, ◌≡◌, refl, sym, ap, ◌∙◌, List, [], ◌∷◌, ◌++◌, true, false,
  length, arith, All, ltb, min, take, drop, take-append-drop, length-take, length-drop,
  length-append, append_assoc, inl, inr, List-cases, Bool-cases, lt→ltb, ltb→lt, ltb_false→le,
}
use astraea_open_source.FileDescriptor.{
  FileDescriptor, done, reached_eof, sys_fails, sys_read, read, read_loop, read_exactly,
  buffer_size,
}

-- All the bytes that are still to come.
abbrev pub concat : List (List ℕ) → List ℕ
concat [] = []
concat (s ∷ rest) = s ++ concat rest

abbrev pub stream : FileDescriptor → List ℕ
stream fd = concat fd.segments

-- No end of file was met, none stands between two segments, and no `::read` fails.
pub record IsLive (fd : FileDescriptor) : Type 0 where
  pub segments_ne : All (λ s. 0 < length s) fd.segments
  pub before_eof : fd.eof ≡ false
  pub no_failure : fd.fails ≡ false

pub sys_fails-IsLive : (fd : FileDescriptor) → IsLive fd → sys_fails fd ≡ false
sys_fails-IsLive fd v = elim (List-cases fd.segments) [
  | inl e ↦ rw e v.no_failure
  | inr (s, rest, e) ↦ rw e refl
]

-- What one `::read` gives: a first part of the stream, not empty unless the stream is.
record Part (limit : ℕ) (segments : List (List ℕ)) (r : List ℕ × List (List ℕ)) : Type 0 where
  whole : r.0 ++ concat r.1 ≡ concat segments
  within : length r.0 ≤ limit
  some_bytes : 0 < length (concat segments) → 0 < length r.0
  rest_ne : All (λ s. 0 < length s) r.1

sys_read-Part :
    (segments : List (List ℕ)) (limit : ℕ)
    → 0 < limit
    → All (λ s. 0 < length s) segments
    → Part limit segments (sys_read segments limit)
unfolding sys_read
sys_read-Part [] limit h a = record {
  whole = refl;
  within = omega arith;
  some_bytes = λ p. p;
  rest_ne = tt;
}
sys_read-Part (s ∷ rest) limit h a = elim (Bool-cases (ltb limit (length s))) [
  | inl e ↦ rw e (record {
    whole =
        sym (append_assoc (take limit s) (drop limit s) (concat rest))
        ∙ ap (λ t. t ++ concat rest) (take-append-drop limit s);
    within = omega (arith, length-take limit s);
    some_bytes = λ p. omega (arith, length-take limit s, ltb→lt _ _ e);
    rest_ne = (omega (arith, length-drop limit s, ltb→lt _ _ e), a.1);
  })
  | inr e ↦
      rw e
        (record { whole = refl; within = ltb_false→le _ _ e; some_bytes = λ p. a.0; rest_ne = a.1 })
]

-- One `read` of a live descriptor that has bytes left.
pub record Advance (limit : ℕ) (fd : FileDescriptor) (r : List ℕ × FileDescriptor) : Type 0 where
  pub whole : r.0 ++ stream r.1 ≡ stream fd
  pub within : length r.0 ≤ limit
  pub some_bytes : 0 < length r.0
  pub live : IsLive r.1

pub read-Advance :
    (fd : FileDescriptor) (limit : ℕ)
    → IsLive fd
    → 0 < limit
    → 0 < length (stream fd)
    → Advance limit fd (read fd limit)
unfolding read
read-Advance fd limit v h ne =
    let part = sys_read-Part fd.segments (min buffer_size limit) (omega arith) v.segments_ne in
    record {
      whole = part.whole;
      within = omega (arith, part.within);
      some_bytes = part.some_bytes ne;
      live = record {
        segments_ne = part.rest_ne;
        before_eof = ground (arith, part.some_bytes ne, v.before_eof);
        no_failure = v.no_failure;
      };
    }

-- What `read_exactly` leaves behind it when it succeeds on `n` bytes.
pub record Reads (n : ℕ) (input : List ℕ) (bytes : List ℕ) (fd : FileDescriptor) : Type 0 where
  pub exact : length bytes ≡ n
  pub whole : bytes ++ stream fd ≡ input
  pub live : IsLive fd

read_loop-Reads :
    (fuel n : ℕ) (ret : List ℕ) (fd : FileDescriptor)
    → IsLive fd
    → length ret ≤ n
    → n - length ret < fuel
    → n ≤ length ret + length (stream fd)
    → (bytes : List ℕ) × (fd' : FileDescriptor) × (read_loop fuel n ret fd ≡ done bytes fd')
      × Reads n (ret ++ stream fd) bytes fd'
unfolding read_loop
read_loop-Reads zero n ret fd v h f e = absurd (omega arith)
read_loop-Reads (suc fuel) n ret fd v h f e = elim (Bool-cases (ltb (length ret) n)) [
  | inr stop ↦ rw stop (
    ret,
    fd,
    refl,
    record { exact = omega (arith, ltb_false→le _ _ stop); whole = refl; live = v },
  )
  | inl go ↦
      let short : length ret < n = ltb→lt _ _ go in
      let got = read fd (n - length ret) in
      let next = read-Advance fd (n - length ret) v (omega arith) (omega arith) in
      let joined = append_assoc ret got.0 (stream got.1) ∙ ap (◌++◌ ret) next.whole in
      rw (go, sys_fails-IsLive fd v, next.live.before_eof, ← joined)
        (read_loop-Reads fuel n (ret ++ got.0) got.1 next.live
          (omega (arith, length-append ret got.0, next.within))
          (omega (arith, length-append ret got.0, next.some_bytes))
          (omega (
            arith,
            length-append ret got.0,
            ap length joined,
            length-append ret (stream fd),
            length-append (ret ++ got.0) (stream got.1),
          )))
]

-- On a live descriptor with at least `n` bytes to come, `read_exactly` returns the first `n` of
-- them, however the kernel cuts the stream into segments, and leaves the others unread.
pub read_exactly-Reads :
    (fd : FileDescriptor) (n : ℕ)
    → IsLive fd
    → n ≤ length (stream fd)
    → (bytes : List ℕ) × (fd' : FileDescriptor) × (read_exactly fd n ≡ done bytes fd')
      × Reads n (stream fd) bytes fd'
unfolding read_exactly
read_exactly-Reads fd n v h =
    read_loop-Reads (suc n) n [] fd v (omega arith) (omega arith) (omega arith)

sys_read_at_end :
    (segments : List (List ℕ)) (limit : ℕ)
    → All (λ s. 0 < length s) segments
    → length (concat segments) ≤ 0
    → length (sys_read segments limit).0 ≡ 0
unfolding sys_read
sys_read_at_end [] limit a h = refl
sys_read_at_end (s ∷ rest) limit a h = absurd (omega (arith, length-append s (concat rest), a.0))

pub read_at_end :
    (fd : FileDescriptor) (limit : ℕ)
    → IsLive fd
    → length (stream fd) ≤ 0
    → ((read fd limit).1).eof ≡ true
unfolding read
read_at_end fd limit v h =
    ground (arith, sys_read_at_end fd.segments (min buffer_size limit) v.segments_ne h)

read_loop-eq-reached_eof :
    (fuel n : ℕ) (ret : List ℕ) (fd : FileDescriptor)
    → IsLive fd
    → n - length ret < fuel
    → length ret + length (stream fd) < n
    → (fd' : FileDescriptor) × (read_loop fuel n ret fd ≡ reached_eof fd') × (fd'.eof ≡ true)
unfolding read_loop
read_loop-eq-reached_eof zero n ret fd v f e = absurd (omega arith)
read_loop-eq-reached_eof (suc fuel) n ret fd v f e =
    let got = read fd (n - length ret) in
    rw (lt→ltb (length ret) n (omega arith), sys_fails-IsLive fd v)
      (elim (Bool-cases (ltb 0 (length (stream fd)))) [
        | inl more ↦
            let next = read-Advance fd (n - length ret) v (omega arith) (ltb→lt _ _ more) in
            rw (next.live.before_eof) (
              read_loop-eq-reached_eof fuel n (ret ++ got.0) got.1 next.live
                (omega (arith, length-append ret got.0, next.some_bytes))
                (omega (
                  arith,
                  length-append ret got.0,
                  length-append got.0 (stream got.1),
                  ap length next.whole,
                )))
        | inr none_left ↦
            let ended = read_at_end fd (n - length ret) v (ltb_false→le _ _ none_left) in
            rw ended (got.1, refl, ended)
      ])

-- At the end of the stream a `read` gives no byte.
pub read_nothing :
    (fd : FileDescriptor) (limit : ℕ)
    → IsLive fd
    → length (stream fd) ≤ 0
    → length (read fd limit).0 ≡ 0
unfolding read
read_nothing fd limit v h = sys_read_at_end fd.segments (min buffer_size limit) v.segments_ne h

-- On a live descriptor with fewer bytes to come than are asked for, `read_exactly` throws, after
-- it has met the end of the stream.
read_exactly-eq-reached_eof :
    (fd : FileDescriptor) (n : ℕ)
    → IsLive fd
    → length (stream fd) < n
    → (fd' : FileDescriptor) × (read_exactly fd n ≡ reached_eof fd') × (fd'.eof ≡ true)
unfolding read_exactly
read_exactly-eq-reached_eof fd n v h =
    read_loop-eq-reached_eof (suc n) n [] fd v (omega arith) (omega arith)
