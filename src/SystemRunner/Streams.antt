-- ===== src/SystemRunner/Streams.antt =====
-- The loop of net/system_runner.cc over a stream: it gathers the whole of it.
use astraea_open_source.Prelude.{
  ℕ, zero, suc, ◌+◌, ◌<◌, ◌≡◌, refl, sym, ap, ◌∙◌, true, List, [], ◌∷◌, ◌++◌, append_assoc, length,
  length-append, arith, Bool-cases, inl, inr, ltb, ltb→lt, ltb_false→le, some,
}
use astraea_open_source.Result.{ok}
use astraea_open_source.FileDescriptor.{FileDescriptor, read, buffer_size}
use astraea_open_source.FileDescriptor.Reading.{
  stream, IsLive, sys_fails-IsLive, read-Advance, read_at_end, read_nothing,
}
use astraea_open_source.SystemRunner.{read_until, read_until_eof}

nil_of_length : (l : List ℕ) → length l ≡ 0 → l ≡ []
nil_of_length [] h = refl
nil_of_length (b ∷ l) h = absurd (omega (arith, h))

-- After the end was met, the loop stops with what it has.
read_until_stops :
    (fuel : ℕ) (output : List ℕ) (fd : FileDescriptor)
    → fd.eof ≡ true
    → read_until (suc fuel) output fd ≡ some (ok output)
unfolding read_until
read_until_stops fuel output fd e = rw e refl

read_until_goes :
    (fuel : ℕ) (output : List ℕ) (fd : FileDescriptor)
    → IsLive fd
    → let got = read fd buffer_size in
      read_until (suc fuel) output fd ≡ read_until fuel (output ++ got.0) got.1
unfolding read_until
read_until_goes fuel output fd v = rw (v.before_eof, sys_fails-IsLive fd v) refl

read_until-stream :
    (fuel : ℕ) (output : List ℕ) (fd : FileDescriptor)
    → IsLive fd
    → length (stream fd) + 1 < fuel
    → read_until fuel output fd ≡ some (ok (output ++ stream fd))
unfolding read_until
read_until-stream zero output fd v f = absurd (omega arith)
read_until-stream (suc zero) output fd v f = absurd (omega arith)
read_until-stream (suc (suc fuel)) output fd v f =
    let got = read fd buffer_size in
    elim (Bool-cases (ltb 0 (length (stream fd)))) [
      | inl more ↦
          let next = read-Advance fd buffer_size v (omega arith) (ltb→lt _ _ more) in
          read_until_goes (suc fuel) output fd v
          ∙ read_until-stream (suc fuel) (output ++ got.0) got.1 next.live (
              omega
                (arith, next.some_bytes, length-append got.0 (stream got.1), ap length next.whole))
          ∙ ap (λ (l : List ℕ). some (ok l))
              (append_assoc output got.0 (stream got.1) ∙ ap (◌++◌ output) next.whole)
      | inr none_left ↦
          let at_end = ltb_false→le _ _ none_left in
          let nothing = nil_of_length got.0 (read_nothing fd buffer_size v at_end) in
          let whole = nil_of_length (stream fd) (omega (arith, at_end)) in
          read_until_goes (suc fuel) output fd v
          ∙ read_until_stops fuel (output ++ got.0) got.1 (read_at_end fd buffer_size v at_end)
          ∙ ap (λ (l : List ℕ). some (ok (output ++ l))) (nothing ∙ sym whole)
    ]

-- From a live descriptor the loop gathers the whole stream, however the kernel cuts it.
pub read_until_eof-stream :
    (fd : FileDescriptor) → IsLive fd → read_until_eof fd ≡ some (ok (stream fd))
unfolding read_until_eof
read_until_eof-stream fd v = read_until-stream (length (stream fd) + 2) [] fd v (omega arith)
