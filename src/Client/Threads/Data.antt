-- ===== src/Client/Threads/Data.antt =====
-- What the clients' data threads send.
use astraea_open_source.Prelude.{
  ℕ, zero, suc, ◌+◌, ◌*◌, ◌≤◌, ◌<◌, ◌≡◌, refl, sym, ap, ◌∙◌, Bool, true, false, List, [], ◌∷◌, ◌++◌,
  Option, length, replicate, length-replicate, append_assoc, append-nil, arith, All,
}
use astraea_open_source.FileDescriptor.Write.{
  Output, returns, write_buffer, AllTake, write_buffer-whole,
}
use astraea_open_source.Client.Threads.{filler, ends, data_thread}

-- The system calls of a pass: each takes at least a byte, and there are as many as bytes.
abbrev pub Suffices : ℕ → List (Option ℕ) → Type 0
Suffices bufsiz results = AllTake results × (bufsiz ≤ length results)

abbrev pub passes : List (List (Option ℕ)) → List (Bool × List (Option ℕ))
passes [] = (false, []) ∷ []
passes (results ∷ later) = (true, results) ∷ passes later

abbrev letters : ℕ → List ℕ
letters n = replicate n filler

letters_add : (n m : ℕ) → letters n ++ letters m ≡ letters (n + m)
letters_add zero m = let e : m ≡ 0 + m = omega arith in ap letters e
letters_add (suc n) m =
    let e : suc (n + m) ≡ suc n + m = omega arith in
    ap (◌∷◌ filler) (letters_add n m) ∙ ap letters e

-- A pass whose system calls suffice writes the whole buffer.
write_letters :
    (n : ℕ) (s : Output) (results : List (Option ℕ))
    → Suffices (suc n) results
    → (s' : Output) × (write_buffer s (letters (suc n)) true results ≡ returns s' [])
      × (s'.delivered ≡ s.delivered ++ letters (suc n))
write_letters n s results h =
    let whole =
      write_buffer-whole s filler (letters n) results h.0
        (omega (arith, h.1, length-replicate {A = ℕ} n filler)) in
    (whole.0, whole.1, whole.2)

-- A data thread whose system calls suffice in each pass ends when `send_traffic` is cleared, and has
-- then sent its buffer of a positive number of letters 'a' once for each pass, whole, behind what was
-- sent before.
pub data_thread-ends :
    (bufsiz : ℕ) (s : Output) (results : List (List (Option ℕ)))
    → 0 < bufsiz
    → All (Suffices bufsiz) results
    → (s' : Output) × (data_thread bufsiz s (passes results) ≡ ends s')
      × (s'.delivered ≡ s.delivered ++ replicate (bufsiz * length results) filler)
unfolding data_thread
data_thread-ends zero s results h all = absurd (omega arith)
data_thread-ends (suc n) s [] h all =
    let e : 0 ≡ suc n * 0 = omega arith in
    (s, refl, sym (append-nil s.delivered) ∙ ap (λ (k : ℕ). s.delivered ++ letters k) e)
data_thread-ends (suc n) s (r ∷ later) h all =
    let first = write_letters n s r all.0 in
    let rest = data_thread-ends (suc n) first.0 later h all.1 in
    let e : suc n + suc n * length later ≡ suc n * suc (length later) = ground arith in
    rw (passes, data_thread, first.1)
      (
        rest.0,
        rest.1,
        rest.2
            ∙ ap (λ (l : List ℕ). l ++ letters (suc n * length later)) first.2
            ∙ append_assoc s.delivered (letters (suc n)) (letters (suc n * length later))
            ∙ ap (◌++◌ s.delivered) (letters_add (suc n) (suc n * length later))
            ∙ ap (λ (k : ℕ). s.delivered ++ letters k) e,
      )
