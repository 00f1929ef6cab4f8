-- ===== src/FileDescriptor/Write.antt =====
-- net/file_descriptor.cc, the writing half. What `::write` returns is a list of results, one for each
-- call: `none` is a failed call, and a call that the list does not reach blocks.
use astraea_open_source.Prelude.{
  ℕ, zero, suc, ◌+◌, ◌<◌, ◌≤◌, ◌≡◌, refl, sym, ap, ◌∙◌, Bool, true, false, List, [], ◌∷◌, ◌++◌,
  Option, none, some, length, take, drop, arith, length-drop, List-cases, append_assoc, append-nil,
  take-append-drop, inl, inr,
}
use astraea_open_source.Result.{Error, runtime_error, unix_error}

-- What the kernel has, and how often `register_write` was called.
pub record Output : Type 0 where
  pub delivered : List ℕ
  pub write_count : ℕ

-- The end of a write: what is left from the iterator on, an exception, or a call that blocks.
pub data Outcome : Type 0 where
  returns : Output → List ℕ → Outcome
  throws : Output → Error → Outcome
  blocks : Output → Outcome

-- `write(begin, end)` on what is left, with the result of its system call.
unfoldable pub write_portion : Output → List ℕ → Option ℕ → Outcome
write_portion s [] result = throws s runtime_error
write_portion s (x ∷ rest) none = throws s unix_error
write_portion s (x ∷ rest) (some zero) = throws s runtime_error
write_portion s (x ∷ rest) (some (suc n)) =
    returns
      (record {
        delivered = s.delivered ++ take (suc n) (x ∷ rest);
        write_count = s.write_count + 1;
      })
      (drop (suc n) (x ∷ rest))

-- `write(buffer, write_all)`: the first round is always made, on an empty buffer too.
unfoldable pub write_buffer : Output → List ℕ → Bool → List (Option ℕ) → Outcome
unfolding write_portion
write_buffer s rest write_all [] = elim rest [ [] ↦ throws s runtime_error | x ∷ more ↦ blocks s ]
write_buffer s rest write_all (result ∷ later) = elim (write_portion s rest result) [
  | returns s' [] ↦ returns s' []
  | returns s' (x ∷ left) ↦ elim write_all [
    | true ↦ write_buffer s' (x ∷ left) true later
    | false ↦ returns s' (x ∷ left)
  ]
  | throws s' e ↦ throws s' e
  | blocks s' ↦ blocks s'
]

-- Every call takes at least a byte.
unfoldable pub AllTake : List (Option ℕ) → Type 0
AllTake [] = Unit
AllTake (none ∷ later) = ⊥
AllTake (some n ∷ later) = (0 < n) × AllTake later

-- If every call takes at least a byte, and there is one for each byte, a buffer that is not empty is
-- written whole: nothing is left of it, the kernel has what it had before and then the buffer, and
-- there were at most as many calls as bytes.
pub write_buffer-whole :
    (s : Output) (x : ℕ) (rest : List ℕ) (results : List (Option ℕ))
    → AllTake results
    → length (x ∷ rest) ≤ length results
    → (s' : Output) × (write_buffer s (x ∷ rest) true results ≡ returns s' [])
      × (s'.delivered ≡ s.delivered ++ (x ∷ rest))
      × (s'.write_count ≤ s.write_count + length (x ∷ rest))
unfolding write_buffer write_portion AllTake
write_buffer-whole s x rest [] h enough = absurd (omega arith)
write_buffer-whole s x rest (none ∷ later) h enough = absurd h
write_buffer-whole s x rest (some zero ∷ later) (p, h) enough = absurd (omega arith)
write_buffer-whole s x rest (some (suc n) ∷ later) (p, h) enough =
    let going : Output = record {
      delivered = s.delivered ++ take (suc n) (x ∷ rest);
      write_count = s.write_count + 1;
    } in
    let whole = take-append-drop (suc n) (x ∷ rest) in
    elim (List-cases (drop n rest)) [
      | inl e ↦
          let all =
            sym (append-nil (take n rest))
            ∙ sym (ap (λ t. take n rest ++ t) e)
            ∙ take-append-drop n rest in
          rw (e, write_buffer) (going, refl, ap (λ t. s.delivered ++ (x ∷ t)) all, omega arith)
      | inr (y, left, e) ↦
          let (s', ends, got, calls) =
            write_buffer-whole going y left later h
              (omega (arith, ap length e, length-drop n rest)) in
          rw (e, write_buffer)
            (
              s',
              ends,
              got
                  ∙ append_assoc s.delivered (take (suc n) (x ∷ rest)) (y ∷ left)
                  ∙ ap (λ t. s.delivered ++ t) (sym (ap (λ t. x ∷ (take n rest ++ t)) e) ∙ whole),
              omega (arith, calls, ap length e, length-drop n rest),
            )
    ]
