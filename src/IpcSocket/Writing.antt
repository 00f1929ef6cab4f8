-- ===== src/IpcSocket/Writing.antt =====
-- What `write` of net/ipc_socket.cc gives to the kernel.
use astraea_open_source.Prelude.{
  List-cases, ℕ, zero, suc, ◌+◌, ◌<◌, ◌≤◌, ◌≡◌, refl, sym, ap, ◌∙◌, ℤ, pos, negsuc, Bool, true,
  false, ◌==◌, if◌then◌else◌, List, [], ◌∷◌, ◌++◌, append_assoc, append-nil, length, take, drop,
  length-drop, take_all, arith, Bool-cases, ◌||◌, inl, inr,
}
use astraea_open_source.IpcSocket.{
  IpcSocket, Attempt, Errno, is_broken, failed, gives_up, taken, Written, returns, blocks,
  write_loop, write,
}

-- What the kernel has in the end.
abbrev pub received : Written → List ℕ
received (returns s left) = s.delivered
received (blocks s) = s.delivered

take-drop-length : (n : ℕ) (xs : List ℕ) → take n xs ++ drop (length (take n xs)) xs ≡ xs
take-drop-length zero xs = refl
take-drop-length (suc n) [] = refl
take-drop-length (suc n) (x ∷ xs) = ap (◌∷◌ x) (take-drop-length n xs)

taken-drop : (n : ℤ) (rest : List ℕ) → taken n rest ++ drop (length (taken n rest)) rest ≡ rest
taken-drop (pos n) rest = take-drop-length n rest
taken-drop (negsuc n) rest = refl

-- The kernel has a first part of the bytes, in order and each of them once.
abbrev Sends : IpcSocket → List ℕ → Written → Type 0
Sends s rest w =
    (part : List ℕ) × (left : List ℕ) × (part ++ left ≡ rest) × (received w ≡ s.delivered ++ part)

Sends-more :
    (s : IpcSocket) (bytes left rest : List ℕ) (w : Written) (s' : IpcSocket)
    → bytes ++ left ≡ rest
    → s'.delivered ≡ s.delivered ++ bytes
    → Sends s' left w
    → Sends s rest w
Sends-more s bytes left rest w s' e d (part, more, whole, got) = (
  bytes ++ part,
  more,
  append_assoc bytes part more ∙ ap (λ t. bytes ++ t) whole ∙ e,
  got ∙ ap (λ t. t ++ part) d ∙ append_assoc s.delivered bytes part,
)

write_loop-Sends :
    (s : IpcSocket) (rest : List ℕ) (write_all : Bool) (attempts : List Attempt)
    → Sends s rest (write_loop s rest write_all attempts)
unfolding write_loop
write_loop-Sends s rest write_all [] = ([], rest, refl, sym (append-nil s.delivered))
write_loop-Sends s rest write_all (a ∷ later) =
    let bytes = taken a.result rest in
    let left = drop (length bytes) rest in
    let going : IpcSocket = record s {
      write_count = s.write_count + 1;
      delivered = s.delivered ++ bytes;
    } in
    let whole = taken-drop a.result rest in
    elim (Bool-cases (gives_up a)) [
      | inl e ↦ rw e (bytes, left, whole, refl)
      | inr e ↦ rw e (elim (Bool-cases (length left == 0)) [
        | inl z ↦ rw z (bytes, left, whole, refl)
        | inr more ↦ rw more (elim (Bool-cases write_all) [
          | inl all ↦ rw all (
              Sends-more s bytes left rest (write_loop going left true later) going whole refl
                (write_loop-Sends going left true later))
          | inr one ↦ rw one (bytes, left, whole, refl)
        ])
      ])
    ]

-- Whatever the attempts give, the kernel has in the end what it had before and a first part of the
-- buffer, in order and each byte once.
write-Sends :
    (s : IpcSocket) (buffer : List ℕ) (write_all : Bool) (attempts : List Attempt)
    → (part : List ℕ) × (left : List ℕ) × (part ++ left ≡ buffer)
      × (received (write s buffer write_all attempts) ≡ s.delivered ++ part)
unfolding write
write-Sends s buffer write_all attempts =
    if_elim s.connected _ _ (write_loop-Sends s buffer write_all attempts)
      ([], buffer, refl, sym (append-nil s.delivered))
  where
    if_elim :
        (b : Bool) (v w : Written)
        → Sends s buffer v
        → Sends s buffer w
        → Sends s buffer (if b then v else w)
    if_elim true v w p q = p
    if_elim false v w p q = q

length-taken :
    (n : ℤ) (e : Errno) (x : ℕ) (rest : List ℕ)
    → failed n e ≡ false
    → 0 < length (taken n (x ∷ rest))
length-taken (pos zero) e x rest h = absurd cc
length-taken (pos (suc n)) e x rest h = omega arith
length-taken (negsuc n) e x rest h = absurd cc

suc_ne_zero : (n : ℕ) → (suc n == 0) ≡ false
suc_ne_zero n = ground arith

or_true : (b : Bool) → (b || true) ≡ true
or_true true = refl
or_true false = refl

-- No attempt fails, and there are enough of them.
unfoldable pub NoneFails : List Attempt → Type 0
NoneFails [] = Unit
NoneFails (a ∷ later) = (gives_up a ≡ false) × NoneFails later

write_loop_all :
    (s : IpcSocket) (x : ℕ) (rest : List ℕ) (attempts : List Attempt)
    → NoneFails attempts
    → length (x ∷ rest) ≤ length attempts
    → (s' : IpcSocket) × (write_loop s (x ∷ rest) true attempts ≡ returns s' [])
      × (s'.connected ≡ s.connected)
      × (s'.delivered ≡ s.delivered ++ (x ∷ rest))
unfolding write_loop NoneFails
write_loop_all s x rest [] h enough = absurd (omega arith)
write_loop_all s x rest (a ∷ later) (fine, h) enough =
    let bytes = taken a.result (x ∷ rest) in
    let going : IpcSocket = record s {
      write_count = s.write_count + 1;
      delivered = s.delivered ++ bytes;
    } in
    let whole = taken-drop a.result (x ∷ rest) in
    elim (List-cases (drop (length bytes) (x ∷ rest))) [
      | inl z ↦ rw fine (
          rw z (
            going,
            refl,
            refl,
            ap (λ t. s.delivered ++ t)
                (sym (append-nil bytes) ∙ sym (ap (λ t. bytes ++ t) z) ∙ whole),
          ))
      | inr (y, left, e) ↦
          let (s', ends, same, all) = write_loop_all going y left later h (
            omega (
              arith,
              length-drop (length bytes) (x ∷ rest),
              ap length e,
              length-taken a.result a.errno x rest fine,
            )) in
          rw fine (
            rw e (
              s',
              ap
                    (λ b.
                      if b
                      then returns going (y ∷ left)
                      else write_loop going (y ∷ left) true later)
                    (suc_ne_zero (length left))
                  ∙ ends,
              same,
              all
                  ∙ append_assoc s.delivered bytes (y ∷ left)
                  ∙ ap (λ t. s.delivered ++ t) (sym (ap (λ t. bytes ++ t) e) ∙ whole),
            ))
    ]

-- On a connected socket, if no attempt fails and there is one for each byte, a buffer that is not
-- empty goes out whole: nothing is left of it, the kernel has what it had before and then the buffer,
-- and the socket stays connected.
pub write_whole :
    (s : IpcSocket) (x : ℕ) (rest : List ℕ) (attempts : List Attempt)
    → s.connected ≡ true
    → NoneFails attempts
    → length (x ∷ rest) ≤ length attempts
    → (s' : IpcSocket) × (write s (x ∷ rest) true attempts ≡ returns s' [])
      × (s'.connected ≡ true)
      × (s'.delivered ≡ s.delivered ++ (x ∷ rest))
unfolding write
write_whole s x rest attempts on h enough =
    let (s', ends, same, all) = write_loop_all s x rest attempts h enough in
    (
      s',
      ap (λ b. if b then write_loop s (x ∷ rest) true attempts else returns s (x ∷ rest)) on ∙ ends,
      same ∙ on,
      all,
    )

-- On a connected socket, if the first attempt takes every byte but `errno` still holds a broken
-- pipe or a bad descriptor, every byte goes out, and yet the socket is marked as not connected and
-- the caller is told that the whole buffer is left.
write_stale :
    (s : IpcSocket) (buffer : List ℕ) (write_all : Bool) (e : Errno) (later : List Attempt)
    → s.connected ≡ true
    → is_broken e ≡ true
    → write s buffer write_all ((record { result = pos (length buffer); errno = e }) ∷ later)
      ≡ returns (record s { connected = false; delivered = s.delivered ++ buffer }) buffer
unfolding write write_loop
write_stale s buffer write_all e later on broken =
    rw (on, broken, or_true (length buffer == 0), take_all (length buffer) buffer (omega arith))
      refl
