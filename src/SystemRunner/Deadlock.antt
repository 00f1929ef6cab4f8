-- ===== src/SystemRunner/Deadlock.antt =====
-- `run` of net/system_runner.cc reads the standard output to its end before the standard error. The
-- steps are those of the child, which writes byte by byte into pipes of a capacity, and of the parent,
-- which reads; a write into a full pipe waits, and so does a read of an empty one that is open.
use astraea_open_source.Prelude.{
  ℕ, zero, suc, ◌+◌, ◌-◌, ◌≤◌, ◌<◌, ◌≡◌, ◌↔◌, ◌≢◌, inl, inr, refl, subst, List, [], ◌∷◌, arith,
  Bool-cases, ltb, ltb→lt, ltb_false→le,
}

-- A stream that the child writes a byte to.
pub data Stream : Type 0 where
  stdout stderr : Stream

-- Where the parent is: in one of the two loops, or behind them.
pub data Phase : Type 0 where
  reading_stdout reading_stderr waiting : Phase

-- The bytes in the two pipes, and those that the child has still to write; it exits after the last.
pub record State : Type 0 where
  pub phase : Phase
  pub in_stdout : ℕ
  pub in_stderr : ℕ
  pub rest : List Stream

abbrev pub start : List Stream → State
start rest = record { phase = reading_stdout; in_stdout = 0; in_stderr = 0; rest = rest }

-- A step, with pipes of this capacity. The child writes where there is room. The parent reads some of
-- the bytes that are there, and goes on at the end of a stream: no byte, and no child to write one.
pub data Step (capacity : ℕ) : State → State → Type 0 where
  write_stdout :
      {p : Phase} {o e : ℕ} {rest : List Stream}
      → o < capacity
      → Step capacity
          (record { phase = p; in_stdout = o; in_stderr = e; rest = stdout ∷ rest })
          (record { phase = p; in_stdout = o + 1; in_stderr = e; rest = rest })
  write_stderr :
      {p : Phase} {o e : ℕ} {rest : List Stream}
      → e < capacity
      → Step capacity
          (record { phase = p; in_stdout = o; in_stderr = e; rest = stderr ∷ rest })
          (record { phase = p; in_stdout = o; in_stderr = e + 1; rest = rest })
  read_stdout :
      {o e : ℕ} {rest : List Stream} (n : ℕ)
      → 0 < n
      → n ≤ o
      → Step capacity
          (record { phase = reading_stdout; in_stdout = o; in_stderr = e; rest = rest })
          (record { phase = reading_stdout; in_stdout = o - n; in_stderr = e; rest = rest })
  read_stderr :
      {o e : ℕ} {rest : List Stream} (n : ℕ)
      → 0 < n
      → n ≤ e
      → Step capacity
          (record { phase = reading_stderr; in_stdout = o; in_stderr = e; rest = rest })
          (record { phase = reading_stderr; in_stdout = o; in_stderr = e - n; rest = rest })
  stdout_ends :
      {e : ℕ}
      → Step capacity
          (record { phase = reading_stdout; in_stdout = 0; in_stderr = e; rest = [] })
          (record { phase = reading_stderr; in_stdout = 0; in_stderr = e; rest = [] })
  stderr_ends :
      Step capacity
        (record { phase = reading_stderr; in_stdout = 0; in_stderr = 0; rest = [] })
        (record { phase = waiting; in_stdout = 0; in_stderr = 0; rest = [] })

pub data Reach (capacity : ℕ) (s : State) : State → Type 0 where
  here : Reach capacity s s
  more : {t u : State} → Reach capacity s t → Step capacity t u → Reach capacity s u

-- How many bytes go to the standard error.
abbrev pub count_stderr : List Stream → ℕ
count_stderr [] = 0
count_stderr (stdout ∷ rest) = count_stderr rest
count_stderr (stderr ∷ rest) = count_stderr rest + 1

-- No step is possible, and the parent is not behind its loops.
pub record IsStuck (capacity : ℕ) (s : State) : Type 0 where
  pub not_done : s.phase ≢ waiting
  pub no_step : (t : State) → ¬ Step capacity s t

-- While the standard output is read, no byte of the standard error is lost; after its end nothing is
-- left to write.
abbrev pub Holds : ℕ → Phase → ℕ → ℕ → List Stream → Type 0
Holds total reading_stdout o e rest = e + count_stderr rest ≡ total
Holds total reading_stderr o e rest = (rest ≡ []) × (o ≡ 0)
Holds total waiting o e rest = Unit

cons_ne : {x : Stream} {rest : List Stream} → x ∷ rest ≢ []
cons_ne e = subst Cons e tt
  where
    Cons : List Stream → Type 0
    Cons [] = ⊥
    Cons (x ∷ rest) = Unit

Step-Holds :
    (capacity total : ℕ) {s t : State}
    → Step capacity s t
    → Holds total s.phase s.in_stdout s.in_stderr s.rest
    → Holds total t.phase t.in_stdout t.in_stderr t.rest
Step-Holds capacity total (write_stdout {p = reading_stdout} h) i = i
Step-Holds capacity total (write_stdout {p = reading_stderr} h) i = absurd (cons_ne i.0)
Step-Holds capacity total (write_stdout {p = waiting} h) i = tt
Step-Holds capacity total (write_stderr {p = reading_stdout} h) i = omega arith
Step-Holds capacity total (write_stderr {p = reading_stderr} h) i = absurd (cons_ne i.0)
Step-Holds capacity total (write_stderr {p = waiting} h) i = tt
Step-Holds capacity total (read_stdout n h h') i = i
Step-Holds capacity total (read_stderr n h h') i = i
Step-Holds capacity total stdout_ends i = (refl, refl)
Step-Holds capacity total stderr_ends i = tt

Reach-Holds :
    (capacity : ℕ) (rest : List Stream) {s : State}
    → Reach capacity (start rest) s
    → Holds (count_stderr rest) s.phase s.in_stdout s.in_stderr s.rest
Reach-Holds capacity rest here = omega arith
Reach-Holds capacity rest (more r step) =
    Step-Holds capacity (count_stderr rest) step (Reach-Holds capacity rest r)

abbrev pub state : Phase → ℕ → ℕ → List Stream → State
state p o e rest = record { phase = p; in_stdout = o; in_stderr = e; rest = rest }

-- The parent is in one of its loops.
abbrev pub Early : Phase → Type 0
Early reading_stdout = Unit
Early reading_stderr = Unit
Early waiting = ⊥

-- With the next byte for a full standard error, and nothing on the standard output, child and parent
-- wait for each other.
full-IsStuck :
    (capacity e : ℕ) (rest : List Stream)
    → capacity ≤ e
    → IsStuck capacity (state reading_stdout 0 e (stderr ∷ rest))
full-IsStuck capacity e rest h = record { not_done = λ e. subst Early e tt; no_step = no_step }
  where
    no_step : (t : State) → ¬ Step capacity (state reading_stdout 0 e (stderr ∷ rest)) t
    no_step t (write_stderr h') = omega arith
    no_step t (read_stdout n h' h'') = omega arith

-- From here a run gets stuck.
Reach-IsStuck :
    (capacity e : ℕ) (rest : List Stream) (s : State)
    → 0 < capacity
    → e ≤ capacity
    → capacity < e + count_stderr rest
    → Reach capacity s (state reading_stdout 0 e rest)
    → (t : State) × Reach capacity s t × IsStuck capacity t
Reach-IsStuck capacity e [] s pos h h' r = absurd (omega arith)
Reach-IsStuck capacity e (stdout ∷ rest) s pos h h' r =
    Reach-IsStuck capacity e rest s pos h h'
      (more (more r (write_stdout pos)) (read_stdout 1 (omega arith) (omega arith)))
Reach-IsStuck capacity e (stderr ∷ rest) s pos h h' r = elim (Bool-cases (ltb e capacity)) [
  | inl room ↦
      let short = ltb→lt _ _ room in
      Reach-IsStuck capacity (e + 1) rest s pos (omega arith) (omega arith)
        (more r (write_stderr short))
  | inr no_room ↦ (
    state reading_stdout 0 e (stderr ∷ rest),
    r,
    full-IsStuck capacity e rest (ltb_false→le _ _ no_room),
  )
]

-- A state where the standard error fits is not stuck.
not-IsStuck :
    (capacity total : ℕ) (p : Phase) (o e : ℕ) (rest : List Stream)
    → 0 < capacity
    → total ≤ capacity
    → Holds total p o e rest
    → ¬ IsStuck capacity (state p o e rest)
not-IsStuck capacity total waiting o e rest pos fits i stuck = stuck.not_done refl
not-IsStuck capacity total reading_stderr o e (x ∷ rest) pos fits i stuck = cons_ne i.0
not-IsStuck capacity total reading_stderr zero zero [] pos fits i stuck =
    stuck.no_step _ stderr_ends
not-IsStuck capacity total reading_stderr (suc o) zero [] pos fits i stuck =
    absurd (omega (arith, i.1))
not-IsStuck capacity total reading_stderr o (suc e) [] pos fits i stuck =
    stuck.no_step _ (read_stderr 1 (omega arith) (omega arith))
not-IsStuck capacity total reading_stdout (suc o) e rest pos fits i stuck =
    stuck.no_step _ (read_stdout 1 (omega arith) (omega arith))
not-IsStuck capacity total reading_stdout zero e [] pos fits i stuck = stuck.no_step _ stdout_ends
not-IsStuck capacity total reading_stdout zero e (stdout ∷ rest) pos fits i stuck =
    stuck.no_step _ (write_stdout pos)
not-IsStuck capacity total reading_stdout zero e (stderr ∷ rest) pos fits i stuck =
    stuck.no_step _ (write_stderr (omega arith))

-- With pipes that hold at least a byte, `run` with both streams asked for can get stuck, child and
-- parent waiting for each other, exactly if the child writes more to the standard error than a pipe
-- holds: the parent reads the standard output to its end first.
pub Reach-IsStuck_iff :
    (capacity : ℕ) (rest : List Stream)
    → 0 < capacity
    → ((s : State) × Reach capacity (start rest) s × IsStuck capacity s)
      ↔ (capacity < count_stderr rest)
Reach-IsStuck_iff capacity rest pos = (
  λ found. elim (Bool-cases (ltb capacity (count_stderr rest))) [
    | inl e ↦ ltb→lt _ _ e
    | inr e ↦
        let s = found.0 in
        absurd (
          not-IsStuck capacity (count_stderr rest) s.phase s.in_stdout s.in_stderr s.rest pos
            (ltb_false→le _ _ e) (Reach-Holds capacity rest found.1) found.2)
  ],
  λ h. Reach-IsStuck capacity 0 rest (start rest) pos (omega arith) (omega arith) here,
)
