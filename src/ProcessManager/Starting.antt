-- ===== src/ProcessManager/Starting.antt =====
-- A child started by `ProcessManager::run_as_child` of net/child_process.cc.
use astraea_open_source.Prelude.{
  ℕ, ◌≡◌, refl, ◌==◌, ==_refl, List, [], ◌∷◌, ◌++◌, inl, inr, Bool-cases, Option-cases, arith,
  Option, none, some,
}
use astraea_open_source.Result.{ok}
use astraea_open_source.ChildProcess.{started, construct}
use astraea_open_source.ProcessManager.{
  ProcessManager, find, emplace, emplace_callback, run_as_child,
}
use astraea_open_source.ProcessManager.Visit.{AllLive}
use astraea_open_source.ProcessManager.Invariant.{AllLive-last}

-- The first of two that is there.
abbrev pub either {ℓ} : {V : Type ℓ} → Option V → Option V → Option V
either (some v) other = some v
either none other = other

find-last :
    {V : Type 0} (k : ℕ) (v : V) (m : List (ℕ × V))
    → find k m ≡ none
    → find k (m ++ ((k, v) ∷ [])) ≡ some v
find-last k v [] h = rw (==_refl k) refl
find-last k v ((j, w) ∷ m) h = elim (Bool-cases (j == k)) [
  | inl e ↦ absurd (ground (arith, e, h))
  | inr e ↦ simp e (find-last k v m (ground (arith, e, h)))
]

find-emplace :
    {V : Type 0} (k : ℕ) (v : V) (m : List (ℕ × V))
    → find k (emplace k v m) ≡ either (find k m) (some v)
find-emplace k v m = elim (Option-cases (find k m)) [
  | inl e ↦ rw (e, emplace) (find-last k v m e)
  | inr (w, e) ↦ rw (e, emplace) e
]

find-emplace_callback :
    (k : ℕ) (o : Option ℕ) (m : List (ℕ × ℕ))
    → find k (emplace_callback k o m) ≡ either (find k m) o
find-emplace_callback k none m = elim (Option-cases (find k m)) [
  | inl e ↦ rw e refl
  | inr (w, e) ↦ rw e refl
]
find-emplace_callback k (some v) m = find-emplace k v m

-- Where `fork` gives a number that no child in the map has, and the children in the map are live: the
-- map afterwards is the old one with the new child, running, under its number, and all its children
-- are live; but a callback of either kind that was registered for this number before, for a child that
-- is long gone, stays, and the one given now is registered only where there was none.
pub run_as_child-callbacks :
    (m : ProcessManager) (pid : ℕ) (callback error_callback : Option ℕ)
    → find pid m.child_processes ≡ none
    → AllLive m.child_processes
    → (m' : ProcessManager) × (run_as_child m (ok pid) callback error_callback ≡ ok (m', pid))
      × (m'.child_processes ≡ m.child_processes ++ ((pid, started 1 pid) ∷ []))
      × AllLive m'.child_processes
      × (find pid m'.callbacks ≡ either (find pid m.callbacks) callback)
      × (find pid m'.error_callbacks ≡ either (find pid m.error_callbacks) error_callback)
unfolding run_as_child construct
run_as_child-callbacks m pid callback error_callback fresh live = (
  record {
    child_processes = emplace pid (started 1 pid) m.child_processes;
    callbacks = emplace_callback pid callback m.callbacks;
    error_callbacks = emplace_callback pid error_callback m.error_callbacks;
  },
  refl,
  rw (fresh, emplace) refl,
  rw (fresh, emplace) (AllLive-last m.child_processes pid (started 1 pid) live (refl, refl)),
  find-emplace_callback pid callback m.callbacks,
  find-emplace_callback pid error_callback m.error_callbacks,
)
