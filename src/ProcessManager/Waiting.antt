-- ===== src/ProcessManager/Waiting.antt =====
-- A SIGCHLD of net/child_process.cc as a whole, and `wait`.
use astraea_open_source.Prelude.{
  ℕ, ◌≡◌, ◌≢◌, refl, ap, sym, ◌∙◌, subst, true, false, not, ◌&&◌, List, [], ◌∷◌, ◌++◌, inl, inr,
  Bool-cases, none, All, List-cases, append-nil, map,
}
use astraea_open_source.Result.{undefined}
use astraea_open_source.ChildProcess.{ChildProcess, returns, throws}
use astraea_open_source.Poller.{continue}
use astraea_open_source.ProcessManager.{
  ProcessManager, Children, destroys, follow, before, sweep, sigchld, is_empty, handle_signal,
}
use astraea_open_source.ProcessManager.Visit.{IsLive}
use astraea_open_source.ProcessManager.{Polled, signalled, returned, wait_all}
use astraea_open_source.ProcessManager.Reports.{
  Report, nothing, stop, resume, exit_with, killed_by, reporting, is_bad, left, left_all,
  has_error_callback, all_news, IsHandled,
}
use astraea_open_source.ProcessManager.Sweep.{sweep-append, visit_missing}

swept_all :
    (m : ProcessManager) (reports : ℕ → Report) (l : Children)
    → All (IsHandled m reports) l
    → sweep m (reporting reports) [] l ≡ (left_all reports l, all_news m reports l, returns tt)
unfolding sweep
swept_all m reports l all =
    ap (sweep m (reporting reports) []) (sym (append-nil l))
    ∙ sweep-append m reports [] l [] all
    ∙ ap (λ news. (left_all reports l, news, returns tt)) (append-nil (all_news m reports l))

-- A SIGCHLD, however many changes are behind it, brings every child up to date at once: for live
-- children under their own numbers, each with an error callback if its report is a stop or a
-- failure, and callbacks that return, exactly the children that have exited or were killed are
-- erased, the others have the state that was reported, and the callbacks called are the error
-- callbacks of the bad reports and the callbacks of all the children that are gone, after a failure
-- too; the poller goes on.
pub handle_signal-left :
    (m : ProcessManager) (reports : ℕ → Report)
    → All (IsHandled m reports) m.child_processes
    → let h = handle_signal m sigchld (reporting reports) in
      (h.manager.child_processes ≡ left_all reports m.child_processes)
      × (h.events ≡ all_news m reports m.child_processes)
      × (h.outcome ≡ returns continue)
unfolding handle_signal
handle_signal-left m reports all = elim (List-cases m.child_processes) [
  | inl e ↦ simp e (refl, refl, refl)
  | inr (entry, rest, e) ↦
      simp (e, swept_all m reports (entry ∷ rest) (subst (All (IsHandled m reports)) e all))
        (refl, refl, refl)
]

is_empty-append :
    (l : Children) (entry : ℕ × ChildProcess) (rest : Children)
    → is_empty (l ++ (entry ∷ rest)) ≡ false
is_empty-append [] entry rest = refl
is_empty-append (x ∷ l) entry rest = refl

-- A bad report of a child without an error callback, after children that are handled: every child
-- that is left is destroyed with that one, the map is empty, and what is thrown is not defined, since
-- its message is made from the entry that `clear` has destroyed.
handle_signal-clears :
    (m : ProcessManager) (reports : ℕ → Report) (first rest : Children) (pid : ℕ) (c : ChildProcess)
    → m.child_processes ≡ first ++ ((pid, c) ∷ rest)
    → All (IsHandled m reports) first
    → (c.pid ≡ pid) × (pid ≢ 0)
    → IsLive c
    → (is_bad (reports pid) && not (has_error_callback m pid)) ≡ true
    → let h = handle_signal m sigchld (reporting reports) in
      (h.manager.child_processes ≡ [])
      × (h.events
          ≡ all_news m reports first
            ++ map (λ entry. destroys entry.0) (left_all reports first ++ ((pid, c) ∷ rest)))
      × (h.outcome ≡ throws undefined)
unfolding handle_signal sweep
handle_signal-clears m reports first rest pid c e all same live bad =
    let t =
      sweep-append m reports [] first ((pid, c) ∷ rest) all
      ∙ ap
          (λ v. before (all_news m reports first) (
            follow (left_all reports first) pid c rest v
              (λ kept. sweep m (reporting reports) kept rest)))
          (visit_missing m reports pid c (reports pid) refl same live bad) in
    simp (e, is_empty-append first (pid, c) rest, t) (refl, refl, refl)

abbrev pub IsEnd : Report → Type 0
IsEnd nothing = ⊥
IsEnd stop = ⊥
IsEnd resume = ⊥
IsEnd (exit_with status) = Unit
IsEnd (killed_by sig) = Unit

left-none : (r : Report) (c : ChildProcess) → IsEnd r → left r c ≡ none
left-none nothing c h = absurd h
left-none stop c h = absurd h
left-none resume c h = absurd h
left-none (exit_with status) c h = refl
left-none (killed_by sig) c h = refl

left_all-nil :
    (reports : ℕ → Report) (l : Children)
    → All (λ entry. IsEnd (reports entry.0)) l
    → left_all reports l ≡ []
left_all-nil reports [] all = refl
left_all-nil reports ((pid, c) ∷ rest) all =
    rw (left-none (reports pid) c all.0, left_all-nil reports rest all.1) refl

wait_all-nil :
    (m : ProcessManager) (polls : List Polled)
    → m.child_processes ≡ []
    → wait_all m polls ≡ returned 0
unfolding wait_all
wait_all-nil m [] e = rw e refl
wait_all-nil m (t ∷ later) e = rw e refl

-- For live children under their own numbers, each with an error callback if its end is a failure, and
-- callbacks that return and do not use the manager, `wait` returns EXIT_SUCCESS as soon as one SIGCHLD
-- has the ends of all the children behind it, whatever would come later and also if children failed.
pub wait_all-returns :
    (m : ProcessManager) (reports : ℕ → Report) (later : List Polled)
    → All (IsHandled m reports) m.child_processes
    → All (λ entry. IsEnd (reports entry.0)) m.child_processes
    → wait_all m (signalled sigchld (reporting reports) ∷ later) ≡ returned 0
unfolding wait_all
wait_all-returns m reports later all ends =
    let (e, events, o) = handle_signal-left m reports all in
    let done =
      wait_all-nil (handle_signal m sigchld (reporting reports)).manager later
        (e ∙ left_all-nil reports m.child_processes ends) in
    elim (Bool-cases (is_empty m.child_processes)) [
      | inl h ↦ rw h refl
      | inr h ↦ rw (o, done, h) refl
    ]
