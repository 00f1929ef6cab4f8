-- ===== src/ProcessManager/Sweep.antt =====
-- The loop of `handle_signal` in net/child_process.cc, by what the system reports of each child.
use astraea_open_source.Prelude.{
  ℕ, ◌≡◌, ◌≢◌, refl, ap, ◌∙◌, subst, true, false, not, ◌&&◌, ◌==◌, if◌then◌else◌, [], ◌∷◌, ◌++◌,
  inl, inr, Option-cases, arith, Option, none, some, All, append-nil, append_assoc,
}
use astraea_open_source.Result.{undefined}
use astraea_open_source.ChildProcess.{ChildProcess, returns, throws, waitable, wait}
use astraea_open_source.ProcessManager.{
  ProcessManager, Children, destroys, Verdict, keeps, erases, clears, find, judge, visit, follow,
  before, sweep,
}
use astraea_open_source.ProcessManager.Visit.{IsLive}
use astraea_open_source.ProcessManager.Reports.{
  Report, nothing, stop, resume, exit_with, killed_by, report_info, reporting, is_bad, left,
  left_all, call_of, news, all_news, has_error_callback, IsHandled,
}

module _ (m : ProcessManager) where
  -- The two calls of the system on a live child.
  waitable_report :
      (pid : ℕ) (c : ChildProcess) (r : Report)
      → c.pid ≡ pid
      → pid ≢ 0
      → IsLive c
      → waitable c (some (report_info pid r))
        ≡ returns (elim r [
          | nothing ↦ false
          | stop ↦ true
          | resume ↦ true
          | exit_with _ ↦ true
          | killed_by _ ↦ true
        ])
  unfolding waitable
  waitable_report pid c nothing same ne live = ground (arith, live.0, live.1)
  waitable_report pid c stop same ne live = ground (arith, same, ne, live.0, live.1)
  waitable_report pid c resume same ne live = ground (arith, same, ne, live.0, live.1)
  waitable_report pid c (exit_with status) same ne live = ground (arith, same, ne, live.0, live.1)
  waitable_report pid c (killed_by sig) same ne live = ground (arith, same, ne, live.0, live.1)

  judge_gone :
      (pid : ℕ) (c : ChildProcess) (reports : ℕ → Report)
      → c.terminated ≡ true
      → (not (c.exit_status == 0) && not (has_error_callback m pid)) ≡ false
      → judge m (reporting reports) pid c ≡ (
        (if not (c.exit_status == 0) then call_of pid (find pid m.error_callbacks) else [])
            ++ (call_of pid (find pid m.callbacks) ++ (destroys pid ∷ [])),
        erases,
        returns tt,
      )
  unfolding judge
  judge_gone pid c reports dead h = ground (arith, dead, h)

  judge_stopped :
      (pid : ℕ) (c : ChildProcess) (reports : ℕ → Report)
      → c.terminated ≡ false
      → c.running ≡ false
      → has_error_callback m pid ≡ true
      → judge m (reporting reports) pid c
        ≡ (call_of pid (find pid m.error_callbacks) ++ [], keeps c, returns tt)
  unfolding judge
  judge_stopped pid c reports live r h = ground (arith, live, r, h)

  -- The child after `wait`.
  abbrev after : Report → ChildProcess → ChildProcess
  after nothing c = c
  after stop c = record c { running = false }
  after resume c = record c { running = true }
  after (exit_with status) c = record c { terminated = true; exit_status = status }
  after (killed_by sig) c = record c { terminated = true; exit_status = sig; died_on_signal = true }

  visit_judges :
      (reports : ℕ → Report) (pid : ℕ) (c : ChildProcess) (r : Report)
      → reports pid ≡ r
      → r ≢ nothing
      → (c.pid ≡ pid) × (pid ≢ 0)
      → IsLive c
      → visit m (reporting reports) pid c ≡ judge m (reporting reports) pid (after r c)
  unfolding visit waitable wait
  visit_judges reports pid c nothing e some_report h live = absurd (some_report refl)
  visit_judges reports pid c stop e some_report h live =
      rw e (ground (arith, h.0, h.1, live.0, live.1))
  visit_judges reports pid c resume e some_report h live =
      rw e (ground (arith, h.0, h.1, live.0, live.1))
  visit_judges reports pid c (exit_with status) e some_report h live =
      rw e (ground (arith, h.0, h.1, live.0, live.1))
  visit_judges reports pid c (killed_by sig) e some_report h live =
      rw e (ground (arith, h.0, h.1, live.0, live.1))

  abbrev verdict_of : Option ChildProcess → Verdict
  verdict_of none = erases
  verdict_of (some c) = keeps c

  visit_verdict :
      (reports : ℕ → Report) (pid : ℕ) (c : ChildProcess) (r : Report)
      → reports pid ≡ r
      → IsHandled m reports (pid, c)
      → visit m (reporting reports) pid c ≡ (news m pid r, verdict_of (left r c), returns tt)
  unfolding visit judge
  visit_verdict reports pid c nothing e h =
      rw (e, waitable_report pid c nothing h.0.0 h.0.1 h.1) refl
  visit_verdict reports pid c stop e h =
      let bad = subst (λ r. (is_bad r && not (has_error_callback m pid)) ≡ false) e h.2 in
      visit_judges reports pid c stop e (λ p. ground (arith, p)) h.0 h.1
      ∙ judge_stopped pid (after stop c) reports h.1.1 refl (ground (arith, bad))
  visit_verdict reports pid c resume e h =
      visit_judges reports pid c resume e (λ p. ground (arith, p)) h.0 h.1 ∙ ground (arith, h.1.1)
  visit_verdict reports pid c (exit_with status) e h =
      let bad = subst (λ r. (is_bad r && not (has_error_callback m pid)) ≡ false) e h.2 in
      visit_judges reports pid c (exit_with status) e (λ p. ground (arith, p)) h.0 h.1
      ∙ judge_gone pid (after (exit_with status) c) reports refl bad
  visit_verdict reports pid c (killed_by sig) e h =
      let bad = subst (λ r. (is_bad r && not (has_error_callback m pid)) ≡ false) e h.2 in
      visit_judges reports pid c (killed_by sig) e (λ p. ground (arith, p)) h.0 h.1
      ∙ judge_gone pid (after (killed_by sig) c) reports refl bad

  -- A bad report of a child without an error callback.
  pub visit_missing :
      (reports : ℕ → Report) (pid : ℕ) (c : ChildProcess) (r : Report)
      → reports pid ≡ r
      → (c.pid ≡ pid) × (pid ≢ 0)
      → IsLive c
      → (is_bad r && not (has_error_callback m pid)) ≡ true
      → visit m (reporting reports) pid c ≡ ([], clears, throws undefined)
  unfolding judge
  visit_missing reports pid c nothing e h live bad = absurd (ground (arith, bad))
  visit_missing reports pid c stop e h live bad =
      visit_judges reports pid c stop e (λ p. ground (arith, p)) h live
      ∙ ground (arith, bad, live.1)
  visit_missing reports pid c resume e h live bad = absurd (ground (arith, bad))
  visit_missing reports pid c (exit_with status) e h live bad =
      visit_judges reports pid c (exit_with status) e (λ p. ground (arith, p)) h live
      ∙ ground (arith, bad)
  visit_missing reports pid c (killed_by sig) e h live bad =
      visit_judges reports pid c (killed_by sig) e (λ p. ground (arith, p)) h live
      ∙ ground (arith, bad)

  -- Over children that are handled, the loop comes to the ones after them.
  pub sweep-append :
      (reports : ℕ → Report) (kept first rest : Children)
      → All (IsHandled m reports) first
      → sweep m (reporting reports) kept (first ++ rest)
        ≡ before
            (all_news m reports first)
            (sweep m (reporting reports) (kept ++ left_all reports first) rest)
  unfolding sweep
  sweep-append reports kept [] rest all = rw append-nil refl
  sweep-append reports kept ((pid, c) ∷ first) rest all =
      let again = sweep m (reporting reports) in
      ap (λ v. follow kept pid c (first ++ rest) v (λ kept'. again kept' (first ++ rest)))
        (visit_verdict reports pid c (reports pid) refl all.0)
      ∙ elim (Option-cases (left (reports pid) c)) [
        | inl gone ↦
            rw
              (
                gone,
                sweep-append reports kept first rest all.1,
                append_assoc (news m pid (reports pid)) (all_news m reports first),
              )
              refl
        | inr (c', stays) ↦
            rw
              (
                stays,
                sweep-append reports (kept ++ ((pid, c') ∷ [])) first rest all.1,
                append_assoc kept ((pid, c') ∷ []) (left_all reports first),
                append_assoc (news m pid (reports pid)) (all_news m reports first),
              )
              refl
      ]
