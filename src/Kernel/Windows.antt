-- ===== src/Kernel/Windows.antt =====
-- The windows that kernel/tcp-astraea saves, over the calls that the kernel makes of the registered
-- functions, and the windows that its two `astraea_cong_control` set.
use astraea_open_source.Prelude.{
  ℕ, ◌≤◌, ◌<◌, ◌^◌, ◌≡◌, sym, ap, min, max, refl, arith, Bool-cases, inl, inr, ltb, if◌then◌else◌,
  List, [], ◌∷◌,
}
use astraea_open_source.Result.{ok}
use astraea_open_source.Kernel.{
  CaState, open_state, disorder, cwr, recovery, loss, state_code, Sock, RateSample,
  astraea_save_cwnd, astraea_ssthresh, astraea_undo_cwnd, astraea_set_state, astraea_cong_avoid,
  astraea_update_cwnd, clamped, astraea_cong_control, astraea_update_pacing_rate, magnitude,
}
use astraea_open_source.Kernel.Pacing.{bandwidth-ok}

-- A call of a function of `tcp_astraea_ops` other than `init`, or a window that someone else sets: the
-- kernel, or the program by the socket option.
pub data Event : Type 0 where
  ssthresh undo_cwnd cong_avoid : Event
  set_state : CaState → Event
  set_window : ℕ → Event

abbrev pub step : Sock → Event → Sock
unfolding astraea_ssthresh astraea_undo_cwnd
step sk ssthresh = (astraea_ssthresh sk).0
step sk undo_cwnd = record sk { snd_cwnd = astraea_undo_cwnd sk }
step sk cong_avoid = astraea_cong_avoid sk
step sk (set_state state) = astraea_set_state sk state
step sk (set_window w) = record sk { snd_cwnd = w }

abbrev pub run : Sock → List Event → Sock
run sk [] = sk
run sk (e ∷ es) = run (step sk e) es

-- The window after the events: the last that was set.
abbrev pub window_after : ℕ → List Event → ℕ
window_after w [] = w
window_after w (set_window v ∷ es) = window_after v es
window_after w (ssthresh ∷ es) = window_after w es
window_after w (undo_cwnd ∷ es) = window_after w es
window_after w (cong_avoid ∷ es) = window_after w es
window_after w (set_state state ∷ es) = window_after w es

-- The largest of `saved` and the windows at the calls of `ssthresh`.
abbrev pub peak : ℕ → ℕ → List Event → ℕ
peak saved w [] = saved
peak saved w (set_window v ∷ es) = peak saved v es
peak saved w (ssthresh ∷ es) = peak (max saved w) w es
peak saved w (undo_cwnd ∷ es) = peak saved w es
peak saved w (cong_avoid ∷ es) = peak saved w es
peak saved w (set_state state ∷ es) = peak saved w es

-- Once the state was loss, `prev_ca_state` stays so, whatever states follow.
set_state-loss :
    (sk : Sock) (state : CaState) → sk.prev_ca_state ≡ loss → astraea_set_state sk state ≡ sk
unfolding astraea_set_state
set_state-loss sk open_state h = refl
set_state-loss sk disorder h = refl
set_state-loss sk cwr h = refl
set_state-loss sk recovery h = refl
set_state-loss sk loss h = ap (λ (c : CaState). record sk { prev_ca_state = c }) (sym h)

save_cwnd-loss :
    (sk : Sock)
    → sk.prev_ca_state ≡ loss
    → astraea_save_cwnd sk ≡ record sk { saved_cwnd = max sk.saved_cwnd sk.snd_cwnd }
unfolding astraea_save_cwnd
save_cwnd-loss sk h =
    ap
      (λ (c : CaState). record sk {
        saved_cwnd = if ltb (state_code c) 3 then sk.snd_cwnd else max sk.saved_cwnd sk.snd_cwnd;
      })
      h

-- On a socket whose state for the module is a loss, after any calls of the registered functions but
-- `init`, and any windows set by the kernel or the program in between: the window is the last one that
-- was set; the saved window is the largest of itself and of the windows that the calls of `ssthresh`
-- found; and it has not fallen.
pub run-after_loss :
    (sk : Sock) (es : List Event)
    → sk.prev_ca_state ≡ loss
    → ((run sk es).snd_cwnd ≡ window_after sk.snd_cwnd es)
      × ((run sk es).saved_cwnd ≡ peak sk.saved_cwnd sk.snd_cwnd es)
      × (sk.saved_cwnd ≤ (run sk es).saved_cwnd)
unfolding astraea_ssthresh astraea_undo_cwnd astraea_cong_avoid
run-after_loss sk [] h = (refl, refl, omega arith)
run-after_loss sk (set_window v ∷ es) h = run-after_loss (record sk { snd_cwnd = v }) es h
run-after_loss sk (undo_cwnd ∷ es) h = run-after_loss sk es h
run-after_loss sk (cong_avoid ∷ es) h = run-after_loss sk es h
run-after_loss sk (set_state state ∷ es) h =
    rw (run, step, set_state-loss sk state h) (run-after_loss sk es h)
run-after_loss sk (ssthresh ∷ es) h =
    let rest = run-after_loss (record sk { saved_cwnd = max sk.saved_cwnd sk.snd_cwnd }) es h in
    rw (run, step, save_cwnd-loss sk h) (rest.0, rest.1, ground (arith, rest.2))

module _ (mtu_of : ℕ → ℕ) where
  -- The `astraea_cong_control` of tcp_astraea.c, which the table of operations does not name,
  -- sets on each sample of less than 2^32 microseconds a window of at most the clamp, and, up to the
  -- clamp, of at least the current window, both saved windows and the minimum: no saved window is
  -- lost, and no reduction stands.
  astraea_cong_control-restores :
      (sk : Sock) (rs : RateSample)
      → magnitude rs.interval_us < 2 ^ 32
      → (after : Sock) × (bw : ℕ) × (astraea_cong_control mtu_of sk rs ≡ ok (after, bw))
        × (after.snd_cwnd ≤ sk.snd_cwnd_clamp)
        × (min sk.snd_cwnd sk.snd_cwnd_clamp ≤ after.snd_cwnd)
        × (min sk.prior_cwnd sk.snd_cwnd_clamp ≤ after.snd_cwnd)
        × (min sk.saved_cwnd sk.snd_cwnd_clamp ≤ after.snd_cwnd)
        × (min sk.cwnd_min sk.snd_cwnd_clamp ≤ after.snd_cwnd)
  unfolding astraea_update_cwnd astraea_cong_control astraea_update_pacing_rate
  astraea_cong_control-restores sk rs hi =
      let bw = bandwidth-ok rs sk.mss_cache hi in
      let raised = record sk { snd_cwnd = max sk.snd_cwnd (max sk.prior_cwnd sk.saved_cwnd) } in
      rw (astraea_cong_control, bw.1)
        (elim (Bool-cases (ltb 1 sk.deepcc_enable)) [
          | inl e ↦
              rw (astraea_update_cwnd, e)
                (
                  astraea_update_pacing_rate mtu_of (record raised { snd_cwnd = clamped raised }),
                  bw.0,
                  refl,
                  omega arith,
                  omega arith,
                  omega arith,
                  omega arith,
                  omega arith,
                )
          | inr e ↦
              rw (astraea_update_cwnd, e)
                (
                  record raised { snd_cwnd = clamped raised },
                  bw.0,
                  refl,
                  omega arith,
                  omega arith,
                  omega arith,
                  omega arith,
                  omega arith,
                )
        ])
