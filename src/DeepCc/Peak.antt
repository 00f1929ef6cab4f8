-- ===== src/DeepCc/Peak.antt =====
-- The fields of net/deepcc_socket.hh over a whole run: the peak throughput and the enabled flag.
use astraea_open_source.Prelude.{
  ℕ, ◌≡◌, refl, max, ℤ, Bool, true, false, List, [], ◌∷◌, Option, none, some, arith, ◌≢◌,
}
use astraea_open_source.Result.{err, runtime_error}
use astraea_open_source.TcpInfo.{TcpInfo}
use astraea_open_source.DeepCc.{
  DeepCc, RequestType, request_action, observe, construct, enable_deepcc, get_tcp_deepcc_info,
  set_tcp_cwnd,
}

-- A call on the socket, with what the kernel answers.
pub data Call : Type 0 where
  enable : Bool → Call
  get_info : RequestType → Option TcpInfo → Call

unfoldable pub step : DeepCc → Call → DeepCc
unfolding enable_deepcc get_tcp_deepcc_info
step s (enable accepted) = (enable_deepcc s accepted).0
step s (get_info type reply) = (get_tcp_deepcc_info s type reply).0

unfoldable pub run : DeepCc → List Call → DeepCc
unfolding step
run s [] = s
run s (c ∷ cs) = run (step s c) cs

-- The largest throughput that a call reads.
abbrev pub peak : ℕ → List Call → ℕ
peak top [] = top
peak top (enable accepted ∷ cs) = peak top cs
peak top (get_info type none ∷ cs) = peak top cs
peak top (get_info type (some i) ∷ cs) = peak (max top i.avg_thr) cs

run-peak :
    (s : DeepCc) (cs : List Call)
    → s.enabled ≡ true
    → ((run s cs).enabled ≡ true) × ((run s cs).max_tput ≡ peak s.max_tput cs)
unfolding run
run-peak s [] h = (h, refl)
run-peak s (enable true ∷ cs) h = ground (arith, run-peak (step s (enable true)) cs)
run-peak s (enable false ∷ cs) h = ground (arith, run-peak (step s (enable false)) cs)
run-peak s (get_info request_action none ∷ cs) h = ground (arith, run-peak s cs)
run-peak s (get_info observe none ∷ cs) h = ground (arith, run-peak s cs)
run-peak s (get_info request_action (some i) ∷ cs) h =
    ground (arith, run-peak (step s (get_info request_action (some i))) cs)
run-peak s (get_info observe (some i) ∷ cs) h =
    ground (arith, run-peak (step s (get_info observe (some i))) cs)

-- After any calls on a new socket, `max_tput` is the largest throughput that the kernel reported.
max_tput-run : (cs : List Call) → (run construct cs).max_tput ≡ peak 0 cs
unfolding construct
max_tput-run cs = (run-peak construct cs refl).1

-- On a new socket, after any calls, whether or not `enable_deepcc` was among them or succeeded,
-- `get_tcp_deepcc_info` and `set_tcp_cwnd` never throw their `runtime_error`.
run_never_inactive :
    (cs : List Call) (type : RequestType) (reply : Option TcpInfo) (cwnd : ℤ) (accepted : Bool)
    → ((get_tcp_deepcc_info (run construct cs) type reply).1 ≢ err runtime_error)
      × (set_tcp_cwnd (run construct cs) cwnd accepted ≢ err runtime_error)
unfolding construct get_tcp_deepcc_info set_tcp_cwnd
run_never_inactive cs type reply cwnd accepted =
    let on = (run-peak construct cs refl).0 in ground (arith, on)
