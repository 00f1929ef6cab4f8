-- ===== src/DeepCc/Report.antt =====
-- The JSON report of net/deepcc_socket.cc: its fields, its time base, and its loss ratio.
use astraea_open_source.Prelude.{
  ℕ, ◌+◌, ◌-◌, ◌*◌, ◌%◌, ◌^◌, ◌≤◌, ◌<◌, ◌≡◌, ◌↔◌, max, refl, true, pos, some, arith,
}
use astraea_open_source.Result.{ok}
use astraea_open_source.TcpInfo.{TcpInfo}
use astraea_open_source.Json.{Json, JsonLaws, Key}
use astraea_open_source.Real.{Real}
use astraea_open_source.DeepCc.{
  DeepCc, request_action, get_tcp_deepcc_info_json, lost_per_second, report, prepare_request_info,
}

-- The numerator of the loss ratio is the number of lost bytes times 1,000,000 exactly if at most
-- 4294 bytes were lost.
lost_per_second_iff :
    (info : TcpInfo)
    → (lost_per_second info ≡ info.lost_bytes * 1_000_000) ↔ (info.lost_bytes ≤ 4294)
unfolding lost_per_second
lost_per_second_iff info = (λ e. omega arith, λ h. omega arith)

module _ {J R : Type 0} (json : Json J R) (real : Real R) (laws : JsonLaws json) where
  -- What a reader finds under a key.
  abbrev pub Holds : J → Key → ℕ → Type 0
  Holds j k n = json.at j k ≡ some (json.of_int (pos n))

  -- What a report holds, key by key.
  pub at-report :
      (info : TcpInfo) (peak time_delta : ℕ)
      → let j = report json real info peak time_delta in
        Holds j Key.avg_thr info.avg_thr
        × Holds j Key.avg_urtt info.avg_urtt
        × Holds j Key.srtt_us info.srtt_us
        × Holds j Key.min_rtt info.min_rtt
        × Holds j Key.max_tput peak
        × Holds j Key.cwnd info.cwnd
        × Holds j Key.packets_out info.packets_out
        × Holds j Key.pacing_rate info.pacing_rate
        × Holds j Key.retrans_out info.retrans_out
        × Holds j Key.time_delta time_delta
  unfolding report
  at-report info peak time_delta =
      simp laws.at-put (refl, refl, refl, refl, refl, refl, refl, refl, refl, refl)

  -- On an enabled socket whose kernel answers, and if the clock has not gone back since the last
  -- request, a request returns a JSON report of the merged information. Its peak counts the new
  -- answer, its time span is the time since the last request and at least 1, and the next span
  -- starts now.
  pub get_tcp_deepcc_info_json_lem :
      (s : DeepCc) (now : ℕ) (i : TcpInfo)
      → s.enabled ≡ true
      → s.last_request_ts ≤ now
      → now < 2 ^ 64
      → let result = get_tcp_deepcc_info_json json real s request_action now (some i) in
        let merged = prepare_request_info i s.queue in
        (j : J) × (result.1 ≡ ok j)
        × Holds j Key.max_tput (max s.max_tput i.avg_thr)
        × Holds j Key.time_delta (max (now - s.last_request_ts) 1)
        × Holds j Key.cwnd merged.cwnd
        × Holds j Key.avg_thr merged.avg_thr
        × Holds j Key.avg_urtt merged.avg_urtt
        × ((result.0).last_request_ts ≡ now)
  unfolding get_tcp_deepcc_info_json
  get_tcp_deepcc_info_json_lem s now i h mono bound =
      let merged = prepare_request_info i s.queue in
      let peak = max s.max_tput i.avg_thr in
      let span : (now + 2 ^ 64 - s.last_request_ts) % 2 ^ 64 ≡ now - s.last_request_ts =
        omega arith in
      let delta = max (now - s.last_request_ts) 1 in
      let held = at-report merged peak delta in
      rw (h, span)
        (report json real merged peak delta, refl, held.4, held.9, held.5, held.0, held.1, refl)
