-- ===== src/DeepCc/Tests.antt =====
-- The theorems on net/deepcc_socket.cc, on the reports of a connection.
use astraea_open_source.Prelude.{◌%◌, ◌^◌, ◌≡◌, refl, true, false, [], ◌∷◌, some, arith}
use astraea_open_source.Result.{ok}
use astraea_open_source.TcpInfo.{TcpInfo}
use astraea_open_source.TcpInfo.Tests.{fast, slow}
use astraea_open_source.Json.{Key}
use astraea_open_source.Json.Tokens.{Tree, tree_json, tree_json_laws}
use astraea_open_source.Real.Thousandths.{thousandths}
use astraea_open_source.DeepCc.{
  DeepCc, request_action, get_tcp_deepcc_info, get_tcp_deepcc_info_json, prepare_request_info,
}
use astraea_open_source.DeepCc.Totals.{observe_all, request_action-total, observe-total}
use astraea_open_source.DeepCc.Report.{Holds, get_tcp_deepcc_info_json_lem}

-- A socket that has answered one request, 100 microseconds after the clock's zero.
abbrev busy : DeepCc
busy = record {
  enabled = true;
  queue = [];
  max_tput = 700_000;
  last_observe_ts = 0;
  last_request_ts = 100;
  last_request_info = slow;
  last_observe_info = slow;
  has_observe = false;
}

request_action-total_example :
    (info : TcpInfo) × ((get_tcp_deepcc_info
        (observe_all busy (fast ∷ slow ∷ []))
        request_action
        (some fast)).1
      ≡ ok info)
    × (info.cnt % 2 ^ 32 ≡ 7)
    × (info.thr_cnt % 2 ^ 32 ≡ 8)
    × (info.lost_bytes % 2 ^ 32 ≡ 5840)
    × (((get_tcp_deepcc_info (observe_all busy (fast ∷ slow ∷ [])) request_action (some fast)).0
          ).queue
        ≡ [])
    × (((get_tcp_deepcc_info (observe_all busy (fast ∷ slow ∷ [])) request_action (some fast)).0
          ).has_observe
        ≡ false)
request_action-total_example = request_action-total busy (fast ∷ slow ∷ []) fast refl refl

observe-total_example :
    ((observe_all busy (fast ∷ fast ∷ [])).last_observe_info.cnt % 2 ^ 32 ≡ 7)
    × ((observe_all busy (fast ∷ fast ∷ [])).last_observe_info.thr_cnt % 2 ^ 32 ≡ 8)
    × ((observe_all busy (fast ∷ fast ∷ [])).last_observe_info.lost_bytes % 2 ^ 32 ≡ 5840)
observe-total_example = observe-total busy fast (fast ∷ []) refl refl

get_tcp_deepcc_info_json_example :
    (j : Tree) × ((get_tcp_deepcc_info_json tree_json thousandths busy request_action 20_100
        (some fast)).1
      ≡ ok j)
    × Holds tree_json thousandths tree_json_laws j Key.max_tput 900_000
    × Holds tree_json thousandths tree_json_laws j Key.time_delta 20_000
    × Holds tree_json thousandths tree_json_laws j Key.cwnd (prepare_request_info fast []).cwnd
    × Holds tree_json thousandths tree_json_laws j Key.avg_thr
        (prepare_request_info fast []).avg_thr
    × Holds tree_json thousandths tree_json_laws j Key.avg_urtt
        (prepare_request_info fast []).avg_urtt
    × (((get_tcp_deepcc_info_json tree_json thousandths busy request_action 20_100 (some fast)).0
          ).last_request_ts
        ≡ 20_100)
get_tcp_deepcc_info_json_example =
    get_tcp_deepcc_info_json_lem tree_json thousandths tree_json_laws busy 20_100 fast refl
      (omega arith) (omega arith)
