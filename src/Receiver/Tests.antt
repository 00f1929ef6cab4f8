-- ===== src/Receiver/Tests.antt =====
-- The theorem on server.cc, on a round of half a second.
use astraea_open_source.Prelude.{◌≡◌, pos, arith}
use astraea_open_source.Result.{ok}
use astraea_open_source.Receiver.{receive, log_round}
use astraea_open_source.Receiver.Throughput.{log_round-receive}

log_round-receive_example :
    log_round (receive (record { recv_cnt = 9; last_observed_recv_cnt = 9 }) 1_250_000) (pos 500)
    ≡ ok (20, record { recv_cnt = 1_250_009; last_observed_recv_cnt = 1_250_009 })
log_round-receive_example =
    log_round-receive 9 1_250_000 500 (omega arith) (omega arith) (omega arith) (omega arith)
