-- ===== src/DeepCc/Totals.antt =====
-- What the socket of net/deepcc_socket.cc hands to the controller, against what the kernel told it.
use astraea_open_source.Prelude.{
  ℕ, ◌+◌, ◌%◌, ◌^◌, ◌≡◌, refl, ap, true, false, List, [], ◌∷◌, ◌++◌, append_assoc, append-nil, ◌∙◌,
  some, arith,
}
use astraea_open_source.Result.{ok}
use astraea_open_source.TcpInfo.{TcpInfo, merge_info}
use astraea_open_source.DeepCc.{
  DeepCc, request_action, observe, get_tcp_deepcc_info, prepare_request_info,
}

-- The kernel's reports to a series of observations.
pub observe_all : DeepCc → List TcpInfo → DeepCc
observe_all s [] = s
observe_all s (i ∷ is) = observe_all (get_tcp_deepcc_info s observe (some i)).0 is

abbrev pub total : (TcpInfo → ℕ) → List TcpInfo → ℕ
total f [] = 0
total f (i ∷ is) = f i + total f is

-- A field that `merge_info` adds up.
abbrev pub IsCounted : (TcpInfo → ℕ) → Type 0
IsCounted f = (a b : TcpInfo) → f (merge_info a b) ≡ (f a + f b) % 2 ^ 32

pub cnt-IsCounted : IsCounted (λ i. i.cnt)
unfolding merge_info
cnt-IsCounted a b = refl

pub thr_cnt-IsCounted : IsCounted (λ i. i.thr_cnt)
unfolding merge_info
thr_cnt-IsCounted a b = refl

pub lost_bytes-IsCounted : IsCounted (λ i. i.lost_bytes)
unfolding merge_info
lost_bytes-IsCounted a b = refl

prepare_request_info-total :
    (f : TcpInfo → ℕ) (counted : IsCounted f) (info : TcpInfo) (os : List TcpInfo)
    → f (prepare_request_info info os) % 2 ^ 32 ≡ (f info + total f os) % 2 ^ 32
unfolding prepare_request_info
prepare_request_info-total f counted info [] = omega arith
prepare_request_info-total f counted info (o ∷ os) =
    omega (arith, prepare_request_info-total f counted (merge_info info o) os, counted info o)

-- Observations leave the socket enabled and enqueue what the kernel said, in order.
pub observe_all-queue :
    (s : DeepCc) (is : List TcpInfo)
    → s.enabled ≡ true
    → ((observe_all s is).queue ≡ s.queue ++ is) × ((observe_all s is).enabled ≡ true)
unfolding observe_all get_tcp_deepcc_info
observe_all-queue s [] h = (rw append-nil, h)
observe_all-queue s (i ∷ is) h =
    let next = (get_tcp_deepcc_info s observe (some i)).0 in
    let enqueued : next.queue ≡ s.queue ++ (i ∷ []) = ground arith in
    let ih = observe_all-queue next is (ground arith) in
    (ih.0 ∙ rw enqueued (append_assoc s.queue (i ∷ []) is), ih.1)

-- On an enabled socket with an empty queue, any number of observations and then a request report
-- as many samples, of either kind, and as many lost bytes, modulo 2 ^ 32, as the kernel's replies
-- hold together. The request leaves the queue empty and no observation pending.
pub request_action-total :
    (s : DeepCc) (is : List TcpInfo) (final : TcpInfo)
    → s.enabled ≡ true
    → s.queue ≡ []
    → let result = get_tcp_deepcc_info (observe_all s is) request_action (some final) in
      let kernel = final ∷ is in
      (info : TcpInfo) × (result.1 ≡ ok info)
      × (info.cnt % 2 ^ 32 ≡ total (λ i. i.cnt) kernel % 2 ^ 32)
      × (info.thr_cnt % 2 ^ 32 ≡ total (λ i. i.thr_cnt) kernel % 2 ^ 32)
      × (info.lost_bytes % 2 ^ 32 ≡ total (λ i. i.lost_bytes) kernel % 2 ^ 32)
      × ((result.0).queue ≡ [])
      × ((result.0).has_observe ≡ false)
unfolding get_tcp_deepcc_info
request_action-total s is final h e =
    let (queued, on) = observe_all-queue s is h in
    let queue : (observe_all s is).queue ≡ is = queued ∙ ap (λ q. q ++ is) e in
    rw (on, queue)
      (
        prepare_request_info final is,
        refl,
        prepare_request_info-total (λ i. i.cnt) cnt-IsCounted final is,
        prepare_request_info-total (λ i. i.thr_cnt) thr_cnt-IsCounted final is,
        prepare_request_info-total (λ i. i.lost_bytes) lost_bytes-IsCounted final is,
        refl,
        refl,
      )

observe_all-pending :
    (f : TcpInfo → ℕ) (counted : IsCounted f) (s : DeepCc) (is : List TcpInfo)
    → s.enabled ≡ true
    → s.has_observe ≡ true
    → f (observe_all s is).last_observe_info % 2 ^ 32
      ≡ (f s.last_observe_info + total f is) % 2 ^ 32
unfolding observe_all get_tcp_deepcc_info
observe_all-pending f counted s [] h o = omega arith
observe_all-pending f counted s (i ∷ is) h o =
    let next = (get_tcp_deepcc_info s observe (some i)).0 in
    let merged : next.last_observe_info ≡ merge_info i s.last_observe_info = ground arith in
    let ih = observe_all-pending f counted next is (ground arith) (ground arith) in
    omega (arith, ih, ap f merged, counted i s.last_observe_info)

observe-total_field :
    (f : TcpInfo → ℕ) (counted : IsCounted f) (s : DeepCc) (i : TcpInfo) (is : List TcpInfo)
    → s.enabled ≡ true
    → s.has_observe ≡ false
    → f (observe_all s (i ∷ is)).last_observe_info % 2 ^ 32
      ≡ total f (s.last_request_info ∷ i ∷ is) % 2 ^ 32
unfolding observe_all get_tcp_deepcc_info
observe-total_field f counted s i is h o =
    let next = (get_tcp_deepcc_info s observe (some i)).0 in
    let merged : next.last_observe_info ≡ merge_info i s.last_request_info = ground arith in
    let rest = observe_all-pending f counted next is (ground arith) (ground arith) in
    omega (arith, rest, ap f merged, counted i s.last_request_info)

-- On an enabled socket with no observation pending, after one or more observations the last
-- observed report counts, modulo 2 ^ 32, as many samples, of either kind, and as many lost bytes
-- as the kernel's replies to them and the report of the last request hold together.
pub observe-total :
    (s : DeepCc) (i : TcpInfo) (is : List TcpInfo)
    → s.enabled ≡ true
    → s.has_observe ≡ false
    → let last = (observe_all s (i ∷ is)).last_observe_info in
      let counted = s.last_request_info ∷ i ∷ is in
      (last.cnt % 2 ^ 32 ≡ total (λ i. i.cnt) counted % 2 ^ 32)
      × (last.thr_cnt % 2 ^ 32 ≡ total (λ i. i.thr_cnt) counted % 2 ^ 32)
      × (last.lost_bytes % 2 ^ 32 ≡ total (λ i. i.lost_bytes) counted % 2 ^ 32)
unfolding observe_all
observe-total s i is h o = (
  observe-total_field (λ i. i.cnt) cnt-IsCounted s i is h o,
  observe-total_field (λ i. i.thr_cnt) thr_cnt-IsCounted s i is h o,
  observe-total_field (λ i. i.lost_bytes) lost_bytes-IsCounted s i is h o,
)
