-- ===== src/Recovery/Recover.antt =====
-- src/workers/recovery_thread.cpp, `handle_recovery` and `recv_retransmitted`: a gap that lasts is asked
-- for once, and the packets that come back go into the ring.
use itch_feed_handler.Common.{
  ℕ, zero, suc, ◌+◌, ◌-◌, ◌%◌, ◌^◌, ◌≤◌, ◌<◌, ◌≡◌, arith, Bool, true, false, ◌||◌, not, min, ◌⊎◌,
  inl, inr, Bool-cases, Option, none, some, List, [], ◌∷◌, ltb, if◌then◌else◌, Memory,
}
use itch_feed_handler.Types.{Timestamp}
use itch_feed_handler.Mold.{Session}
use itch_feed_handler.Sequence.{GapDetector, should_request_recovery, mark_recovery_sent}
use itch_feed_handler.Rings.Slots.{ZeroCopyRing, inject_recovered_packet}
use itch_feed_handler.Recovery.Request.{Connected}

-- `requests` holds the requests that were handed to the socket, the latest first.
pub record RecoveryThread : Type 0 where
  pub detector : GapDetector
  pub is_connected : Bool
  pub session : Session
  pub requests : List (ℕ × ℕ)

-- The start of the range and the count of a request.
unfoldable pub request_count : ℕ → ℕ → ℕ
request_count start_seq end_seq =
    let count = (end_seq + 2 ^ 64 - start_seq + 1) % 2 ^ 64 in
    if ltb 65535 count then 65535 else count

-- The end of `handle_recovery`: what `request` returns is not looked at. `sent` is false if the socket
-- refused the request.
unfoldable pub ask : RecoveryThread → Bool → RecoveryThread
ask t sent =
    let gap = t.detector.gap in
    record t {
      detector = mark_recovery_sent t.detector;
      requests =
          if sent
          then (gap.start_seq, request_count gap.start_seq gap.end_seq) ∷ t.requests
          else t.requests;
    }

-- `RecoveryThread::handle_recovery`, with what connecting comes to if it is tried; `none` if the
-- program exits.
unfoldable pub handle_recovery :
    RecoveryThread → Timestamp → Connected → Bool → Option RecoveryThread
handle_recovery t now tried sent =
    if not t.detector.pending || not (should_request_recovery t.detector now)
    then some t
    else if t.is_connected
    then some (ask t sent)
    else elim tried [
      | Connected.ready ↦ some (ask (record t { is_connected = true }) sent)
      | Connected.unreachable ↦ some t
      | Connected.exited ↦ none
    ]

-- A gap that is due, with a connection at hand or to be had, is asked for from its start on, up to
-- 65535 numbers; then it is not asked for again, whether or not the socket took the request.
pub handle_recovery-once :
    (t : RecoveryThread) (now later : Timestamp) (tried : Connected) (sent : Bool)
    → should_request_recovery t.detector now ≡ true
    → t.detector.gap.start_seq ≤ t.detector.gap.end_seq
    → t.detector.gap.end_seq + 1 < 2 ^ 64
    → (t.is_connected ≡ true) ⊎ (tried ≡ Connected.ready)
    → let gap = t.detector.gap in
      (t' : RecoveryThread) × (handle_recovery t now tried sent ≡ some t')
      × (t'.requests ≡ (
          if sent
          then (gap.start_seq, min (gap.end_seq - gap.start_seq + 1) 65535) ∷ t.requests
          else t.requests))
      × (should_request_recovery t'.detector later ≡ false)
unfolding handle_recovery ask should_request_recovery mark_recovery_sent request_count
handle_recovery-once t now later tried sent due ordered small (inl on) =
    (ask t sent, ground arith, ground arith, ground arith)
handle_recovery-once t now later tried sent due ordered small (inr ready) =
    elim (Bool-cases t.is_connected) [
      | inl on ↦ (ask t sent, ground arith, ground arith, ground arith)
      | inr off ↦
          (ask (record t { is_connected = true }) sent, ground arith, ground arith, ground arith)
    ]

-- While no connection can be had, nothing changes, so the gap is asked for later.
pub handle_recovery-waits :
    (t : RecoveryThread) (now : Timestamp) (sent : Bool)
    → t.is_connected ≡ false
    → handle_recovery t now Connected.unreachable sent ≡ some t
unfolding handle_recovery
handle_recovery-waits t now sent off = ground arith

-- What `recv` of the client returns: a packet, or none for now or any more.
pub data Retransmitted : Type 0 where
  nothing : Retransmitted
  packet : Memory → ℕ → Timestamp → Retransmitted

-- The loop of `recv_retransmitted`, with n rounds left.
unfoldable pub recv_loop : ℕ → List Retransmitted → ZeroCopyRing → ℕ → ℕ → ZeroCopyRing × ℕ × ℕ
recv_loop zero arrivals r drops recovered = (r, drops, recovered)
recv_loop (suc n) [] r drops recovered = (r, drops, recovered)
recv_loop (suc n) (nothing ∷ arrivals) r drops recovered = (r, drops, recovered)
recv_loop (suc n) (packet bytes len ts ∷ arrivals) r drops recovered =
    let i = inject_recovered_packet r bytes len ts drops recovered in
    recv_loop n arrivals i.ring i.drops i.recovered

-- `RecoveryThread::recv_retransmitted`
unfoldable pub recv_retransmitted :
    Bool → List Retransmitted → ZeroCopyRing → ℕ → ℕ → ZeroCopyRing × ℕ × ℕ
recv_retransmitted is_connected arrivals r drops recovered =
    let done = recv_loop 64 arrivals r drops recovered in
    if is_connected then done else (r, drops, recovered)

-- The part of a gap beyond 65535 numbers is never asked for: the one request ends before it.
pub handle_recovery-truncates :
    (t : RecoveryThread) (now : Timestamp) (tried : Connected)
    → should_request_recovery t.detector now ≡ true
    → t.is_connected ≡ true
    → t.detector.gap.start_seq + 65535 ≤ t.detector.gap.end_seq
    → t.detector.gap.end_seq + 1 < 2 ^ 64
    → (t' : RecoveryThread) × (handle_recovery t now tried true ≡ some t')
      × (t'.requests ≡ (t.detector.gap.start_seq, 65535) ∷ t.requests)
      × (t.detector.gap.start_seq + 65535 - 1 < t.detector.gap.end_seq)
      × ((later : Timestamp) → should_request_recovery t'.detector later ≡ false)
unfolding handle_recovery ask should_request_recovery mark_recovery_sent request_count
handle_recovery-truncates t now tried due on long small =
    (ask t true, ground arith, ground arith, ground arith, λ later. ground arith)
