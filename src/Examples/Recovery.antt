-- ===== src/Examples/Recovery.antt =====
-- The theorems on retransmission requests and on the file of the last number at concrete inputs.
use itch_feed_handler.Common.{
  ℕ, ◌+◌, ◌-◌, ◌≡◌, inl, arith, refl, true, false, some, List, [], ◌∷◌, if◌then◌else◌, min,
}
use itch_feed_handler.Mold.{Session, header_of}
use itch_feed_handler.Sequence.{should_request_recovery}
use itch_feed_handler.Lifecycle.Manager.{no_session}
use itch_feed_handler.Recovery.Stream.{Sent, Written, write_all, write_all-Written}
use itch_feed_handler.Recovery.Request.{request_bytes, header_of-request_bytes, Connected}
use itch_feed_handler.Recovery.Recover.{RecoveryThread, handle_recovery, handle_recovery-once}

abbrev session : Session
session = record no_session { c0 = 48; c9 = 49 }

abbrev results : List Sent
results = Sent.took 3 ∷ Sent.interrupted ∷ Sent.took 9 ∷ []

write_all-Written_example : Written (λ i. i) 2 8 (write_all results (λ i. i) 2 8)
write_all-Written_example = write_all-Written results (λ i. i) 2 8

header_of-request_bytes_example :
    let h = header_of (request_bytes (λ i. 0) session 70000 300) in
    (h.session ≡ session) × (h.sequence_number ≡ 70000) × (h.message_count ≡ 300)
header_of-request_bytes_example =
    header_of-request_bytes (λ i. 0) session 70000 300 (omega arith) (omega arith)

-- A gap from 11 to the given number that was seen at 500.
abbrev thread : ℕ → RecoveryThread
thread last = record {
  detector = record {
    gap_timeout_ns = 1000;
    pending = true;
    gap = record { start_seq = 11; end_seq = last; detected_at_ns = 500; recovery_sent = false };
  };
  is_connected = true;
  session = session;
  requests = [];
}

handle_recovery-once_example :
    let gap = (thread 13).detector.gap in
    (t' : RecoveryThread) × (handle_recovery (thread 13) 2000 Connected.unreachable true ≡ some t')
    × (t'.requests ≡ (
        if true
        then (gap.start_seq, min (gap.end_seq - gap.start_seq + 1) 65535) ∷ (thread 13).requests
        else (thread 13).requests))
    × (should_request_recovery t'.detector 9000 ≡ false)
unfolding should_request_recovery
handle_recovery-once_example =
    handle_recovery-once (thread 13) 2000 9000 Connected.unreachable true refl (omega arith)
      (omega arith) (inl refl)
