-- ===== src/Mold/Packet.antt =====
-- src/protocol/moldudp64_parser.cpp: the header of a packet, and what makes a packet invalid.
use itch_feed_handler.Common.{
  if◌then◌else◌, ℕ, suc, ◌+◌, ◌^◌, ◌<◌, ◌≡◌, refl, fun_ext, arith, List, ◌∷◌, length, true, Memory,
  advance,
}
use itch_feed_handler.Wire.Encode.{memory_of, put16, put64, be16-at, be64-at}
use itch_feed_handler.Mold.{Session, MoldUdp64Header, is_heartbeat, header_size, parse}

abbrev put_session : Session → List ℕ → List ℕ
put_session s rest = s.c0 ∷ s.c1 ∷ s.c2 ∷ s.c3 ∷ s.c4 ∷ s.c5 ∷ s.c6 ∷ s.c7 ∷ s.c8 ∷ s.c9 ∷ rest

-- A packet on the wire: session, sequence number and message count, then the payload.
abbrev pub packet : MoldUdp64Header → List ℕ → List ℕ
packet h payload = put_session h.session (put64 h.sequence_number (put16 h.message_count payload))

after_header :
    (h : MoldUdp64Header) (payload : List ℕ)
    → advance (memory_of (packet h payload)) header_size ≡ memory_of payload
after_header h payload = fun_ext λ i. rw (shift i)
  where
    shift :
        (i : ℕ)
        → header_size + i
          ≡ suc (
              suc (
                suc (
                  suc (
                    suc (
                      suc (
                        suc (
                          suc (
                            suc (
                              suc (
                                suc
                                  (suc (suc (suc (suc (suc (suc (suc (suc (suc i)))))))))))))))))))
    shift i = omega arith

-- The header of an encoded packet is read back; a heartbeat has no messages, and of any other
-- packet all that follows the header is left to the message parser.
pub parse-packet :
    (blank : MoldUdp64Header) (null : Memory) (h : MoldUdp64Header) (payload : List ℕ)
    → h.sequence_number < 2 ^ 64
    → h.message_count < 2 ^ 16
    → parse blank null (memory_of (packet h payload)) (length (packet h payload)) ≡ (
        if is_heartbeat h
        then record { valid = true; header = h; messages_begin = null; messages_length = 0 }
        else record {
          valid = true;
          header = h;
          messages_begin = memory_of payload;
          messages_length = length payload;
        })
unfolding parse
parse-packet blank null h payload hs hm = ground (
  arith,
  be64-at (memory_of (packet h payload)) 10 h.sequence_number hs refl refl refl refl refl refl refl
      refl,
  be16-at (memory_of (packet h payload)) 18 h.message_count hm refl refl,
  after_header h payload,
)
