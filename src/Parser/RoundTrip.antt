-- ===== src/Parser/RoundTrip.antt =====
-- parse_message undoes the encoding of a message.
use itch_feed_handler.Common.{
  ℕ, ◌/◌, ◌%◌, ◌^◌, ◌≤◌, ◌<◌, ◌≡◌, ◌==◌, refl, arith, List, ◌∷◌, some, Bool, true, false, Memory,
}
use itch_feed_handler.Types.{MessageType, message_type_of, code_of}
use itch_feed_handler.Message.{Body, ItchMsg}
use itch_feed_handler.Wire.Encode.{be16-at, be32-at, be48-at, be64-at, memory_of}
use itch_feed_handler.Parser.Switch.{parse_body}
use itch_feed_handler.Parser.Message.{parse_message}
use itch_feed_handler.Parser.Encode.{printable_code, encode_body, Fits, wire_length, encode}

printable_lem : (b : Bool) → (printable_code b == b'Y') ≡ b
printable_lem true = refl
printable_lem false = refl

module _ (h0 h1 h2 h3 h4 h5 h6 h7 h8 h9 h10 : ℕ) (rest : List ℕ) where
  -- A message with any header.
  abbrev memory : MessageType → Body → Memory
  memory t b =
      memory_of (h0 ∷ h1 ∷ h2 ∷ h3 ∷ h4 ∷ h5 ∷ h6 ∷ h7 ∷ h8 ∷ h9 ∷ h10 ∷ encode_body t b rest)

  parse_body-encode_body :
      (t : MessageType) (b : Body) → Fits t b → parse_body t (memory t b) (wire_length t) ≡ some b
  unfolding parse_body
  parse_body-encode_body MessageType.system_event (Body.system_event a) f = refl
  parse_body-encode_body MessageType.add_order (Body.add_order a) f = ground (
    arith,
    be64-at (memory MessageType.add_order (Body.add_order a)) 11 (a.ref) (omega arith) refl refl
        refl refl refl refl refl refl,
    be32-at (memory MessageType.add_order (Body.add_order a)) 20 (a.shares) (omega arith) refl refl
        refl refl,
    be32-at (memory MessageType.add_order (Body.add_order a)) 32 (a.price) (omega arith) refl refl
        refl refl,
  )
  parse_body-encode_body MessageType.add_order_mpid (Body.add_order a) f = ground (
    arith,
    be64-at (memory MessageType.add_order_mpid (Body.add_order a)) 11 (a.ref) (omega arith) refl
        refl refl refl refl refl refl refl,
    be32-at (memory MessageType.add_order_mpid (Body.add_order a)) 20 (a.shares) (omega arith) refl
        refl refl refl,
    be32-at (memory MessageType.add_order_mpid (Body.add_order a)) 32 (a.price) (omega arith) refl
        refl refl refl,
  )
  parse_body-encode_body MessageType.order_executed (Body.order_executed a) f = ground (
    arith,
    be64-at (memory MessageType.order_executed (Body.order_executed a)) 11 (a.ref) (omega arith)
        refl refl refl refl refl refl refl refl,
    be32-at (memory MessageType.order_executed (Body.order_executed a)) 19 (a.executed_shares)
        (omega arith) refl refl refl refl,
    be64-at (memory MessageType.order_executed (Body.order_executed a)) 23 (a.match_number)
        (omega arith) refl refl refl refl refl refl refl refl,
  )
  parse_body-encode_body MessageType.order_executed_price (Body.order_executed_price a) f = ground (
    arith,
    be64-at (memory MessageType.order_executed_price (Body.order_executed_price a)) 11 (a.ref)
        (omega arith) refl refl refl refl refl refl refl refl,
    be32-at (memory MessageType.order_executed_price (Body.order_executed_price a)) 19
        (a.executed_shares) (omega arith) refl refl refl refl,
    be64-at (memory MessageType.order_executed_price (Body.order_executed_price a)) 23
        (a.match_number) (omega arith) refl refl refl refl refl refl refl refl,
    be32-at (memory MessageType.order_executed_price (Body.order_executed_price a)) 32 (a.price)
        (omega arith) refl refl refl refl,
    printable_lem a.printable,
  )
  parse_body-encode_body MessageType.order_cancel (Body.order_cancel a) f = ground (
    arith,
    be64-at (memory MessageType.order_cancel (Body.order_cancel a)) 11 (a.ref) (omega arith) refl
        refl refl refl refl refl refl refl,
    be32-at (memory MessageType.order_cancel (Body.order_cancel a)) 19 (a.cancelled_shares)
        (omega arith) refl refl refl refl,
  )
  parse_body-encode_body MessageType.order_delete (Body.order_delete a) f = ground (
    arith,
    be64-at (memory MessageType.order_delete (Body.order_delete a)) 11 (a) (omega arith) refl refl
        refl refl refl refl refl refl,
  )
  parse_body-encode_body MessageType.order_replace (Body.order_replace a) f = ground (
    arith,
    be64-at (memory MessageType.order_replace (Body.order_replace a)) 11 (a.orig_ref) (omega arith)
        refl refl refl refl refl refl refl refl,
    be64-at (memory MessageType.order_replace (Body.order_replace a)) 19 (a.new_ref) (omega arith)
        refl refl refl refl refl refl refl refl,
    be32-at (memory MessageType.order_replace (Body.order_replace a)) 27 (a.new_shares)
        (omega arith) refl refl refl refl,
    be32-at (memory MessageType.order_replace (Body.order_replace a)) 31 (a.new_price) (omega arith)
        refl refl refl refl,
  )
  parse_body-encode_body MessageType.trade (Body.trade a) f = ground (
    arith,
    be64-at (memory MessageType.trade (Body.trade a)) 11 (a.ref) (omega arith) refl refl refl refl
        refl refl refl refl,
    be32-at (memory MessageType.trade (Body.trade a)) 20 (a.shares) (omega arith) refl refl refl
        refl,
    be32-at (memory MessageType.trade (Body.trade a)) 32 (a.price) (omega arith) refl refl refl
        refl,
    be64-at (memory MessageType.trade (Body.trade a)) 36 (a.match_number) (omega arith) refl refl
        refl refl refl refl refl refl,
  )
  parse_body-encode_body MessageType.cross_trade (Body.cross_trade a) f = ground (
    arith,
    be64-at (memory MessageType.cross_trade (Body.cross_trade a)) 11 (a.shares) (omega arith) refl
        refl refl refl refl refl refl refl,
    be32-at (memory MessageType.cross_trade (Body.cross_trade a)) 27 (a.cross_price) (omega arith)
        refl refl refl refl,
    be64-at (memory MessageType.cross_trade (Body.cross_trade a)) 31 (a.match_number) (omega arith)
        refl refl refl refl refl refl refl refl,
  )
  parse_body-encode_body MessageType.broken_trade (Body.broken_trade a) f = ground (
    arith,
    be64-at (memory MessageType.broken_trade (Body.broken_trade a)) 11 (a) (omega arith) refl refl
        refl refl refl refl refl refl,
  )
  parse_body-encode_body _ _ f = absurd f

Fits-known :
    (t : MessageType) (b : Body)
    → Fits t b
    → (message_type_of (code_of t) ≡ t) × (11 ≤ wire_length t)
unfolding message_type_of code_of
Fits-known MessageType.system_event (Body.system_event a) f = (refl, omega arith)
Fits-known MessageType.add_order (Body.add_order a) f = (refl, omega arith)
Fits-known MessageType.add_order_mpid (Body.add_order a) f = (refl, omega arith)
Fits-known MessageType.order_executed (Body.order_executed a) f = (refl, omega arith)
Fits-known MessageType.order_executed_price (Body.order_executed_price a) f = (refl, omega arith)
Fits-known MessageType.order_cancel (Body.order_cancel a) f = (refl, omega arith)
Fits-known MessageType.order_delete (Body.order_delete a) f = (refl, omega arith)
Fits-known MessageType.order_replace (Body.order_replace a) f = (refl, omega arith)
Fits-known MessageType.trade (Body.trade a) f = (refl, omega arith)
Fits-known MessageType.cross_trade (Body.cross_trade a) f = (refl, omega arith)
Fits-known MessageType.broken_trade (Body.broken_trade a) f = (refl, omega arith)
Fits-known _ _ f = absurd f

-- Every message of an order, trade, cross, broken trade or system event type whose fields fit,
-- encoded as the ITCH format says, is parsed back whole: type, locate code, timestamp and all fields
-- of its body, whatever follows it in memory.
pub parse_message-encode :
    (msg : ItchMsg) (tracking : ℕ) (rest : List ℕ)
    → Fits msg.type msg.body
    → msg.locate < 2 ^ 16
    → msg.timestamp < 2 ^ 48
    → parse_message msg.recv_timestamp (memory_of (encode tracking msg rest)) (wire_length msg.type)
      ≡ some msg
unfolding parse_message
parse_message-encode msg tracking rest f hl ht = ground (
  arith,
  Fits-known msg.type msg.body f,
  parse_body-encode_body (code_of msg.type) (msg.locate / 2 ^ 8 % 256) (msg.locate % 256)
      (tracking / 2 ^ 8 % 256) (tracking % 256) (msg.timestamp / 2 ^ 40 % 256)
      (msg.timestamp / 2 ^ 32 % 256) (msg.timestamp / 2 ^ 24 % 256) (msg.timestamp / 2 ^ 16 % 256)
      (msg.timestamp / 2 ^ 8 % 256) (msg.timestamp % 256) rest msg.type msg.body f,
  be16-at (memory_of (encode tracking msg rest)) 1 msg.locate hl refl refl,
  be48-at (memory_of (encode tracking msg rest)) 5 msg.timestamp ht refl refl refl refl refl refl,
)
