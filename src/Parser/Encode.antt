-- ===== src/Parser/Encode.antt =====
-- The ITCH 5.0 encoding of the messages that `parse_message` decodes field by field, written from
-- the message formats: fields in order, big-endian, with no reference to the structs.
use itch_feed_handler.Common.{ℕ, ◌^◌, ◌<◌, ◌≡◌, List, ◌∷◌, Bool, true, false}
use itch_feed_handler.Types.{Side, side_of, MessageType, code_of}
use itch_feed_handler.Message.{Body, ItchMsg}
use itch_feed_handler.Wire.Encode.{put16, put32, put48, put64, put_chars4, put_chars8}

unfoldable pub side_code : Side → ℕ
side_code Side.buy = b'B'
side_code Side.sell = b'S'
side_code (Side.other c) = c

abbrev pub printable_code : Bool → ℕ
printable_code true = b'Y'
printable_code false = b'N'

-- What follows the 11 bytes of the common header.
abbrev pub encode_body : MessageType → Body → List ℕ → List ℕ
encode_body MessageType.add_order (Body.add_order a) rest =
    put64 a.ref (side_code a.side ∷ put32 a.shares (put_chars8 a.stock (put32 a.price rest)))
encode_body MessageType.add_order_mpid (Body.add_order a) rest = put64 a.ref (
    side_code a.side
    ∷ put32 a.shares (put_chars8 a.stock (put32 a.price (put_chars4 a.attribution rest))))
encode_body MessageType.order_executed (Body.order_executed e) rest =
    put64 e.ref (put32 e.executed_shares (put64 e.match_number rest))
encode_body MessageType.order_executed_price (Body.order_executed_price e) rest = put64 e.ref (
    put32 e.executed_shares
      (put64 e.match_number (printable_code e.printable ∷ put32 e.price rest)))
encode_body MessageType.order_cancel (Body.order_cancel c) rest =
    put64 c.ref (put32 c.cancelled_shares rest)
encode_body MessageType.order_delete (Body.order_delete ref) rest = put64 ref rest
encode_body MessageType.order_replace (Body.order_replace r) rest =
    put64 r.orig_ref (put64 r.new_ref (put32 r.new_shares (put32 r.new_price rest)))
encode_body MessageType.trade (Body.trade t) rest = put64 t.ref (
    side_code t.side
    ∷ put32 t.shares (put_chars8 t.stock (put32 t.price (put64 t.match_number rest))))
encode_body MessageType.cross_trade (Body.cross_trade t) rest =
    put64 t.shares
      (put_chars8 t.stock (put32 t.cross_price (put64 t.match_number (t.cross_type ∷ rest))))
encode_body MessageType.broken_trade (Body.broken_trade n) rest = put64 n rest
encode_body MessageType.system_event (Body.system_event c) rest = c ∷ rest
encode_body _ _ rest = rest

-- The bodies that go with a type and fit its fields.
abbrev pub Fits : MessageType → Body → Type 0
Fits MessageType.add_order (Body.add_order a) =
    (a.ref < 2 ^ 64)
    × (a.shares < 2 ^ 32)
    × (a.price < 2 ^ 32)
    × (side_of (side_code a.side) ≡ a.side)
    × (a.attribution ≡ record { c0 = 0; c1 = 0; c2 = 0; c3 = 0 })
Fits MessageType.add_order_mpid (Body.add_order a) =
    (a.ref < 2 ^ 64)
    × (a.shares < 2 ^ 32)
    × (a.price < 2 ^ 32)
    × (side_of (side_code a.side) ≡ a.side)
Fits MessageType.order_executed (Body.order_executed e) =
    (e.ref < 2 ^ 64) × (e.executed_shares < 2 ^ 32) × (e.match_number < 2 ^ 64)
Fits MessageType.order_executed_price (Body.order_executed_price e) =
    (e.ref < 2 ^ 64) × (e.executed_shares < 2 ^ 32) × (e.match_number < 2 ^ 64) × (e.price < 2 ^ 32)
Fits MessageType.order_cancel (Body.order_cancel c) =
    (c.ref < 2 ^ 64) × (c.cancelled_shares < 2 ^ 32)
Fits MessageType.order_delete (Body.order_delete ref) = ref < 2 ^ 64
Fits MessageType.order_replace (Body.order_replace r) =
    (r.orig_ref < 2 ^ 64) × (r.new_ref < 2 ^ 64) × (r.new_shares < 2 ^ 32) × (r.new_price < 2 ^ 32)
Fits MessageType.trade (Body.trade t) =
    (t.ref < 2 ^ 64)
    × (t.shares < 2 ^ 32)
    × (t.price < 2 ^ 32)
    × (t.match_number < 2 ^ 64)
    × (side_of (side_code t.side) ≡ t.side)
Fits MessageType.cross_trade (Body.cross_trade t) =
    (t.shares < 2 ^ 64) × (t.cross_price < 2 ^ 32) × (t.match_number < 2 ^ 64)
Fits MessageType.broken_trade (Body.broken_trade n) = n < 2 ^ 64
Fits MessageType.system_event (Body.system_event c) = c < 256
Fits _ _ = ⊥

-- The lengths that the formats give.
abbrev pub wire_length : MessageType → ℕ
wire_length MessageType.add_order = 36
wire_length MessageType.add_order_mpid = 40
wire_length MessageType.order_executed = 31
wire_length MessageType.order_executed_price = 36
wire_length MessageType.order_cancel = 23
wire_length MessageType.order_delete = 19
wire_length MessageType.order_replace = 35
wire_length MessageType.trade = 44
wire_length MessageType.cross_trade = 40
wire_length MessageType.broken_trade = 19
wire_length MessageType.system_event = 12
wire_length _ = 0

-- A whole message, in front of whatever follows it.
abbrev pub encode : ℕ → ItchMsg → List ℕ → List ℕ
encode tracking msg rest =
    code_of msg.type
    ∷ put16 msg.locate (put16 tracking (put48 msg.timestamp (encode_body msg.type msg.body rest)))
