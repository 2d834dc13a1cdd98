-- ===== src/Parser/Kinds.antt =====
-- The messages that the parser makes fit the books: the type of an order message and the member of the
-- union that is filled go together.
use itch_feed_handler.Common.{
  ℕ, ◌≡◌, refl, subst, sym, ◌∙◌, Bool, true, false, none, some, Memory, if◌then◌else◌, ltb,
  Option-cases, Bool-cases, inl, inr, ap, ◌≢◌, leb, advance,
}
use mathlib.Core.Option.{some-injective, some-ne-none}
use itch_feed_handler.Types.{MessageType, Timestamp, message_type_of}
use itch_feed_handler.Message.{ItchMsg, Body}
use itch_feed_handler.Parser.Switch.{parse_body}
use itch_feed_handler.Parser.Message.{parse_message, off_locate, off_payload, off_timestamp}
use itch_feed_handler.Wire.{be16, be48}
use itch_feed_handler.Shard.Feeding.{fits}

-- A case of the `switch` returns the member that it fills, or nothing.
case-fits :
    (t : MessageType) (c : Bool) (b0 b : Body)
    → fits t b0 ≡ true
    → (if c then none else some b0) ≡ some b
    → fits t b ≡ true
case-fits t true b0 b h e = absurd (some-ne-none _ (sym e))
case-fits t false b0 b h e = subst (λ x. fits t x ≡ true) (some-injective _ _ e) h

parse_body-fits :
    (t : MessageType) (m : Memory) (len : ℕ) (b : Body)
    → parse_body t m len ≡ some b
    → fits t b ≡ true
unfolding parse_body
parse_body-fits MessageType.add_order m len b e = case-fits MessageType.add_order _ _ b refl e
parse_body-fits MessageType.add_order_mpid m len b e =
    case-fits MessageType.add_order_mpid _ _ b refl e
parse_body-fits MessageType.order_executed m len b e =
    case-fits MessageType.order_executed _ _ b refl e
parse_body-fits MessageType.order_executed_price m len b e =
    case-fits MessageType.order_executed_price _ _ b refl e
parse_body-fits MessageType.order_cancel m len b e = case-fits MessageType.order_cancel _ _ b refl e
parse_body-fits MessageType.order_delete m len b e = case-fits MessageType.order_delete _ _ b refl e
parse_body-fits MessageType.order_replace m len b e =
    case-fits MessageType.order_replace _ _ b refl e
parse_body-fits _ m len b e = refl

reset_refused : (m : Memory) (len : ℕ) → parse_body MessageType.internal_session_reset m len ≡ none
unfolding parse_body
reset_refused m len = refl

-- The message that a body goes into.
abbrev made_of : Timestamp → Memory → ℕ → Body → ItchMsg
made_of recv_ts m len b = record {
  type = message_type_of (m 0);
  locate = be16 (advance m off_locate);
  timestamp = if leb off_payload len then be48 (advance m off_timestamp) else 0;
  recv_timestamp = recv_ts;
  body = b;
}

-- Whatever bytes it gets, the parser returns no order message whose type and union member differ, and
-- none of the internal type that resets a shard.
pub parse_message-fits :
    (recv_ts : Timestamp) (m : Memory) (len : ℕ) (msg : ItchMsg)
    → parse_message recv_ts m len ≡ some msg
    → (fits msg.type msg.body ≡ true) × (msg.type ≢ MessageType.internal_session_reset)
unfolding parse_message
parse_message-fits recv_ts m len msg e = elim (Bool-cases (ltb len 1)) [
  | inl short ↦ absurd (some-ne-none _ (sym e ∙ rw (parse_message, short) refl))
  | inr long ↦ elim (Option-cases (parse_body (message_type_of (m 0)) m len)) [
    | inl refused ↦ absurd (some-ne-none _ (sym e ∙ rw (parse_message, long, refused) refl))
    | inr (b, run) ↦
        let made : parse_message recv_ts m len ≡ some (made_of recv_ts m len b) =
          rw (parse_message, long, run) refl in
        subst (λ x. (fits x.type x.body ≡ true) × (x.type ≢ MessageType.internal_session_reset))
          (some-injective _ _ (sym made ∙ e))
          (
            parse_body-fits (message_type_of (m 0)) m len b run,
            λ reset. absurd (
                some-ne-none _
                  (sym run ∙ ap (λ t. parse_body t m len) reset ∙ reset_refused m len)),
          )
  ]
]
