-- ===== src/Tracking/Packets.antt =====
-- One packet: what the parser thread hands to the router, and what it counts.
use itch_feed_handler.Common.{
  ℕ, ◌+◌, ◌%◌, ◌^◌, ◌≤◌, ◌<◌, ◌≡◌, arith, refl, ap, ◌∙◌, subst, Bool, true, false, ◌||◌, not, some,
  Bool-cases, List, [], ◌∷◌, length, ◌>>=◌, Memory, Option-cases, inl, inr,
}
use itch_feed_handler.Types.{MessageType, Timestamp}
use itch_feed_handler.Message.{ItchMsg, Body}
use itch_feed_handler.Mold.{Session, ParseResult, MoldUdp64Header, is_heartbeat}
use itch_feed_handler.Mold
use itch_feed_handler.Parser.Frame
use itch_feed_handler.Parser.Total.{Writes, parse-Writes}
use itch_feed_handler.Rings.Slots.{PacketSlot}
use itch_feed_handler.Routing.Router.{ShardRouter, route}
use itch_feed_handler.Tracking.{track}
use itch_feed_handler.Tracking.Process.{
  ParserThread, notify, tell_session, route_message, route_messages, process_slot,
  max_msgs_per_packet,
}

-- The messages go to the router one after the other.
abbrev pub route_all : ShardRouter → List ItchMsg → ShardRouter
route_all r [] = r
route_all r (msg ∷ rest) = route_all (route r msg).1 rest

-- No message that may start a new session.
abbrev pub is_plain : MessageType → Bool
is_plain MessageType.system_event = false
is_plain _ = true

abbrev pub ArePlain : List ItchMsg → Type 0
ArePlain [] = Unit
ArePlain (msg ∷ rest) = (is_plain msg.type ≡ true) × ArePlain rest

notify-plain :
    (p : ParserThread) (t : MessageType) (loc : ℕ) (b : Body) (session : Session)
    → is_plain t ≡ true
    → let p' = notify p t loc b session in
      (p'.subsystems.router ≡ p.subsystems.router)
      × (p'.tracking ≡ p.tracking)
      × (p'.messages_parsed ≡ p.messages_parsed)
unfolding notify
notify-plain p MessageType.stock_directory loc (Body.stock_directory d) session h =
    (refl, refl, refl)
notify-plain p MessageType.system_event loc b session h = absurd (ground arith)
notify-plain p _ loc _ session h = (refl, refl, refl)

notify-counts :
    (p : ParserThread) (t : MessageType) (loc : ℕ) (b : Body) (session : Session)
    → (notify p t loc b session).messages_parsed ≡ p.messages_parsed
unfolding notify tell_session
notify-counts p MessageType.stock_directory loc (Body.stock_directory d) session = refl
notify-counts p MessageType.system_event loc (Body.system_event c) session = refl
notify-counts p _ loc _ session = refl

route_message-plain :
    (p : ParserThread) (recv_ts : Timestamp) (session : Session) (parse_ts : Timestamp)
    (msg : ItchMsg)
    → is_plain msg.type ≡ true
    → let p' = route_message p recv_ts session parse_ts msg in
      (p'.subsystems.router ≡ (route p.subsystems.router msg).1) × (p'.tracking ≡ p.tracking)
unfolding route_message
route_message-plain p recv_ts session parse_ts msg h =
    let (router, tracking, counts) = notify-plain _ msg.type msg.locate msg.body session h in
    (ap (λ r. (route r msg).1) router, tracking)

route_message-counts :
    (p : ParserThread) (recv_ts : Timestamp) (session : Session) (parse_ts : Timestamp)
    (msg : ItchMsg)
    → (route_message p recv_ts session parse_ts msg).messages_parsed
      ≡ (p.messages_parsed + 1) % 2 ^ 64
unfolding route_message
route_message-counts p recv_ts session parse_ts msg =
    ap (λ (n : ℕ). (n + 1) % 2 ^ 64) (notify-counts _ msg.type msg.locate msg.body session)

route_messages-plain :
    (p : ParserThread) (recv_ts : Timestamp) (session : Session) (clock : ℕ → Timestamp) (i : ℕ)
    (msgs : List ItchMsg)
    → ArePlain msgs
    → let p' = route_messages p recv_ts session clock i msgs in
      (p'.subsystems.router ≡ route_all p.subsystems.router msgs) × (p'.tracking ≡ p.tracking)
unfolding route_messages
route_messages-plain p recv_ts session clock i [] h = (refl, refl)
route_messages-plain p recv_ts session clock i (msg ∷ rest) h =
    let p1 = route_message p recv_ts session (clock i) msg in
    let (router, tracking) = route_message-plain p recv_ts session (clock i) msg h.0 in
    let (routers, trackings) = route_messages-plain p1 recv_ts session clock (i + 1) rest h.1 in
    (routers ∙ ap (λ r. route_all r rest) router, trackings ∙ tracking)

route_messages-counts :
    (p : ParserThread) (recv_ts : Timestamp) (session : Session) (clock : ℕ → Timestamp) (i : ℕ)
    (msgs : List ItchMsg)
    → p.messages_parsed < 2 ^ 64
    → (route_messages p recv_ts session clock i msgs).messages_parsed
      ≡ (p.messages_parsed + length msgs) % 2 ^ 64
unfolding route_messages
route_messages-counts p recv_ts session clock i [] h = omega arith
route_messages-counts p recv_ts session clock i (msg ∷ rest) h =
    let p1 = route_message p recv_ts session (clock i) msg in
    let one = route_message-counts p recv_ts session (clock i) msg in
    omega
      (arith, one, route_messages-counts p1 recv_ts session clock (i + 1) rest (omega (arith, one)))

parse-returns :
    (ts : Timestamp) (mold : ParseResult)
    → (msgs : List ItchMsg) × (Frame.parse ts mold max_msgs_per_packet ≡ some msgs)
      × (length msgs ≤ max_msgs_per_packet)
parse-returns ts mold = elim (Option-cases (Frame.parse ts mold max_msgs_per_packet)) [
  | inl e ↦ absurd (subst (Writes max_msgs_per_packet) e (parse-Writes ts mold max_msgs_per_packet))
  | inr (msgs, e) ↦
      (msgs, e, subst (Writes max_msgs_per_packet) e (parse-Writes ts mold max_msgs_per_packet))
]

-- Every packet is processed to its end, from a count of parsed messages below 2^64. A packet that is
-- not valid, and a heartbeat, leave the parser thread as it was. The messages of any other packet, at
-- most 128, are counted. If there is no system event among them, they go to the router one after the
-- other, in their order in the packet, and the sequence number of the packet is tracked.
pub process_slot-routes :
    (blank : MoldUdp64Header) (null : Memory) (p : ParserThread) (s : PacketSlot) (now : Timestamp)
    (clock : ℕ → Timestamp)
    → p.messages_parsed < 2 ^ 64
    → let mold = Mold.parse blank null s.bytes s.length in
      let skipped = not mold.valid || is_heartbeat mold.header in
      (p' : ParserThread) × (process_slot blank null p s now clock ≡ some p')
      × (skipped ≡ true → p' ≡ p)
      × (skipped ≡ false
          → (msgs : List ItchMsg) × (Frame.parse s.recv_ts mold max_msgs_per_packet ≡ some msgs)
            × (length msgs ≤ max_msgs_per_packet)
            × (p'.messages_parsed ≡ (p.messages_parsed + length msgs) % 2 ^ 64)
            × (ArePlain msgs
                → (p'.subsystems.router ≡ route_all p.subsystems.router msgs)
                  × (p'.tracking ≡ track p.tracking mold now)))
unfolding process_slot
process_slot-routes blank null p s now clock small =
    let mold = Mold.parse blank null s.bytes s.length in
    elim (Bool-cases (not mold.valid || is_heartbeat mold.header)) [
      | inl skip ↦ (p, rw (process_slot, skip) refl, λ _. refl, λ live. absurd (ground arith))
      | inr live ↦
          let (msgs, e, few) = parse-returns s.recv_ts mold in
          let tracked = record p { tracking = track p.tracking mold now } in
          (
            route_messages tracked s.recv_ts mold.header.session clock 0 msgs,
            rw (process_slot, live, e, ◌>>=◌) refl,
            λ skip. absurd (ground arith),
            λ _. (
              msgs,
              e,
              few,
              route_messages-counts tracked s.recv_ts mold.header.session clock 0 msgs small,
              route_messages-plain tracked s.recv_ts mold.header.session clock 0 msgs,
            ),
          )
    ]
