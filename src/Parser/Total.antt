-- ===== src/Parser/Total.antt =====
-- src/protocol/itch_parser.cpp: `ItchParser::parse` ends on every packet, and stays in its buffer.
use itch_feed_handler.Common.{
  ℕ, zero, suc, ◌+◌, ◌-◌, ◌≤◌, ◌<◌, ◌≡◌, refl, arith, List, [], ◌∷◌, Option, none, some, inl, inr,
  length, Memory, advance, Bool-cases, ◌||◌, ◌==◌, not, false, true,
}
use mathlib.Core.Option
use itch_feed_handler.Types.{Timestamp}
use itch_feed_handler.Message.{ItchMsg}
use itch_feed_handler.Wire.{be16}
use itch_feed_handler.Mold.{ParseResult, block_size}
use itch_feed_handler.Parser.Message.{parse_message}
use itch_feed_handler.Parser.Frame.{ends, count_parsed, parse_loop, parse}

-- A round that goes on has room, and a whole block of at least one byte.
pub ends-false :
    (remaining room msg_len : ℕ)
    → ends remaining room msg_len ≡ false
    → (0 < room) × (0 < msg_len) × (block_size + msg_len ≤ remaining)
unfolding ends
ends-false remaining room msg_len h = ground arith

pub ends-goes_on :
    (remaining room msg_len : ℕ)
    → 0 < room
    → 0 < msg_len
    → block_size + msg_len ≤ remaining
    → ends remaining room msg_len ≡ false
unfolding ends
ends-goes_on remaining room msg_len h k l = ground arith

pub ends-no_room : (remaining msg_len : ℕ) → ends remaining 0 msg_len ≡ true
unfolding ends
ends-no_room remaining msg_len = ground arith

pub ends-no_bytes : (room msg_len : ℕ) → ends 0 room msg_len ≡ true
unfolding ends
ends-no_bytes room msg_len = refl

-- The outcome of a run that ended with at most `room` messages.
abbrev pub Writes : ℕ → Option (List ItchMsg) → Type 0
Writes room none = ⊥
Writes room (some msgs) = length msgs ≤ room

count_parsed-Writes :
    (o : Option ItchMsg) (rest : ℕ → Option (List ItchMsg)) (room : ℕ)
    → 0 < room
    → ((r : ℕ) → Writes r (rest r))
    → Writes room (count_parsed o rest room)
count_parsed-Writes none rest room h w = w room
count_parsed-Writes (some msg) rest room h w = go (rest (room - 1)) (w (room - 1))
  where
    go :
        (r : Option (List ItchMsg))
        → Writes (room - 1) r
        → Writes room (Option.map (λ msgs. msg ∷ msgs) r)
    go none v = v
    go (some msgs) v = omega arith

module _ (fuel : ℕ) (ts : Timestamp) (ptr : Memory) (remaining room : ℕ) where
  -- A round that ends the loop, and one that goes on.
  pub parse_loop_end :
      ends remaining room (be16 ptr) ≡ true → parse_loop (suc fuel) ts ptr remaining room ≡ some []
  unfolding parse_loop
  parse_loop_end e = rw (e, parse_loop)

  pub parse_loop_round :
      ends remaining room (be16 ptr) ≡ false
      → parse_loop (suc fuel) ts ptr remaining room
        ≡ count_parsed
            (parse_message ts (advance ptr block_size) (be16 ptr))
            (parse_loop fuel ts
              (advance ptr (block_size + be16 ptr))
              (remaining - (block_size + be16 ptr)))
            room
  unfolding parse_loop
  parse_loop_round e = rw (e, parse_loop)

parse_loop-Writes :
    (fuel : ℕ) (ts : Timestamp) (ptr : Memory) (remaining room : ℕ)
    → remaining < fuel
    → Writes room (parse_loop fuel ts ptr remaining room)
parse_loop-Writes zero ts ptr remaining room h = absurd (omega arith)
parse_loop-Writes (suc fuel) ts ptr remaining room h =
    elim (Bool-cases (ends remaining room (be16 ptr))) [
      | inl e ↦ rw (parse_loop_end fuel ts ptr remaining room e) (omega arith)
      | inr e ↦
          let goes_on = ends-false remaining room (be16 ptr) e in
          rw (parse_loop_round fuel ts ptr remaining room e) (
            count_parsed-Writes (parse_message ts (advance ptr block_size) (be16 ptr)) _ room
              goes_on.0
              λ r.
                parse_loop-Writes fuel ts (advance ptr (block_size + be16 ptr))
                  (remaining - (block_size + be16 ptr)) r (omega arith))
    ]

-- On every packet, whatever its bytes, `ItchParser::parse` comes to an end and returns at most
-- `max_msgs` messages.
pub parse-Writes :
    (ts : Timestamp) (mold : ParseResult) (max_msgs : ℕ) → Writes max_msgs (parse ts mold max_msgs)
unfolding parse
parse-Writes ts mold max_msgs = elim (Bool-cases (not mold.valid || max_msgs == 0)) [
  | inl e ↦ rw e (omega arith)
  | inr e ↦ rw e (
      parse_loop-Writes (mold.messages_length + 1) ts mold.messages_begin mold.messages_length
        max_msgs (omega arith))
]
