-- ===== src/Parser/Blocks.antt =====
-- src/protocol/itch_parser.cpp: what `ItchParser::parse` returns for a well-formed packet.
use itch_feed_handler.Common.{
  ℕ, zero, suc, ◌+◌, ◌-◌, ◌^◌, ◌≤◌, ◌<◌, ◌≡◌, refl, ◌∙◌, fun_ext, arith, List, [], ◌∷◌, ◌++◌,
  Option, none, some, length, length-append, get_or, take, Memory, advance, false, true,
}
use itch_feed_handler.Types.{Timestamp}
use itch_feed_handler.Message.{ItchMsg}
use itch_feed_handler.Wire.{be16}
use itch_feed_handler.Wire.Encode.{memory_of, put16, be16-put16}
use itch_feed_handler.Mold.{MoldUdp64Header, block_size}
use itch_feed_handler.Parser.Message.{parse_message}
use itch_feed_handler.Parser.Local.{Agree, parse_message-local}
use itch_feed_handler.Parser.Frame.{ends, count_parsed, parse_loop, parse}
use itch_feed_handler.Parser.Total.{
  parse_loop_end, parse_loop_round, ends-goes_on, ends-no_room, ends-no_bytes,
}

-- The message blocks of a packet: each message behind its length, big-endian.
abbrev pub blocks : List (List ℕ) → List ℕ
blocks [] = []
blocks (b ∷ bs) = put16 (length b) (b ++ blocks bs)

-- A block holds the locate code at least, and its length fits 16 bits.
abbrev pub AreBlocks : List (List ℕ) → Type 0
AreBlocks [] = Unit {0}
AreBlocks (b ∷ bs) = (3 ≤ length b) × (length b < 2 ^ 16) × AreBlocks bs

abbrev keep : Option ItchMsg → List ItchMsg → List ItchMsg
keep none msgs = msgs
keep (some msg) msgs = msg ∷ msgs

-- The messages that `parse_message` accepts, in the order of the packet.
abbrev pub accepted : Timestamp → List (List ℕ) → List ItchMsg
accepted ts [] = []
accepted ts (b ∷ bs) = keep (parse_message ts (memory_of b) (length b)) (accepted ts bs)

get_or-append_left :
    (xs ys : List ℕ) (i : ℕ) → i < length xs → get_or (xs ++ ys) i 0 ≡ get_or xs i 0
get_or-append_left [] ys i h = absurd (omega arith)
get_or-append_left (x ∷ xs) ys zero h = refl
get_or-append_left (x ∷ xs) ys (suc i) h = get_or-append_left xs ys i (omega arith)

get_or-append_right : (xs ys : List ℕ) (i : ℕ) → get_or (xs ++ ys) (length xs + i) 0 ≡ get_or ys i 0
get_or-append_right [] ys i = let e : 0 + i ≡ i = omega arith in rw e
get_or-append_right (x ∷ xs) ys i =
    let e : suc (length xs) + i ≡ suc (length xs + i) = omega arith in
    rw e (get_or-append_right xs ys i)

take-nil : (room : ℕ) → take {A = ItchMsg} room [] ≡ []
take-nil zero = refl
take-nil (suc room) = refl

module _ (b ys : List ℕ) where
  -- The memory behind a block, and its message.
  after_block :
      advance (memory_of (put16 (length b) (b ++ ys))) (block_size + length b) ≡ memory_of ys
  after_block = fun_ext λ i.
      let e : block_size + length b + i ≡ suc (suc (length b + i)) = omega arith in
      rw e (get_or-append_right b ys i)

  message_in_block :
      Agree (length b) (advance (memory_of (put16 (length b) (b ++ ys))) block_size) (memory_of b)
  message_in_block i h =
      let e : block_size + i ≡ suc (suc i) = omega arith in rw e (get_or-append_left b ys i h)

  after_length : length (put16 (length b) (b ++ ys)) - (block_size + length b) ≡ length ys
  after_length = omega (arith, length-append b ys)

-- What a round adds to the messages of the rounds behind it.
count_parsed-keep :
    (o : Option ItchMsg) (rest : ℕ → Option (List ItchMsg)) (room : ℕ) (msgs : List ItchMsg)
    → ((r : ℕ) → rest r ≡ some (take r msgs))
    → count_parsed o rest (suc room) ≡ some (take (suc room) (keep o msgs))
count_parsed-keep none rest room msgs h = h (suc room)
count_parsed-keep (some msg) rest room msgs h =
    let e : suc room - 1 ≡ room = omega arith in rw (e, h room)

module _ (ts : Timestamp) where
  parse_loop-blocks :
      (fuel : ℕ) (bs : List (List ℕ)) (room : ℕ)
      → AreBlocks bs
      → length (blocks bs) < fuel
      → parse_loop fuel ts (memory_of (blocks bs)) (length (blocks bs)) room
        ≡ some (take room (accepted ts bs))
  parse_loop-blocks zero bs room a h = absurd (omega arith)
  parse_loop-blocks (suc fuel) [] room a h =
      rw (parse_loop_end fuel ts (memory_of []) 0 room (ends-no_bytes room _), take-nil room)
  parse_loop-blocks (suc fuel) (b ∷ bs) zero a h =
      parse_loop_end fuel ts _ _ zero (ends-no_room _ _)
  parse_loop-blocks (suc fuel) (b ∷ bs) (suc room) a h =
      parse_loop_round fuel ts m n (suc room) goes_on
      ∙ rw
          (
            len,
            after_block b (blocks bs),
            after_length b (blocks bs),
            parse_message-local ts _ (memory_of b) (length b) a.0 (message_in_block b (blocks bs)),
          )
          (count_parsed-keep (parse_message ts (memory_of b) (length b)) _ room (accepted ts bs)
            λ r. parse_loop-blocks fuel bs r a.2 (omega (arith, length-append b (blocks bs))))
    where
      m : Memory
      m = memory_of (blocks (b ∷ bs))

      n : ℕ
      n = length (blocks (b ∷ bs))

      len : be16 m ≡ length b
      len = be16-put16 (length b) (b ++ blocks bs) a.1

      goes_on : ends n (suc room) (be16 m) ≡ false
      goes_on = rw len (
          ends-goes_on n (suc room) (length b) (omega arith) (omega arith)
            (omega (arith, length-append b (blocks bs))))

-- A packet of whole blocks, of three bytes or more each, is parsed into the messages that
-- `parse_message` accepts from the blocks one by one, in order, cut off at `max_msgs`.
pub parse-blocks :
    (ts : Timestamp) (header : MoldUdp64Header) (bs : List (List ℕ)) (max_msgs : ℕ)
    → AreBlocks bs
    → parse ts
        (record {
          valid = true;
          header = header;
          messages_begin = memory_of (blocks bs);
          messages_length = length (blocks bs);
        })
        max_msgs
      ≡ some (take max_msgs (accepted ts bs))
unfolding parse
parse-blocks ts header bs zero a = refl
parse-blocks ts header bs (suc n) a =
    ground (arith, parse_loop-blocks ts (length (blocks bs) + 1) bs (suc n) a (omega arith))
