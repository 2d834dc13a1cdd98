-- ===== src/Wire.antt =====
-- include/protocol/itch_messages.hpp, namespace `wire`: big-endian reads of the bytes from a
-- pointer on. `<<` is a product by a power of two: no operand is wide enough to lose bits.
pub mod Layout
pub mod Bounds
pub mod Encode
use itch_feed_handler.Common.{ℕ, ◌+◌, ◌*◌, ◌^◌, bit_or, Memory}
use itch_feed_handler.Message.{Chars4, Chars8}

unfoldable pub be16 : Memory → ℕ
be16 p = bit_or (p 0 * 2 ^ 8) (p 1)

unfoldable pub be32 : Memory → ℕ
be32 p = bit_or (bit_or (bit_or (p 0 * 2 ^ 24) (p 1 * 2 ^ 16)) (p 2 * 2 ^ 8)) (p 3)

unfoldable pub be48 : Memory → ℕ
be48 p =
    bit_or
      (bit_or (bit_or (bit_or (bit_or (p 0 * 2 ^ 40) (p 1 * 2 ^ 32)) (p 2 * 2 ^ 24)) (p 3 * 2 ^ 16))
        (p 4 * 2 ^ 8))
      (p 5)

unfoldable pub be64 : Memory → ℕ
be64 p =
    bit_or
      (bit_or
        (bit_or
          (bit_or
            (bit_or (bit_or (bit_or (p 0 * 2 ^ 56) (p 1 * 2 ^ 48)) (p 2 * 2 ^ 40)) (p 3 * 2 ^ 32))
            (p 4 * 2 ^ 24))
          (p 5 * 2 ^ 16))
        (p 6 * 2 ^ 8))
      (p 7)

-- `memcpy` of a `char[4]` and of a `char[8]`
abbrev pub chars4 : Memory → Chars4
chars4 p = record { c0 = p 0; c1 = p 1; c2 = p 2; c3 = p 3 }

abbrev pub chars8 : Memory → Chars8
chars8 p = record { c0 = p 0; c1 = p 1; c2 = p 2; c3 = p 3; c4 = p 4; c5 = p 5; c6 = p 6; c7 = p 7 }
