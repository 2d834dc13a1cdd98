-- ===== src/Wire/Encode.antt =====
-- The big-endian encoding of numbers, and that the reads of namespace `wire` undo it.
use itch_feed_handler.Common.{
  [], ◌+◌, advance, ℕ, zero, suc, ◌/◌, ◌%◌, ◌^◌, ◌<◌, ◌≡◌, arith, List, ◌∷◌, get_or, Memory,
}
use itch_feed_handler.Wire.{be16, be32, be48, be64}
use itch_feed_handler.Wire.Bounds.{be16_lem, be32_lem, be48_lem, be64_lem, BytesBelow}
use itch_feed_handler.Message.{Chars4, Chars8}

-- The memory that starts with the bytes of a list.
abbrev pub memory_of : List ℕ → Memory
memory_of xs i = get_or xs i 0

abbrev pub put16 : ℕ → List ℕ → List ℕ
put16 x rest = (x / 2 ^ 8 % 256) ∷ (x % 256) ∷ rest

abbrev pub put32 : ℕ → List ℕ → List ℕ
put32 x rest = (x / 2 ^ 24 % 256) ∷ (x / 2 ^ 16 % 256) ∷ (x / 2 ^ 8 % 256) ∷ (x % 256) ∷ rest

abbrev pub put48 : ℕ → List ℕ → List ℕ
put48 x rest =
    (x / 2 ^ 40 % 256)
    ∷ (x / 2 ^ 32 % 256)
    ∷ (x / 2 ^ 24 % 256)
    ∷ (x / 2 ^ 16 % 256)
    ∷ (x / 2 ^ 8 % 256)
    ∷ (x % 256)
    ∷ rest

abbrev pub put64 : ℕ → List ℕ → List ℕ
put64 x rest =
    (x / 2 ^ 56 % 256)
    ∷ (x / 2 ^ 48 % 256)
    ∷ (x / 2 ^ 40 % 256)
    ∷ (x / 2 ^ 32 % 256)
    ∷ (x / 2 ^ 24 % 256)
    ∷ (x / 2 ^ 16 % 256)
    ∷ (x / 2 ^ 8 % 256)
    ∷ (x % 256)
    ∷ rest

abbrev pub put_chars4 : Chars4 → List ℕ → List ℕ
put_chars4 s rest = s.c0 ∷ s.c1 ∷ s.c2 ∷ s.c3 ∷ rest

abbrev pub put_chars8 : Chars8 → List ℕ → List ℕ
put_chars8 s rest = s.c0 ∷ s.c1 ∷ s.c2 ∷ s.c3 ∷ s.c4 ∷ s.c5 ∷ s.c6 ∷ s.c7 ∷ rest

put16-BytesBelow : (x : ℕ) (rest : List ℕ) → BytesBelow 2 (memory_of (put16 x rest))
put16-BytesBelow x rest zero h = omega arith
put16-BytesBelow x rest (suc zero) h = omega arith
put16-BytesBelow x rest (suc (suc i)) h = absurd (omega arith)

pub be16-put16 : (x : ℕ) (rest : List ℕ) → x < 2 ^ 16 → be16 (memory_of (put16 x rest)) ≡ x
be16-put16 x rest h = omega (arith, be16_lem (memory_of (put16 x rest)) (put16-BytesBelow x rest))

put32-BytesBelow : (x : ℕ) (rest : List ℕ) → BytesBelow 4 (memory_of (put32 x rest))
put32-BytesBelow x rest zero h = omega arith
put32-BytesBelow x rest (suc zero) h = omega arith
put32-BytesBelow x rest (suc (suc zero)) h = omega arith
put32-BytesBelow x rest (suc (suc (suc zero))) h = omega arith
put32-BytesBelow x rest (suc (suc (suc (suc i)))) h = absurd (omega arith)

pub be32-put32 : (x : ℕ) (rest : List ℕ) → x < 2 ^ 32 → be32 (memory_of (put32 x rest)) ≡ x
be32-put32 x rest h = omega (arith, be32_lem (memory_of (put32 x rest)) (put32-BytesBelow x rest))

put48-BytesBelow : (x : ℕ) (rest : List ℕ) → BytesBelow 6 (memory_of (put48 x rest))
put48-BytesBelow x rest zero h = omega arith
put48-BytesBelow x rest (suc zero) h = omega arith
put48-BytesBelow x rest (suc (suc zero)) h = omega arith
put48-BytesBelow x rest (suc (suc (suc zero))) h = omega arith
put48-BytesBelow x rest (suc (suc (suc (suc zero)))) h = omega arith
put48-BytesBelow x rest (suc (suc (suc (suc (suc zero))))) h = omega arith
put48-BytesBelow x rest (suc (suc (suc (suc (suc (suc i)))))) h = absurd (omega arith)

pub be48-put48 : (x : ℕ) (rest : List ℕ) → x < 2 ^ 48 → be48 (memory_of (put48 x rest)) ≡ x
be48-put48 x rest h = omega (arith, be48_lem (memory_of (put48 x rest)) (put48-BytesBelow x rest))

put64-BytesBelow : (x : ℕ) (rest : List ℕ) → BytesBelow 8 (memory_of (put64 x rest))
put64-BytesBelow x rest zero h = omega arith
put64-BytesBelow x rest (suc zero) h = omega arith
put64-BytesBelow x rest (suc (suc zero)) h = omega arith
put64-BytesBelow x rest (suc (suc (suc zero))) h = omega arith
put64-BytesBelow x rest (suc (suc (suc (suc zero)))) h = omega arith
put64-BytesBelow x rest (suc (suc (suc (suc (suc zero))))) h = omega arith
put64-BytesBelow x rest (suc (suc (suc (suc (suc (suc zero)))))) h = omega arith
put64-BytesBelow x rest (suc (suc (suc (suc (suc (suc (suc zero))))))) h = omega arith
put64-BytesBelow x rest (suc (suc (suc (suc (suc (suc (suc (suc i)))))))) h = absurd (omega arith)

pub be64-put64 : (x : ℕ) (rest : List ℕ) → x < 2 ^ 64 → be64 (memory_of (put64 x rest)) ≡ x
be64-put64 x rest h = omega (arith, be64_lem (memory_of (put64 x rest)) (put64-BytesBelow x rest))

-- A number read where its bytes stand.
pub be16-at :
    (m : Memory) (o x : ℕ)
    → x < 2 ^ 16
    → m (o + 0) ≡ x / 2 ^ 8 % 256
    → m (o + 1) ≡ x % 256
    → be16 (advance m o) ≡ x
unfolding be16
be16-at m o x h e0 e1 = rw (e0, e1) (be16-put16 x [] h)

-- A number read where its bytes stand.
pub be32-at :
    (m : Memory) (o x : ℕ)
    → x < 2 ^ 32
    → m (o + 0) ≡ x / 2 ^ 24 % 256
    → m (o + 1) ≡ x / 2 ^ 16 % 256
    → m (o + 2) ≡ x / 2 ^ 8 % 256
    → m (o + 3) ≡ x % 256
    → be32 (advance m o) ≡ x
unfolding be32
be32-at m o x h e0 e1 e2 e3 = rw (e0, e1, e2, e3) (be32-put32 x [] h)

-- A number read where its bytes stand.
pub be48-at :
    (m : Memory) (o x : ℕ)
    → x < 2 ^ 48
    → m (o + 0) ≡ x / 2 ^ 40 % 256
    → m (o + 1) ≡ x / 2 ^ 32 % 256
    → m (o + 2) ≡ x / 2 ^ 24 % 256
    → m (o + 3) ≡ x / 2 ^ 16 % 256
    → m (o + 4) ≡ x / 2 ^ 8 % 256
    → m (o + 5) ≡ x % 256
    → be48 (advance m o) ≡ x
unfolding be48
be48-at m o x h e0 e1 e2 e3 e4 e5 = rw (e0, e1, e2, e3, e4, e5) (be48-put48 x [] h)

-- A number read where its bytes stand.
pub be64-at :
    (m : Memory) (o x : ℕ)
    → x < 2 ^ 64
    → m (o + 0) ≡ x / 2 ^ 56 % 256
    → m (o + 1) ≡ x / 2 ^ 48 % 256
    → m (o + 2) ≡ x / 2 ^ 40 % 256
    → m (o + 3) ≡ x / 2 ^ 32 % 256
    → m (o + 4) ≡ x / 2 ^ 24 % 256
    → m (o + 5) ≡ x / 2 ^ 16 % 256
    → m (o + 6) ≡ x / 2 ^ 8 % 256
    → m (o + 7) ≡ x % 256
    → be64 (advance m o) ≡ x
unfolding be64
be64-at m o x h e0 e1 e2 e3 e4 e5 e6 e7 = rw (e0, e1, e2, e3, e4, e5, e6, e7) (be64-put64 x [] h)
