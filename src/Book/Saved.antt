-- ===== src/Book/Saved.antt =====
-- src/orderbook/level2_book.cpp, `serialize_snapshot` and `restore_snapshot`. A number of two bytes is
-- stored with the low byte first. How a `PriceLevel` lies in its 64 bytes is up to the compiler: a
-- parameter, with what `memcpy` of such an object promises.
use itch_feed_handler.Common.{
  ℕ, ◌+◌, ◌-◌, ◌*◌, ◌/◌, ◌%◌, ◌^◌, ◌≤◌, ◌<◌, ◌≡◌, arith, refl, ap, sym, subst, Bool, true, false,
  ◌||◌, ltb, ◌==◌, if◌then◌else◌, Memory, advance,
}
use itch_feed_handler.Types.{max_price_levels}
use itch_feed_handler.Book.Levels.{PriceLevel, Levels}
use itch_feed_handler.Book.Handlers.{Level2Book}

-- `sizeof(PriceLevel)` and `kHeaderSize`
abbrev pub level_size : ℕ
level_size = 64

abbrev pub header_size : ℕ
header_size = 6

abbrev pub needed_size : ℕ → ℕ → ℕ
needed_size bids asks = header_size + bids * level_size + asks * level_size

-- `std::memcpy(p, &n, 2)` and back.
abbrev low : ℕ → ℕ
low n = n % 256

abbrev high : ℕ → ℕ
high n = n / 256 % 256

abbrev pub load16 : Memory → ℕ → ℕ
load16 m at = m at + m (at + 1) * 256

-- The bytes of an object, and the object that bytes stand for.
pub record Copying {ℓ} (A : Type ℓ) (size : ℕ) : Type ℓ where
  pub store : A → Memory
  pub fetch : Memory → A
  pub fetch-store : (a : A) (m : Memory) → ((i : ℕ) → i < size → m i ≡ store a i) → fetch m ≡ a

module _ (copying : Copying PriceLevel level_size) where
  open copying use {store, fetch, fetch-store}

  -- The six bytes of the header.
  unfoldable pub header_byte : Level2Book → ℕ → ℕ
  header_byte b i =
      if i == 0
      then low b.locate
      else if i == 1
      then high b.locate
      else if i == 2
      then low b.bids.count
      else if i == 3
      then high b.bids.count
      else if i == 4
      then low b.asks.count
      else high b.asks.count

  -- The buffer after the writes of `serialize_snapshot`.
  unfoldable pub saved : Level2Book → Memory → Memory
  saved b buf i =
      let asks_at = header_size + b.bids.count * level_size in
      if ltb i header_size
      then header_byte b i
      else if ltb i asks_at
      then store (b.bids.levels ((i - header_size) / level_size)) ((i - header_size) % level_size)
      else if ltb i (needed_size b.bids.count b.asks.count)
      then store (b.asks.levels ((i - asks_at) / level_size)) ((i - asks_at) % level_size)
      else buf i

  -- `Level2Book::serialize_snapshot`
  unfoldable pub serialize_snapshot : Level2Book → Memory → ℕ → Memory × ℕ
  serialize_snapshot b buf buf_size =
      let needed = needed_size b.bids.count b.asks.count in
      if ltb buf_size needed then (buf, 0) else (saved b buf, needed)

  -- A side after its levels were copied.
  unfoldable pub restored : Levels → Memory → ℕ → ℕ → Levels
  restored ls buf at count = record {
    levels = λ k. if ltb k count then fetch (advance buf (at + k * level_size)) else ls.levels k;
    count = count;
  }

  -- `Level2Book::restore_snapshot`
  unfoldable pub restore_snapshot : Level2Book → Memory → ℕ → Level2Book × Bool
  restore_snapshot b buf len =
      let loc = load16 buf 0 in
      let bc = load16 buf 2 in
      let ac = load16 buf 4 in
      if ltb len header_size
      then (b, false)
      else if ltb max_price_levels bc || ltb max_price_levels ac
      then (b, false)
      else if ltb len (needed_size bc ac)
      then (b, false)
      else (
        record b {
          locate = loc;
          bids = restored b.bids buf header_size bc;
          asks = restored b.asks buf (header_size + bc * level_size) ac;
        },
        true,
      )

  -- What a restored book shares with the one that was saved: the symbol and the levels, not the orders.
  pub record SameLevels (b b' : Level2Book) : Type 0 where
    pub locate : b'.locate ≡ b.locate
    pub bid_count : b'.bids.count ≡ b.bids.count
    pub ask_count : b'.asks.count ≡ b.asks.count
    pub bid_levels : (k : ℕ) → k < b.bids.count → b'.bids.levels k ≡ b.bids.levels k
    pub ask_levels : (k : ℕ) → k < b.asks.count → b'.asks.levels k ≡ b.asks.levels k

  module _ (b : Level2Book) (buf : Memory) where
    saved_bid :
        (k i : ℕ)
        → k < b.bids.count
        → i < level_size
        → saved b buf (header_size + k * level_size + i) ≡ store (b.bids.levels k) i
    unfolding saved
    saved_bid k i h small =
        let index : (header_size + k * level_size + i - header_size) / level_size ≡ k =
          omega arith in
        let byte : (header_size + k * level_size + i - header_size) % level_size ≡ i =
          omega arith in
        rw (saved, index, byte) (ground arith)

    saved_ask :
        (k i : ℕ)
        → k < b.asks.count
        → i < level_size
        → saved b buf (header_size + b.bids.count * level_size + k * level_size + i)
          ≡ store (b.asks.levels k) i
    unfolding saved
    saved_ask k i h small =
        let asks_at = header_size + b.bids.count * level_size in
        let index : (asks_at + k * level_size + i - asks_at) / level_size ≡ k = omega arith in
        let byte : (asks_at + k * level_size + i - asks_at) % level_size ≡ i = omega arith in
        rw (saved, index, byte) (ground arith)

    saved_header :
        b.locate < 2 ^ 16
        → b.bids.count < 2 ^ 16
        → b.asks.count < 2 ^ 16
        → (load16 (saved b buf) 0 ≡ b.locate)
          × (load16 (saved b buf) 2 ≡ b.bids.count)
          × (load16 (saved b buf) 4 ≡ b.asks.count)
    unfolding saved header_byte
    saved_header p q r = (omega arith, omega arith, omega arith)

    -- The book that the round trip leaves.
    abbrev back : Level2Book → Level2Book
    back into = record into {
      locate = b.locate;
      bids = restored into.bids (saved b buf) header_size b.bids.count;
      asks =
          restored into.asks (saved b buf) (header_size + b.bids.count * level_size) b.asks.count;
    }

    restored_run :
        (into : Level2Book)
        → b.locate < 2 ^ 16
        → b.bids.count ≤ max_price_levels
        → b.asks.count ≤ max_price_levels
        → restore_snapshot into (saved b buf) (needed_size b.bids.count b.asks.count)
          ≡ (back into, true)
    unfolding restore_snapshot
    restored_run into small bids_fit asks_fit =
        let (loc, bc, ac) = saved_header small (omega arith) (omega arith) in
        rw (restore_snapshot, loc, bc, ac) (ground arith)

    back-SameLevels : (into : Level2Book) → SameLevels b (back into)
    unfolding restored
    back-SameLevels into = record {
      locate = refl;
      bid_count = refl;
      ask_count = refl;
      bid_levels = λ k h.
          let kept : ltb k b.bids.count ≡ true = ground arith in
          rw (restored, kept) (fetch-store (b.bids.levels k) _ (λ i small. saved_bid k i h small));
      ask_levels = λ k h.
          let kept : ltb k b.asks.count ≡ true = ground arith in
          rw (restored, kept) (fetch-store (b.asks.levels k) _ (λ i small. saved_ask k i h small));
    }

    -- What is restored from the bytes of a saved book.
    pub restore_snapshot-saved :
        (into : Level2Book)
        → b.locate < 2 ^ 16
        → b.bids.count ≤ max_price_levels
        → b.asks.count ≤ max_price_levels
        → SameLevels b
            (restore_snapshot into (saved b buf) (needed_size b.bids.count b.asks.count)).0
    restore_snapshot-saved into small bids_fit asks_fit =
        subst (λ r. SameLevels b r.0) (sym (restored_run into small bids_fit asks_fit))
          (back-SameLevels into)

    -- A book with at most 256 levels a side, saved to a buffer that is large enough, is restored from
    -- it into any book: the call succeeds, the symbol and all levels of both sides are back, and
    -- the pool, the map, the status and the counters stay those of the book it is restored into. A
    -- buffer that is too small is left alone.
    pub restore_snapshot-serialize_snapshot :
        (into : Level2Book) (buf_size : ℕ)
        → b.locate < 2 ^ 16
        → b.bids.count ≤ max_price_levels
        → b.asks.count ≤ max_price_levels
        → let (buf', len) = serialize_snapshot b buf buf_size in
          let needed = needed_size b.bids.count b.asks.count in
          (needed ≤ buf_size
            → let (b', done) = restore_snapshot into buf' len in
              (len ≡ needed)
              × (done ≡ true)
              × SameLevels b b'
              × (b'.pool ≡ into.pool)
              × (b'.map ≡ into.map)
              × (b'.status ≡ into.status))
          × (buf_size < needed → (buf' ≡ buf) × (len ≡ 0))
    unfolding serialize_snapshot
    restore_snapshot-serialize_snapshot into buf_size small bids_fit asks_fit = (
      λ enough.
          let fits : ltb buf_size (needed_size b.bids.count b.asks.count) ≡ false = ground arith in
          rw (serialize_snapshot, fits)
            (
              refl,
              ap (λ r. r.1) (restored_run into small bids_fit asks_fit),
              subst (λ r. SameLevels b r.0) (sym (restored_run into small bids_fit asks_fit))
                  (back-SameLevels into),
              ap (λ r. r.0.pool) (restored_run into small bids_fit asks_fit),
              ap (λ r. r.0.map) (restored_run into small bids_fit asks_fit),
              ap (λ r. r.0.status) (restored_run into small bids_fit asks_fit),
            ),
      λ short. ground arith,
    )
