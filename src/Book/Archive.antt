-- ===== src/Book/Archive.antt =====
-- src/recovery/book_snapshot.cpp, `write_snapshot` and `read_snapshot`: the books of a shard in a file.
-- The file is what was written to it, record by record; opening and renaming it are left out.
use itch_feed_handler.Common.{
  ℕ, ◌+◌, ◌*◌, ◌^◌, ◌≤◌, ◌<◌, ◌≡◌, arith, refl, ap₂, sym, subst, ◌∙◌, fun_ext, Bool, true, false,
  List, [], ◌∷◌, length, ltb, ◌==◌, if◌then◌else◌, Memory, dec_lt,
}
use itch_feed_handler.Types.{max_price_levels}
use itch_feed_handler.Book.Levels.{PriceLevel}
use itch_feed_handler.Book.Handlers.{Level2Book}
use itch_feed_handler.Book.Saved.{
  Copying, SameLevels, level_size, needed_size, saved, serialize_snapshot, restore_snapshot,
  restore_snapshot-saved,
}
use itch_feed_handler.Rings.Slots.{copied}

pub record SnapshotFile : Type 0 where
  pub magic : ℕ
  pub count : ℕ
  pub entries : List (ℕ × Memory)

-- `0x49544348`
abbrev pub snapshot_magic : ℕ
snapshot_magic = 0x49544348

-- A buffer with its size. `fill` is what a resize puts behind the bytes that were there.
pub record Buffer : Type 0 where
  pub bytes : Memory
  pub size : ℕ

module _ (copying : Copying PriceLevel level_size) where
  -- The attempts at one book: in the buffer as it is, then in one of twice the size.
  unfoldable pub write_book : Buffer → Level2Book → Buffer × ℕ × Memory
  write_book buf b =
      let (first, len) = serialize_snapshot copying b buf.bytes buf.size in
      let (second, len2) = serialize_snapshot copying b first (buf.size * 2) in
      if◌then◌else◌ {A = Buffer × ℕ × Memory} (len == 0)
        (record { bytes = second; size = buf.size * 2 }, len2, second)
        (record { bytes = first; size = buf.size }, len, first)

  -- The loop of `write_snapshot`.
  unfoldable pub write_books : Buffer → List Level2Book → List (ℕ × Memory)
  write_books buf [] = []
  write_books buf (b ∷ rest) =
      let (buf', len, bytes) = write_book buf b in (len, bytes) ∷ write_books buf' rest

  -- `BookSnapshot::write_snapshot`, with the contents of the new buffer.
  unfoldable pub write_snapshot : Memory → List Level2Book → SnapshotFile
  write_snapshot fresh books = record {
    magic = snapshot_magic;
    count = length books;
    entries = write_books (record { bytes = fresh; size = 4096 }) books;
  }

  -- The loop of `read_snapshot`: as many books as both sides have.
  unfoldable pub read_books : Memory → List Level2Book → List (ℕ × Memory) → List Level2Book
  read_books buf [] entries = []
  read_books buf (b ∷ books) [] = b ∷ books
  read_books buf (b ∷ books) ((len, bytes) ∷ entries) =
      let buf' = copied buf bytes len in
      (restore_snapshot copying b buf' len).0 ∷ read_books buf' books entries

  -- `BookSnapshot::read_snapshot`
  unfoldable pub read_snapshot : Memory → List Level2Book → SnapshotFile → List Level2Book × Bool
  read_snapshot fresh books f =
      if f.magic == snapshot_magic then (read_books fresh books f.entries, true) else (books, false)

  -- A book that the two attempts are enough for.
  abbrev pub IsSmall : Level2Book → Type 0
  IsSmall b =
      (b.locate < 2 ^ 16)
      × (b.bids.count ≤ max_price_levels)
      × (b.asks.count ≤ max_price_levels)
      × (needed_size b.bids.count b.asks.count ≤ 8192)

  abbrev pub AreSmall : List Level2Book → Type 0
  AreSmall [] = Unit
  AreSmall (b ∷ rest) = IsSmall b × AreSmall rest

  -- Book by book, the levels are back.
  abbrev pub AllSame : List Level2Book → List Level2Book → Type 0
  AllSame [] [] = Unit
  AllSame [] (b ∷ rest) = ⊥
  AllSame (b ∷ rest) [] = ⊥
  AllSame (b ∷ rest) (b' ∷ rest') = SameLevels copying b b' × AllSame rest rest'

  -- What is read back into the buffer is what was saved, over what was there.
  copied-saved :
      (b : Level2Book) (buf old : Memory)
      → copied old (saved copying b buf) (needed_size b.bids.count b.asks.count)
        ≡ saved copying b old
  unfolding saved
  copied-saved b buf old = fun_ext (λ i. ground arith)

  -- One book: what is written is the saved book, and the buffer is no smaller.
  record Writes (b : Level2Book) (w : Buffer × ℕ × Memory) : Type 0 where
    large : 4096 ≤ w.0.size
    len : w.1 ≡ needed_size b.bids.count b.asks.count
    before : Memory
    bytes : w.2 ≡ saved copying b before

  write_book_lem :
      (buf : Buffer) (b : Level2Book) → 4096 ≤ buf.size → IsSmall b → Writes b (write_book buf b)
  unfolding write_book serialize_snapshot
  write_book_lem buf b large small =
      elim (dec_lt buf.size (needed_size b.bids.count b.asks.count)) [
        | yes short ↦
            let one : ltb buf.size (needed_size b.bids.count b.asks.count) ≡ true = ground arith in
            let two : ltb (buf.size * 2) (needed_size b.bids.count b.asks.count) ≡ false =
              ground arith in
            rw (write_book, one, two)
              (record { large = omega arith; len = refl; before = buf.bytes; bytes = refl })
        | no enough ↦
            let one : ltb buf.size (needed_size b.bids.count b.asks.count) ≡ false = ground arith in
            let some_bytes : (needed_size b.bids.count b.asks.count == 0) ≡ false = ground arith in
            rw (write_book, one, some_bytes)
              (record { large = large; len = refl; before = buf.bytes; bytes = refl })
      ]

  read_books-write_books :
      (buf : Buffer) (old : Memory) (books intos : List Level2Book)
      → 4096 ≤ buf.size
      → AreSmall books
      → length books ≡ length intos
      → AllSame books (read_books old intos (write_books buf books))
  unfolding write_books read_books
  read_books-write_books buf old [] [] large small same = tt
  read_books-write_books buf old [] (b ∷ intos) large small same = absurd (omega arith)
  read_books-write_books buf old (b ∷ books) [] large small same = absurd (omega arith)
  read_books-write_books buf old (b ∷ books) (into ∷ intos) large small same =
      let w = write_book buf b in
      let v = write_book_lem buf b large small.0 in
      let (locate, bids, asks, size) = small.0 in
      let read : copied old w.2 w.1 ≡ saved copying b old =
        ap₂ (λ m (n : ℕ). copied old m n) v.bytes v.len ∙ copied-saved b v.before old in
      (
        subst (λ r. SameLevels copying b r.0)
            (sym (ap₂ (λ m (n : ℕ). restore_snapshot copying into m n) read v.len))
            (restore_snapshot-saved copying b old into locate bids asks),
        read_books-write_books w.0 (copied old w.2 w.1) books intos v.large small.1 (omega arith),
      )

  -- Books that take 8192 bytes at most (127 levels on both sides together), written to a snapshot and
  -- read back into as many books: the call succeeds, and each book has its symbol and its levels.
  pub read_snapshot-write_snapshot :
      (fresh fresh' : Memory) (books intos : List Level2Book)
      → AreSmall books
      → length books ≡ length intos
      → let (back, done) = read_snapshot fresh' intos (write_snapshot fresh books) in
        (done ≡ true) × AllSame books back
  unfolding read_snapshot write_snapshot
  read_snapshot-write_snapshot fresh fresh' books intos small same = (
    refl,
    read_books-write_books (record { bytes = fresh; size = 4096 }) fresh' books intos (omega arith)
        small same,
  )

  -- The first book, with 128 levels or more, is written as no bytes at all, and reading it back leaves
  -- the book that it is read into as it was.
  pub write_snapshot-loses :
      (fresh fresh' : Memory) (b into : Level2Book)
      → 127 < b.bids.count + b.asks.count
      → (read_snapshot fresh' (into ∷ []) (write_snapshot fresh (b ∷ []))).0 ≡ into ∷ []
  unfolding read_snapshot write_snapshot write_books read_books write_book serialize_snapshot
      restore_snapshot
  write_snapshot-loses fresh fresh' b into many =
      let one : ltb 4096 (needed_size b.bids.count b.asks.count) ≡ true = ground arith in
      let two : ltb 8192 (needed_size b.bids.count b.asks.count) ≡ true = ground arith in
      rw
        (
          read_snapshot, write_snapshot, write_books, read_books, write_book, serialize_snapshot,
          restore_snapshot, one, two,
        )
        refl
