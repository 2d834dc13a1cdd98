-- ===== src/Snapshots/Files.antt =====
-- src/recovery/book_snapshot.cpp, `save`, `save_eod`, `load` and `load_eod`: a snapshot is written under a
-- name of its own, and a pointer file then names it. A file is written beside its place and renamed.
use itch_feed_handler.Common.{
  Bool, true, false, ◌&&◌, Option, none, some, List, [], ◌∷◌, ◌++◌, take, ◌==◌, if◌then◌else◌,
  Memory,
}
use itch_feed_handler.Mold.{Session}
use itch_feed_handler.Book.Levels.{PriceLevel}
use itch_feed_handler.Book.Handlers.{Level2Book}
use itch_feed_handler.Book.Saved.{Copying, level_size}
use itch_feed_handler.Book.Archive.{SnapshotFile, write_snapshot, read_snapshot}
use itch_feed_handler.Snapshots.Names.{
  Text, trim_end, is_newline, BookSnapshot, make_path, insert_suffix, eod_suffix, latest_ptr_path,
  latest_eod_ptr_path,
}

-- What is in a file: a snapshot, or the line of a pointer file.
pub data Content : Type 0 where
  snapshot : SnapshotFile → Content
  line : Text → Content

-- The files by their paths.
abbrev pub Store : Type 0
Store = Text → Option Content

abbrev pub same_path : Text → Text → Bool
same_path [] [] = true
same_path [] (y ∷ t) = false
same_path (x ∷ s) [] = false
same_path (x ∷ s) (y ∷ t) = (x == y) && same_path s t

abbrev pub put : Store → Text → Option Content → Store
put st path c p = if same_path p path then c else st p

-- Whether a file was opened for writing, and whether it was renamed.
pub record Outcome : Type 0 where
  pub opened : Bool
  pub renamed : Bool

-- `".tmp"`
abbrev pub tmp_name : Text → Text
tmp_name path = path ++ b'.' ∷ b't' ∷ b'm' ∷ b'p' ∷ []

-- The file around the writes of `write_snapshot` and of `write_ptr_file`.
unfoldable pub write_file : Store → Text → Content → Outcome → Store × Bool
write_file st path c o =
    let written = put st (tmp_name path) (some c) in
    if o.opened
    then (if o.renamed
        then (put (put written path (some c)) (tmp_name path) none, true)
        else (written, false))
    else (st, false)

-- `BookSnapshot::write_ptr_file`
unfoldable pub write_ptr_file : Store → Text → Text → Outcome → Store × Bool
write_ptr_file st ptr_path snap_path o = write_file st ptr_path (line (snap_path ++ 10 ∷ [])) o

-- How the bytes of a file of the one kind read as the other.
module _ (as_line : SnapshotFile → Text) (as_snapshot : Text → SnapshotFile) where
  abbrev pub text_of : Content → Text
  text_of (line t) = t
  text_of (snapshot f) = as_line f

  abbrev pub file_of : Content → SnapshotFile
  file_of (line t) = as_snapshot t
  file_of (snapshot f) = f

  -- `BookSnapshot::read_ptr_file`
  unfoldable pub read_ptr_file : Store → Text → Text
  read_ptr_file st ptr_path = elim (st ptr_path) [
    | none ↦ []
    | some c ↦ trim_end is_newline (take 4095 (text_of c))
  ]

  module _ (copying : Copying PriceLevel level_size) where
    -- `BookSnapshot::save`, with the time as it is written, the new buffer, and what becomes of the two
    -- files.
    unfoldable pub save :
        BookSnapshot
        → Store
        → List Level2Book
        → Session
        → Text
        → Memory
        → Outcome
        → Outcome
        → Store × Bool
    save b st books session ts fresh o ptr =
        let final_path = make_path b session ts in
        let (st', done) =
          write_file st final_path (snapshot (write_snapshot copying fresh books)) o in
        if done
        then ((write_ptr_file st' (latest_ptr_path b) final_path ptr).0, true)
        else (st', false)

    -- `BookSnapshot::save_eod`
    unfoldable pub save_eod :
        BookSnapshot
        → Store
        → List Level2Book
        → Session
        → Text
        → Memory
        → Outcome
        → Outcome
        → Outcome
        → Store × Bool
    save_eod b st books session ts fresh o ptr ptr_eod =
        let final_path = insert_suffix (make_path b session ts) eod_suffix in
        let (st', done) =
          write_file st final_path (snapshot (write_snapshot copying fresh books)) o in
        let st'' = (write_ptr_file st' (latest_ptr_path b) final_path ptr).0 in
        if done
        then ((write_ptr_file st'' (latest_eod_ptr_path b) final_path ptr_eod).0, true)
        else (st', false)

    -- `BookSnapshot::read_snapshot` with the opening of the file.
    unfoldable pub read_file : Store → Text → List Level2Book → Memory → List Level2Book × Bool
    read_file st path books fresh = elim (st path) [
      | none ↦ (books, false)
      | some c ↦ read_snapshot copying fresh books (file_of c)
    ]

    -- `BookSnapshot::load` and `BookSnapshot::load_eod`, by the path of the pointer file.
    unfoldable pub load_from : Store → Text → List Level2Book → Memory → List Level2Book × Bool
    load_from st ptr_path books fresh = elim (read_ptr_file st ptr_path) [
      | [] ↦ (books, false)
      | x ∷ path ↦ read_file st (x ∷ path) books fresh
    ]

    abbrev pub load : BookSnapshot → Store → List Level2Book → Memory → List Level2Book × Bool
    load b st books fresh = load_from st (latest_ptr_path b) books fresh

    abbrev pub load_eod : BookSnapshot → Store → List Level2Book → Memory → List Level2Book × Bool
    load_eod b st books fresh = load_from st (latest_eod_ptr_path b) books fresh
