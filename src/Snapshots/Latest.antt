-- ===== src/Snapshots/Latest.antt =====
-- What `load` reads after a `save`.
use itch_feed_handler.Common.{
  ℕ, zero, suc, ◌≤◌, ◌<◌, ◌≡◌, ◌≢◌, arith, refl, sym, ap, ◌∙◌, subst, true, false, ◌&&◌, some, List,
  [], ◌∷◌, ◌++◌, take, length, length-append, Memory, Bool-cases, inl, inr,
}
use itch_feed_handler.Mold.{Session}
use itch_feed_handler.Book.Levels.{PriceLevel}
use itch_feed_handler.Book.Handlers.{Level2Book}
use itch_feed_handler.Book.Saved.{Copying, level_size}
use itch_feed_handler.Book.Archive.{
  SnapshotFile, write_snapshot, read_snapshot, AreSmall, AllSame, read_snapshot-write_snapshot,
}
use itch_feed_handler.Snapshots.Names.{
  Text, trim_end, trim_end-append, is_newline, BookSnapshot, make_path, insert_suffix, eod_suffix,
  latest_ptr_path, latest_eod_ptr_path,
}
use itch_feed_handler.Snapshots.Files.{
  Content, snapshot, line, Store, same_path, Outcome, tmp_name, write_file, write_ptr_file,
  read_ptr_file, save, save_eod, read_file, load_from, load, load_eod,
}

same_path_refl : (p : Text) → same_path p p ≡ true
same_path_refl [] = refl
same_path_refl (x ∷ p) = rw (same_path_refl p) (ground arith)

-- A longer path is another.
longer : (p : Text) (x : ℕ) (s : Text) → same_path p (p ++ x ∷ s) ≡ false
longer [] x s = refl
longer (y ∷ p) x s = rw (longer p x s) (ground arith)

take_all : (n : ℕ) (xs : Text) → length xs ≤ n → take n xs ≡ xs
take_all zero [] h = refl
take_all zero (x ∷ xs) h = absurd (omega arith)
take_all (suc n) [] h = refl
take_all (suc n) (x ∷ xs) h = ap (λ t. x ∷ t) (take_all n xs (omega arith))

-- Both steps of a write succeed.
abbrev pub fine : Outcome
fine = record { opened = true; renamed = true }

-- A path that a pointer file gives back: short enough, with no line end at its end.
pub record IsReadable (path : Text) : Type 0 where
  pub short : length path < 4095
  pub whole : trim_end is_newline path ≡ path
  pub some_path : path ≢ []

-- The path is none of those that a pointer file is written under.
pub record IsApart (path ptr : Text) : Type 0 where
  pub other : same_path path ptr ≡ false
  pub other_tmp : same_path path (tmp_name ptr) ≡ false

write_file_there :
    (st : Store) (path : Text) (c : Content) → (write_file st path c fine).0 path ≡ some c
unfolding write_file
write_file_there st path c =
    rw (longer path b'.' (b't' ∷ b'm' ∷ b'p' ∷ []), same_path_refl path) refl

write_file_elsewhere :
    (st : Store) (path p : Text) (c : Content) (o : Outcome)
    → same_path p path ≡ false
    → same_path p (tmp_name path) ≡ false
    → (write_file st path c o).0 p ≡ st p
unfolding write_file
write_file_elsewhere st path p c o other other_tmp = elim (Bool-cases o.opened) [
  | inl h ↦ elim (Bool-cases o.renamed) [
    | inl k ↦ rw (write_file, h, k, other, other_tmp) refl
    | inr k ↦ rw (write_file, h, k, other_tmp) refl
  ]
  | inr h ↦ rw (write_file, h) refl
]

-- A write that fails leaves every other file than the one beside the place.
write_file_failed :
    (st : Store) (path p : Text) (c : Content) (o : Outcome)
    → o.opened && o.renamed ≡ false
    → same_path p (tmp_name path) ≡ false
    → (write_file st path c o).0 p ≡ st p
unfolding write_file
write_file_failed st path p c o failed other_tmp = elim (Bool-cases o.opened) [
  | inl h ↦ let k : o.renamed ≡ false = ground arith in rw (write_file, h, k, other_tmp) refl
  | inr h ↦ rw (write_file, h) refl
]

write_file_done :
    (st : Store) (path : Text) (c : Content) (o : Outcome)
    → (write_file st path c o).1 ≡ o.opened && o.renamed
unfolding write_file
write_file_done st path c o = elim (Bool-cases o.opened) [
  | inl h ↦ elim (Bool-cases o.renamed) [
    | inl k ↦ rw (write_file, h, k) refl
    | inr k ↦ rw (write_file, h, k) refl
  ]
  | inr h ↦ rw (write_file, h) refl
]

module _ (as_line : SnapshotFile → Text) (as_snapshot : Text → SnapshotFile) where
  read_back :
      (st : Store) (ptr path : Text)
      → IsReadable path
      → read_ptr_file as_line as_snapshot (write_ptr_file st ptr path fine).0 ptr ≡ path
  unfolding read_ptr_file write_ptr_file
  read_back st ptr path r =
      let room : length (path ++ 10 ∷ []) ≤ 4095 =
        rw (length-append path (10 ∷ [])) (omega arith) in
      rw (read_ptr_file, write_ptr_file, write_file_there st ptr (line (path ++ 10 ∷ [])))
        (ap (trim_end is_newline) (take_all 4095 (path ++ 10 ∷ []) room)
          ∙ trim_end-append is_newline path 10 refl
          ∙ r.whole)

  module _ (copying : Copying PriceLevel level_size) where
    -- A pointer file names a path, and a snapshot is under it.
    load_from-there :
        (st : Store) (ptr path : Text) (f : SnapshotFile) (intos : List Level2Book) (fresh : Memory)
        → path ≢ []
        → read_ptr_file as_line as_snapshot st ptr ≡ path
        → st path ≡ some (snapshot f)
        → load_from as_line as_snapshot copying st ptr intos fresh
          ≡ read_snapshot copying fresh intos f
    unfolding load_from read_file
    load_from-there st ptr [] f intos fresh some_path named there = absurd (some_path refl)
    load_from-there st ptr (x ∷ path) f intos fresh some_path named there =
        rw (load_from, named, read_file, there) refl

    named_there :
        (st : Store) (ptr path : Text) (f : SnapshotFile) (intos : List Level2Book) (fresh : Memory)
        → IsReadable path
        → IsApart path ptr
        → st path ≡ some (snapshot f)
        → load_from as_line as_snapshot copying (write_ptr_file st ptr path fine).0 ptr intos fresh
          ≡ read_snapshot copying fresh intos f
    unfolding write_ptr_file
    named_there st ptr path f intos fresh readable apart there =
        load_from-there (write_ptr_file st ptr path fine).0 ptr path f intos fresh
          readable.some_path (read_back st ptr path readable)
          (write_file_elsewhere st ptr path (line (path ++ 10 ∷ [])) fine apart.other
              apart.other_tmp
            ∙ there)

    -- Two stores that agree on the pointer file and on the file it names.
    load_from_congr :
        (st st' : Store) (ptr path : Text) (intos : List Level2Book) (fresh : Memory)
        → st' ptr ≡ st ptr
        → read_ptr_file as_line as_snapshot st ptr ≡ path
        → st' path ≡ st path
        → load_from as_line as_snapshot copying st' ptr intos fresh
          ≡ load_from as_line as_snapshot copying st ptr intos fresh
    unfolding load_from read_file read_ptr_file
    load_from_congr st st' ptr [] intos fresh pointer named there =
        let named' : read_ptr_file as_line as_snapshot st' ptr ≡ [] =
          rw (read_ptr_file, pointer) named in
        rw (load_from, named, named') refl
    load_from_congr st st' ptr (x ∷ path) intos fresh pointer named there =
        let named' : read_ptr_file as_line as_snapshot st' ptr ≡ x ∷ path =
          rw (read_ptr_file, pointer) named in
        rw (load_from, named, named', read_file, there) refl

    -- Books that take 8192 bytes at most, saved where every file can be opened and renamed, under a
    -- path that a pointer file can hold and that is not the pointer file's: `load` of anyone who keeps
    -- the files in the same directory succeeds, and each book has its symbol and its levels.
    load-save :
        (b reader : BookSnapshot) (st : Store) (books intos : List Level2Book) (session : Session)
        (ts : Text) (fresh fresh' : Memory)
        → reader.dir ≡ b.dir
        → IsReadable (make_path b session ts)
        → IsApart (make_path b session ts) (latest_ptr_path b)
        → AreSmall copying books
        → length books ≡ length intos
        → let st' = (save as_line as_snapshot copying b st books session ts fresh fine fine).0 in
          let (back, done) = load as_line as_snapshot copying reader st' intos fresh' in
          (done ≡ true) × AllSame copying books back
    unfolding save
    load-save b reader st books intos session ts fresh fresh' dir readable apart small same =
        let path = make_path b session ts in
        let f = write_snapshot copying fresh books in
        let st' = (write_file st path (snapshot f) fine).0 in
        let loaded : load as_line as_snapshot copying reader
              (save as_line as_snapshot copying b st books session ts fresh fine fine).0 intos
              fresh'
            ≡ read_snapshot copying fresh' intos f =
          rw (save, write_file_done st path (snapshot f) fine, dir)
            (named_there st' (latest_ptr_path b) path f intos fresh' readable apart
              (write_file_there st path (snapshot f))) in
        subst (λ r. (r.1 ≡ true) × AllSame copying books r.0) (sym loaded)
          (read_snapshot-write_snapshot copying fresh fresh' books intos small same)

    -- Books that take 8192 bytes at most, archived where every file can be opened and renamed, under a
    -- path that a pointer file can hold and that is no pointer file's: `load_eod` of anyone who keeps
    -- the files in the same directory succeeds, and each book has its symbol and its levels.
    pub load_eod-save_eod :
        (b reader : BookSnapshot) (st : Store) (books intos : List Level2Book) (session : Session)
        (ts : Text) (fresh fresh' : Memory)
        → let path = insert_suffix (make_path b session ts) eod_suffix in
          reader.dir ≡ b.dir
          → IsReadable path
          → IsApart path (latest_ptr_path b)
          → IsApart path (latest_eod_ptr_path b)
          → AreSmall copying books
          → length books ≡ length intos
          → let st' =
              (save_eod as_line as_snapshot copying b st books session ts fresh fine fine fine).0 in
            let (back, done) = load_eod as_line as_snapshot copying reader st' intos fresh' in
            (done ≡ true) × AllSame copying books back
    unfolding save_eod write_ptr_file
    load_eod-save_eod b reader st books intos session ts fresh fresh' dir readable apart apart_eod
          small same =
        let path = insert_suffix (make_path b session ts) eod_suffix in
        let f = write_snapshot copying fresh books in
        let st1 = (write_file st path (snapshot f) fine).0 in
        let st2 = (write_ptr_file st1 (latest_ptr_path b) path fine).0 in
        let there : st2 path ≡ some (snapshot f) =
          write_file_elsewhere st1 (latest_ptr_path b) path (line (path ++ 10 ∷ [])) fine
            apart.other apart.other_tmp
          ∙ write_file_there st path (snapshot f) in
        let loaded : load_eod as_line as_snapshot copying reader
              (save_eod as_line as_snapshot copying b st books session ts fresh fine fine fine).0
              intos fresh'
            ≡ read_snapshot copying fresh' intos f =
          rw (save_eod, write_file_done st path (snapshot f) fine, dir)
            (named_there st2 (latest_eod_ptr_path b) path f intos fresh' readable apart_eod
              there) in
        subst (λ r. (r.1 ≡ true) × AllSame copying books r.0) (sym loaded)
          (read_snapshot-write_snapshot copying fresh fresh' books intos small same)

    -- A save whose snapshot cannot be opened or renamed says so, and `load` reads what it read before,
    -- when neither the pointer file nor the file it names is the one beside the snapshot's place.
    pub load-save_failed :
        (b : BookSnapshot) (st : Store) (books intos : List Level2Book) (session : Session)
        (ts : Text) (fresh fresh' : Memory) (o ptr : Outcome)
        → o.opened && o.renamed ≡ false
        → same_path (latest_ptr_path b) (tmp_name (make_path b session ts)) ≡ false
        → same_path
            (read_ptr_file as_line as_snapshot st (latest_ptr_path b))
            (tmp_name (make_path b session ts))
          ≡ false
        → let (st', done) = save as_line as_snapshot copying b st books session ts fresh o ptr in
          (done ≡ false)
          × (load as_line as_snapshot copying b st' intos fresh'
              ≡ load as_line as_snapshot copying b st intos fresh')
    unfolding save load_from read_ptr_file
    load-save_failed b st books intos session ts fresh fresh' o ptr failed ptr_other other =
        let path = make_path b session ts in
        let c = snapshot (write_snapshot copying fresh books) in
        rw (save, write_file_done st path c o, failed)
          (
            refl,
            load_from_congr st (write_file st path c o).0 (latest_ptr_path b)
                (read_ptr_file as_line as_snapshot st (latest_ptr_path b)) intos fresh'
                (write_file_failed st path (latest_ptr_path b) c o failed ptr_other) refl
                (write_file_failed st path
                  (read_ptr_file as_line as_snapshot st (latest_ptr_path b)) c o failed other),
          )
