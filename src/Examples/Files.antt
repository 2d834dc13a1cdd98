-- ===== src/Examples/Files.antt =====
-- The theorems on the snapshot files at a directory that is empty, and at one that holds a snapshot.
use itch_feed_handler.Common.{ℕ, ◌≡◌, ◌≢◌, arith, refl, ap, suc, true, false, none, [], ◌∷◌, length}
use itch_feed_handler.Lifecycle.Manager.{no_session}
use itch_feed_handler.Book.Archive.{SnapshotFile, AllSame}
use itch_feed_handler.Snapshots.Names.{
  Text, BookSnapshot, make_path, insert_suffix, eod_suffix, latest_ptr_path, latest_eod_ptr_path,
  replace_token, replace_from, rfind, trim_session,
}
use itch_feed_handler.Snapshots.Files.{
  Store, Outcome, read_ptr_file, save, save_eod, load, load_eod,
}
use itch_feed_handler.Snapshots.Latest.{
  fine, IsReadable, IsApart, load_eod-save_eod, load-save_failed,
}
use itch_feed_handler.Assembly.Config.{codes}
use itch_feed_handler.Examples.Book.{book}
use itch_feed_handler.Examples.Archive.{copying, crossed}

abbrev shard_0 : BookSnapshot
shard_0 = record { dir = codes "/d"; tmpl = codes "b_{timestamp}_s0.snap" }

abbrev shard_1 : BookSnapshot
shard_1 = record { dir = codes "/d"; tmpl = codes "b_{timestamp}_s1.snap" }

abbrev as_line : SnapshotFile → Text
as_line f = []

abbrev as_snapshot : Text → SnapshotFile
as_snapshot t = record { magic = 0; count = 0; entries = [] }

abbrev empty : Store
empty p = none

abbrev path : Text
path = insert_suffix (make_path shard_0 no_session (codes "77")) eod_suffix

path_lem : path ≡ codes "/d/b_77_s0_EOD.snap"
unfolding make_path insert_suffix replace_token replace_from rfind trim_session
path_lem = refl

some_byte : (x : ℕ) (s : Text) → (x ∷ s) ≢ []
some_byte x s e = let h : suc (length s) ≡ 0 = ap length e in absurd (omega arith)

path-IsReadable : IsReadable path
unfolding make_path insert_suffix replace_token replace_from rfind trim_session
path-IsReadable = record { short = omega arith; whole = refl; some_path = some_byte _ _ }

path-IsApart : IsApart path (latest_ptr_path shard_0)
unfolding make_path insert_suffix replace_token replace_from rfind trim_session
path-IsApart = record { other = refl; other_tmp = refl }

path-IsApart_eod : IsApart path (latest_eod_ptr_path shard_0)
unfolding make_path insert_suffix replace_token replace_from rfind trim_session
path-IsApart_eod = record { other = refl; other_tmp = refl }

-- Shard 1 reads what shard 0 wrote.
load_eod-save_eod_example :
    let (st, saved) =
      save_eod as_line as_snapshot copying shard_0 empty
        (book ∷ [])
        no_session
        (codes "77")
        (λ i. 1)
        fine
        fine
        fine in
    let (back, done) = load_eod as_line as_snapshot copying shard_1 st (crossed ∷ []) (λ i. 2) in
    (done ≡ true) × AllSame copying (book ∷ []) back
load_eod-save_eod_example =
    load_eod-save_eod as_line as_snapshot copying shard_0 shard_1 empty (book ∷ []) (crossed ∷ [])
      no_session (codes "77") (λ i. 1) (λ i. 2) refl path-IsReadable path-IsApart path-IsApart_eod
      ((omega arith, omega arith, omega arith, omega arith), tt) refl

abbrev full : Outcome
full = record { opened = false; renamed = true }

load-save_failed_example :
    let (st, done) =
      save as_line as_snapshot copying shard_0 empty
        (book ∷ [])
        no_session
        (codes "77")
        (λ i. 1)
        full
        fine in
    (done ≡ false)
    × (load as_line as_snapshot copying shard_0 st (crossed ∷ []) (λ i. 2)
        ≡ load as_line as_snapshot copying shard_0 empty (crossed ∷ []) (λ i. 2))
unfolding make_path replace_token replace_from trim_session read_ptr_file
load-save_failed_example =
    load-save_failed as_line as_snapshot copying shard_0 empty (book ∷ []) (crossed ∷ []) no_session
      (codes "77") (λ i. 1) (λ i. 2) full fine refl refl refl
