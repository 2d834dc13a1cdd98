-- ===== src/Recovery/Persist.antt =====
-- src/recovery/persistent_sequence.cpp and include/recovery/persistent_sequence.hpp: the last sequence
-- number, kept over a restart. The file is what a read of it gives; the results of the system calls
-- are arguments. The log lines and the sleeping are left out.
use itch_feed_handler.Common.{
  ℕ, ◌≡◌, ◌⊎◌, inl, inr, arith, refl, ap, ◌∙◌, Bool, true, ◌&&◌, Option, none, some, [], ◌∷◌, ◌==◌,
  if◌then◌else◌, Bool-cases,
}
use itch_feed_handler.Message.{Chars4}
use itch_feed_handler.Mold.{Session}
use itch_feed_handler.Lifecycle.Manager.{no_session}
use itch_feed_handler.Spsc.{SpscQueue, try_push, try_pop}
use itch_feed_handler.Spsc.Queue.{Holds}
use itch_feed_handler.Spsc.Client.{try_pop-Holds}

pub record PersistRecord : Type 0 where
  pub magic : Chars4
  pub session : Session
  pub version : ℕ
  pub seq : ℕ

pub record LoadedSeq : Type 0 where
  pub seq : ℕ
  pub session : Session

-- What is at the path: nothing that can be opened, less than a record, or a record.
pub data File : Type 0 where
  missing truncated : File
  whole : PersistRecord → File

-- `{'I','T','C','S'}`
abbrev pub file_magic : Chars4
file_magic = record { c0 = b'I'; c1 = b'T'; c2 = b'C'; c3 = b'S' }

abbrev is_magic : Chars4 → Bool
is_magic m = m.c0 == b'I' && m.c1 == b'T' && m.c2 == b'C' && m.c3 == b'S'

abbrev pub cold_start : LoadedSeq
cold_start = record { seq = 0; session = no_session }

-- `PersistentSequence::load`
unfoldable pub load : File → LoadedSeq
load missing = cold_start
load truncated = cold_start
load (whole r) =
    if is_magic r.magic then record { seq = r.seq; session = r.session } else cold_start

-- The calls of `save_sync`: whether the file was opened, the record written whole, and the file
-- renamed.
pub record SaveResult : Type 0 where
  pub opened : Bool
  pub written : Bool
  pub renamed : Bool

-- `PersistentSequence::save_sync`: the file at the path. The temporary file is a path of its own, and
-- a rename replaces the file in one step.
unfoldable pub save_sync : File → ℕ → Session → SaveResult → File
save_sync f seq session r =
    if r.opened && r.written && r.renamed
    then whole (record { magic = file_magic; session = session; version = 1; seq = seq })
    else f

pub record SeqRecord : Type 0 where
  pub seq : ℕ
  pub session : Session

-- `Queue`
abbrev pub queue_depth : ℕ
queue_depth = 2

-- `PersistentSequence::enqueue`
unfoldable pub enqueue : SpscQueue SeqRecord → ℕ → Session → SpscQueue SeqRecord
enqueue q seq session = (try_push queue_depth q (record { seq = seq; session = session })).0

-- One `try_pop` with the save of what it gives: by the loop of `run`, and by `stop` at the end. `none`
-- says that the queue was empty.
unfoldable pub save_next :
    SpscQueue SeqRecord → File → SaveResult → SpscQueue SeqRecord × Option File
save_next q f r =
    let (q', item) = try_pop queue_depth q in
    (q', elim item [ none ↦ none | some x ↦ some (save_sync f x.seq x.session r) ])

-- `PersistentSequence::stop` after the thread has ended.
unfoldable pub stop : SpscQueue SeqRecord → File → SaveResult → SpscQueue SeqRecord × File
stop q f r = let (q', saved) = save_next q f r in (q', elim saved [ none ↦ f | some f' ↦ f' ])

-- Whatever goes wrong in a save, a load then gives the number and the session of that save or what it
-- gave before; if nothing goes wrong, those of the save.
pub load-save_sync :
    (f : File) (seq : ℕ) (session : Session) (r : SaveResult)
    → let saved : LoadedSeq = record { seq = seq; session = session } in
      ((load (save_sync f seq session r) ≡ saved) ⊎ (load (save_sync f seq session r) ≡ load f))
      × ((r.opened && r.written && r.renamed) ≡ true → load (save_sync f seq session r) ≡ saved)
unfolding load save_sync
load-save_sync f seq session r = elim (Bool-cases (r.opened && r.written && r.renamed)) [
  | inl fine ↦ rw fine (inl refl, λ h. refl)
  | inr wrong ↦ rw wrong (inr refl, λ h. absurd (ground arith))
]

-- The queue may hold two records when the writer ends; `stop` saves the older one and leaves the newer
-- one, so the file ends up behind.
pub stop-leaves :
    (q : SpscQueue SeqRecord) (f : File) (r : SaveResult) (older newer : SeqRecord)
    → Holds queue_depth q (older ∷ newer ∷ [])
    → (r.opened && r.written && r.renamed) ≡ true
    → let (q', f') = stop q f r in
      (load f' ≡ record { seq = older.seq; session = older.session })
      × Holds queue_depth q' (newer ∷ [])
unfolding stop save_next
stop-leaves q f r older newer h fine =
    let (left, popped) = try_pop-Holds queue_depth q (older ∷ newer ∷ []) h in
    let run : (stop q f r).1 ≡ save_sync f older.seq older.session r =
      rw (stop, save_next, popped) refl in
    (ap load run ∙ (load-save_sync f older.seq older.session r).1 fine, left)
