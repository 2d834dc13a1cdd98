-- ===== src/Examples/Locks.antt =====
-- The theorem on the sequence lock at a load of one word after a store.
use itch_feed_handler.Common.{ℕ, ◌+◌, ◌/◌, ◌≡◌, arith, refl, true, false, update}
use itch_feed_handler.Locks.{
  SeqLock, Reach, here, next, begin_store, write_word, end_store, begin_load, read_word, initial,
  load-whole,
}
use itch_feed_handler.Locks.Progress.{Returns, load-Returns}

-- The k-th store writes 10 + k.
abbrev values : ℕ → ℕ → ℕ
values k i = 10 + k

abbrev buffer : ℕ → ℕ
buffer i = 0

abbrev l0 : SeqLock
l0 = initial 1 values buffer

abbrev storing : SeqLock
storing = record l0 { seq = l0.seq + 1; writing = true; written = λ i. false }

abbrev written_once : SeqLock
written_once = record storing {
  words = update storing.words 0 (values (storing.seq / 2 + 1) 0);
  written = update storing.written 0 true;
}

abbrev stored : SeqLock
stored = record written_once { seq = written_once.seq + 1; writing = false }

abbrev loading : SeqLock
loading = record stored { reading = true; started = stored.seq; got = λ i. false }

abbrev loaded : SeqLock
loaded = record loading {
  buffer = update loading.buffer 0 (loading.words 0);
  got = update loading.got 0 true;
}

loaded-Reach : Reach 1 values l0 loaded
loaded-Reach =
    next
      (next
        (next (next (next here (begin_store l0 refl)) (write_word storing 0 refl))
          (end_store written_once refl (λ i h. ground arith)))
        (begin_load stored refl))
      (read_word loading 0 refl)

load-whole_example : loaded.buffer 0 ≡ values (loaded.started / 2) 0
load-whole_example =
    load-whole 1 values buffer loaded loaded-Reach refl (λ i h. ground arith) refl (omega arith) 0
      (omega arith)

storing-Reach : Reach 1 values l0 storing
storing-Reach = next here (begin_store l0 refl)

load-Returns_example :
    (m : SeqLock) × Reach 1 values storing m × Returns 1 values m ((storing.seq + 1) / 2)
load-Returns_example = load-Returns 1 values buffer storing storing-Reach
