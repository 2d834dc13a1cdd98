-- ===== src/Merger/Window.antt =====
-- include/workers/feed_merger.hpp, `DedupWindow`: which of the last sequence numbers were forwarded.
-- The two words are an array. `base_ + DEDUP_WINDOW_SIZE` wraps at 64 bits.
use itch_feed_handler.Common.{
  ℕ, zero, suc, ◌+◌, ◌-◌, ◌/◌, ◌%◌, ◌^◌, Bool, true, false, Option, none, some, ltb, leb, ◌==◌, not,
  if◌then◌else◌, update, bit_and, bit_or, ◌>>=◌,
}

-- `DEDUP_WINDOW_SIZE`
abbrev pub dedup_window_size : ℕ
dedup_window_size = 128

pub record DedupWindow : Type 0 where
  pub base : ℕ
  pub bits : ℕ → ℕ

-- `DedupWindow::reset`, and the values of a new window.
unfoldable pub reset : DedupWindow → DedupWindow
reset w = record w { base = 0; bits = update (update w.bits 0 0) 1 0 }

-- The body of the loop of `check_and_mark`: one block of 64 numbers is given up.
unfoldable pub slide : DedupWindow → DedupWindow
slide w = record w { base = (w.base + 64) % 2 ^ 64; bits = update (update w.bits 0 (w.bits 1)) 1 0 }

-- The loop of `check_and_mark`, with a bound on its rounds; `none` if they do not suffice.
unfoldable pub slide_to : ℕ → DedupWindow → ℕ → Option DedupWindow
slide_to zero w seq = if leb ((w.base + dedup_window_size) % 2 ^ 64) seq then none else some w
slide_to (suc fuel) w seq =
    let rest = slide_to fuel (slide w) seq in
    if leb ((w.base + dedup_window_size) % 2 ^ 64) seq then rest else some w

-- What follows the loop.
unfoldable pub mark : DedupWindow → ℕ → DedupWindow × Bool
mark w seq =
    let offset = seq - w.base in
    let word = offset / 64 in
    let mask = 2 ^ (offset % 64) in
    if not (bit_and (w.bits word) mask == 0)
    then (w, false)
    else (record w { bits = update w.bits word (bit_or (w.bits word) mask) }, true)

-- `DedupWindow::check_and_mark`
unfoldable pub check_and_mark : DedupWindow → ℕ → Option (DedupWindow × Bool)
check_and_mark w seq =
    if ltb seq w.base
    then some (w, false)
    else slide_to (seq / 64) w seq >>= λ w'. some (mark w' seq)
