-- ===== src/Spsc.antt =====
-- include/concurrency/spsc_queue.hpp: the ring between one producer and one consumer. Each call is
-- one step here. Positions are 64-bit counters that wrap; `Capacity` is a power of two, so the mask
-- `& (Capacity - 1)` is the remainder by it.
pub mod Invariant
pub mod Fifo
pub mod Queue
pub mod History
pub mod Client
use itch_feed_handler.Common.{
  ℕ, ◌+◌, ◌-◌, ◌%◌, ◌^◌, Bool, true, false, Option, none, some, leb, ltb, ◌==◌, if◌then◌else◌,
  update,
}

-- `size_t` addition and subtraction
abbrev pub word : ℕ
word = 2 ^ 64

abbrev pub next_pos : ℕ → ℕ
next_pos p = (p + 1) % word

abbrev pub distance : ℕ → ℕ → ℕ
distance a b = (a + word - b) % word

pub record SpscQueue {ℓ} (T : Type ℓ) : Type ℓ where
  pub write_pos : ℕ
  pub cached_read_pos : ℕ
  pub buffer : ℕ → T
  pub cached_write_pos : ℕ
  pub read_pos : ℕ

module _ {ℓ} {T : Type ℓ} (capacity : ℕ) where
  -- `SpscQueue::try_push`
  unfoldable pub try_push : SpscQueue T → T → SpscQueue T × Bool
  try_push q item =
      let pushed = λ (cached : ℕ). (record q {
        cached_read_pos = cached;
        buffer = update q.buffer (q.write_pos % capacity) item;
        write_pos = next_pos q.write_pos;
      }) in
      if leb capacity (distance q.write_pos q.cached_read_pos)
      then (if leb capacity (distance q.write_pos q.read_pos)
          then (record q { cached_read_pos = q.read_pos }, false)
          else (pushed q.read_pos, true))
      else (pushed q.cached_read_pos, true)

  -- `SpscQueue::try_pop`, with `none` for `false`
  unfoldable pub try_pop : SpscQueue T → SpscQueue T × Option T
  try_pop q =
      let popped =
        λ (cached : ℕ). (record q { cached_write_pos = cached; read_pos = next_pos q.read_pos }) in
      let item = q.buffer (q.read_pos % capacity) in
      if q.read_pos == q.cached_write_pos
      then (if q.read_pos == q.write_pos
          then (record q { cached_write_pos = q.write_pos }, none)
          else (popped q.write_pos, some item))
      else (popped q.cached_write_pos, some item)

-- `SpscQueue::size_approx` and `SpscQueue::is_pressure_high`
unfoldable pub size_approx {ℓ} : {T : Type ℓ} → SpscQueue T → ℕ
size_approx q = distance q.write_pos q.read_pos

unfoldable pub is_pressure_high {ℓ} : {T : Type ℓ} → SpscQueue T → ℕ → Bool
is_pressure_high q high_watermark = leb high_watermark (distance q.write_pos q.read_pos)
