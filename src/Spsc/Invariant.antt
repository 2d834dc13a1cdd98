-- ===== src/Spsc/Invariant.antt =====
-- The positions of a queue as counters that do not wrap, and what the queue holds.
use itch_feed_handler.Common.{
  ℕ, zero, suc, ◌+◌, ◌-◌, ◌%◌, ◌≤◌, ◌<◌, ◌≡◌, refl, arith, List, [], ◌∷◌, length,
}
use Prim.Native.Nat.{◌∣◌}
use native.Mathlib.Nat.{mod-mod_of_dvd}
use itch_feed_handler.Spsc.{SpscQueue, word, next_pos, distance}

-- What the counters have come to since the start: the consumer is behind the producer by at most
-- the capacity, and each side's copy of the other's position lags behind it.
pub record Counters : Type 0 where
  pub written : ℕ
  pub read : ℕ
  pub seen_written : ℕ
  pub seen_read : ℕ

pub record IsValid {ℓ} {T : Type ℓ} (capacity : ℕ) (c : Counters) (q : SpscQueue T) : Type 0 where
  pub positive : 0 < capacity
  pub small : capacity < word
  pub divides : capacity ∣ word
  pub write : q.write_pos ≡ c.written % word
  pub read : q.read_pos ≡ c.read % word
  pub cached_write : q.cached_write_pos ≡ c.seen_written % word
  pub cached_read : q.cached_read_pos ≡ c.seen_read % word
  pub seen_read_behind : c.seen_read ≤ c.read
  pub read_behind : c.read ≤ c.seen_written
  pub seen_written_behind : c.seen_written ≤ c.written
  pub bounded : c.written ≤ c.seen_read + capacity

module _ {ℓ} {T : Type ℓ} (capacity : ℕ) where
  -- The `n` items from counter `r` on.
  abbrev pub window : (ℕ → T) → ℕ → ℕ → List T
  window buffer r zero = []
  window buffer r (suc n) = buffer (r % capacity) ∷ window buffer (suc r) n

  abbrev pub contents : Counters → SpscQueue T → List T
  contents c q = window q.buffer c.read (c.written - c.read)

  pub length-window : (buffer : ℕ → T) (r n : ℕ) → length (window buffer r n) ≡ n
  length-window buffer r zero = refl
  length-window buffer r (suc n) = omega (arith, length-window buffer (suc r) n)

-- The distance of two positions is that of their counters.
pub distance_lem : (a b : ℕ) → b ≤ a → a < b + word → distance (a % word) (b % word) ≡ a - b
distance_lem a b h k = omega arith

pub next_pos-mod : (a : ℕ) → next_pos (a % word) ≡ suc a % word
next_pos-mod a = omega arith

pub index_lem : (capacity a : ℕ) → capacity ∣ word → a % word % capacity ≡ a % capacity
index_lem capacity a d = mod-mod_of_dvd capacity a d
