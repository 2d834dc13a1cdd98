-- ===== src/Spsc/Fifo.antt =====
-- What a push or a pop that goes through does to the contents of a queue.
use itch_feed_handler.Common.{
  ℕ, zero, suc, ◌+◌, ◌-◌, ◌%◌, ◌≤◌, ◌<◌, ◌≡◌, ◌≢◌, ◌↔◌, ap, ap₂, arith, [], ◌∷◌, ◌++◌, length,
  update, update_self, update_ne,
}
use itch_feed_handler.Spsc.{SpscQueue, word, next_pos, distance, size_approx}
use itch_feed_handler.Spsc.Invariant.{
  Counters, IsValid, window, contents, length-window, distance_lem, next_pos-mod, index_lem,
}

mod_ne : (capacity a b : ℕ) → a < b → b < a + capacity → a % capacity ≢ b % capacity
mod_ne capacity a b h k e = grind arith

module _ {ℓ} {T : Type ℓ} (capacity : ℕ) where
  -- A write in front of the window's end extends it.
  pub window-update :
      (buffer : ℕ → T) (x : T) (r n w i : ℕ)
      → w ≡ r + n
      → n < capacity
      → i ≡ w % capacity
      → window capacity (update buffer i x) r (suc n) ≡ window capacity buffer r n ++ x ∷ []
  window-update buffer x r zero w i e h slot =
      let here : r ≡ w = omega arith in
      ap (λ v. v ∷ []) (rw (here, ← slot) (update_self buffer i x))
  window-update buffer x r (suc n) w i e h slot =
      ap₂ ◌∷◌
        (update_ne buffer i x (r % capacity)
          (rw slot (mod_ne capacity r w (omega arith) (omega arith))))
        (window-update buffer x (suc r) n w i (omega arith) (omega arith) slot)

  module _ (c : Counters) (q : SpscQueue T) (v : IsValid capacity c q) where
    pub free_seen : distance q.write_pos q.cached_read_pos ≡ c.written - c.seen_read
    free_seen =
        rw (v.write, v.cached_read) (distance_lem c.written c.seen_read (omega arith) (omega arith))

    pub size_approx-length : size_approx q ≡ length (contents capacity c q)
    unfolding size_approx
    size_approx-length =
        rw (v.write, v.read, length-window capacity q.buffer c.read (c.written - c.read))
          (distance_lem c.written c.read (omega arith) (omega arith))

    pub seen_full : distance q.write_pos q.read_pos ≡ c.written - c.read
    seen_full = rw (v.write, v.read) (distance_lem c.written c.read (omega arith) (omega arith))

    pub seen_empty : (q.read_pos ≡ q.cached_write_pos) ↔ (c.read ≡ c.seen_written)
    seen_empty = (λ e. omega (arith, v.read, v.cached_write), λ e. rw (v.read, v.cached_write, e))

    pub empty : (q.read_pos ≡ q.write_pos) ↔ (c.read ≡ c.written)
    empty = (λ e. omega (arith, v.read, v.write), λ e. rw (v.read, v.write, e))

    -- Each side may bring its copy of the other's position up to date.
    pub saw_read-IsValid :
        IsValid capacity
          (record c { seen_read = c.read })
          (record q { cached_read_pos = q.read_pos })
    saw_read-IsValid = record {
      positive = v.positive;
      small = v.small;
      divides = v.divides;
      write = v.write;
      read = v.read;
      cached_write = v.cached_write;
      cached_read = v.read;
      seen_read_behind = omega arith;
      read_behind = v.read_behind;
      seen_written_behind = v.seen_written_behind;
      bounded = omega arith;
    }

    pub saw_written-IsValid :
        IsValid capacity
          (record c { seen_written = c.written })
          (record q { cached_write_pos = q.write_pos })
    saw_written-IsValid = record {
      positive = v.positive;
      small = v.small;
      divides = v.divides;
      write = v.write;
      read = v.read;
      cached_write = v.write;
      cached_read = v.cached_read;
      seen_read_behind = v.seen_read_behind;
      read_behind = omega arith;
      seen_written_behind = omega arith;
      bounded = v.bounded;
    }

    -- A push that goes through, with what the producer then knows of the consumer.
    module _ (x : T) (seen cached : ℕ) (fresh : cached ≡ seen % word) (behind : seen ≤ c.read)
        (room : c.written < seen + capacity) where
      abbrev pub pushed : SpscQueue T
      pushed = record q {
        cached_read_pos = cached;
        buffer = update q.buffer (q.write_pos % capacity) x;
        write_pos = next_pos q.write_pos;
      }

      abbrev pub pushed_counters : Counters
      pushed_counters = record c { written = suc c.written; seen_read = seen }

      pub pushed-IsValid : IsValid capacity pushed_counters pushed
      pushed-IsValid = record {
        positive = v.positive;
        small = v.small;
        divides = v.divides;
        write = rw v.write (next_pos-mod c.written);
        read = v.read;
        cached_write = v.cached_write;
        cached_read = fresh;
        seen_read_behind = behind;
        read_behind = v.read_behind;
        seen_written_behind = omega arith;
        bounded = omega arith;
      }

      pub pushed-contents :
          contents capacity pushed_counters pushed ≡ contents capacity c q ++ x ∷ []
      pushed-contents =
          let more : suc c.written - c.read ≡ suc (c.written - c.read) = omega arith in
          rw more (
            window-update q.buffer x c.read (c.written - c.read) c.written (q.write_pos % capacity)
              (omega arith) (omega arith) (rw v.write (index_lem capacity c.written v.divides)))

    -- A pop that goes through, with what the consumer then knows of the producer.
    module _ (seen cached : ℕ) (fresh : cached ≡ seen % word) (ahead : c.read < seen)
        (behind : seen ≤ c.written) where
      abbrev pub popped : SpscQueue T
      popped = record q { cached_write_pos = cached; read_pos = next_pos q.read_pos }

      abbrev pub popped_counters : Counters
      popped_counters = record c { read = suc c.read; seen_written = seen }

      pub popped-IsValid : IsValid capacity popped_counters popped
      popped-IsValid = record {
        positive = v.positive;
        small = v.small;
        divides = v.divides;
        write = v.write;
        read = rw v.read (next_pos-mod c.read);
        cached_write = fresh;
        cached_read = v.cached_read;
        seen_read_behind = omega arith;
        read_behind = omega arith;
        seen_written_behind = behind;
        bounded = v.bounded;
      }

      pub popped-contents :
          contents capacity c q
          ≡ q.buffer (q.read_pos % capacity) ∷ contents capacity popped_counters popped
      popped-contents =
          let more : c.written - c.read ≡ suc (c.written - suc c.read) = omega arith in
          let slot : q.read_pos % capacity ≡ c.read % capacity =
            rw v.read (index_lem capacity c.read v.divides) in
          rw (more, slot)
