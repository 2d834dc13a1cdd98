-- ===== src/Spsc/Queue.antt =====
-- The queue against a bounded list: what was pushed comes out once, in order.
use itch_feed_handler.Common.{
  ℕ, ◌+◌, ◌-◌, ◌%◌, ◌≡◌, refl, arith, Bool, true, false, Option, none, some, List, [], ◌∷◌, ◌++◌,
  length, dec_lt, ltb, if◌then◌else◌,
}
use itch_feed_handler.Spsc.{SpscQueue, try_push, try_pop}
use itch_feed_handler.Spsc.Invariant.{Counters, IsValid, contents, length-window}
use itch_feed_handler.Spsc.Fifo.{
  saw_read-IsValid, saw_written-IsValid, free_seen, seen_full, seen_empty, empty, pushed-IsValid,
  pushed-contents, popped-IsValid, popped-contents, pushed, popped,
}

module _ {ℓ} {T : Type ℓ} (capacity : ℕ) where
  -- What the queue promises.
  abbrev pub push_list : List T → T → List T × Bool
  push_list xs x = if ltb (length xs) capacity then (xs ++ x ∷ [], true) else (xs, false)

  abbrev pub pop_list : List T → List T × Option T
  pop_list [] = ([], none)
  pop_list (x ∷ xs) = (xs, some x)

  -- A valid queue that holds the items of a list, oldest first.
  abbrev pub Holds : SpscQueue T → List T → Type ℓ
  Holds q xs = (c : Counters) × IsValid capacity c q × (contents capacity c q ≡ xs)

  length-contents :
      (c : Counters) (q : SpscQueue T) → length (contents capacity c q) ≡ c.written - c.read
  length-contents c q = length-window capacity q.buffer c.read (c.written - c.read)

  -- A push returns what the list returns, and leaves the queue holding that list: it fails exactly
  -- on a full queue, though the producer's copy of the read position may be stale.
  pub try_push_refines :
      (c : Counters) (q : SpscQueue T) (x : T)
      → IsValid capacity c q
      → let (q', done) = try_push capacity q x in
        let (xs, done') = push_list (contents capacity c q) x in Holds q' xs × (done ≡ done')
  unfolding try_push
  try_push_refines c q x v = elim (dec_lt c.written (c.seen_read + capacity)) [
    | yes p ↦
        let run : try_push capacity q x ≡ (
          pushed capacity c q v x c.seen_read q.cached_read_pos v.cached_read v.seen_read_behind p,
          true,
        ) =
          ground (arith, free_seen capacity c q v) in
        let spec : push_list (contents capacity c q) x ≡ (contents capacity c q ++ x ∷ [], true) =
          ground (arith, length-contents c q) in
        rw (run, spec)
          (
            (
              _,
              pushed-IsValid capacity c q v x c.seen_read q.cached_read_pos v.cached_read
                  v.seen_read_behind p,
              pushed-contents capacity c q v x c.seen_read q.cached_read_pos v.cached_read
                  v.seen_read_behind p,
            ),
            refl,
          )
    | no stale ↦ elim (dec_lt c.written (c.read + capacity)) [
      | yes p ↦
          let run : try_push capacity q x
              ≡ (pushed capacity c q v x c.read q.read_pos v.read (omega arith) p, true) =
            ground (arith, free_seen capacity c q v, seen_full capacity c q v) in
          let spec : push_list (contents capacity c q) x ≡ (contents capacity c q ++ x ∷ [], true) =
            ground (arith, length-contents c q) in
          rw (run, spec)
            (
              (
                _,
                pushed-IsValid capacity c q v x c.read q.read_pos v.read (omega arith) p,
                pushed-contents capacity c q v x c.read q.read_pos v.read (omega arith) p,
              ),
              refl,
            )
      | no p ↦
          let run : try_push capacity q x ≡ (record q { cached_read_pos = q.read_pos }, false) =
            ground (arith, free_seen capacity c q v, seen_full capacity c q v) in
          let spec : push_list (contents capacity c q) x ≡ (contents capacity c q, false) =
            ground (arith, length-contents c q) in
          rw (run, spec) ((_, saw_read-IsValid capacity c q v, refl), refl)
    ]
  ]

  -- A pop returns what the list returns, and leaves the queue holding the rest: it fails exactly on
  -- an empty queue.
  pub try_pop_refines :
      (c : Counters) (q : SpscQueue T)
      → IsValid capacity c q
      → let (q', item) = try_pop capacity q in
        let (xs, item') = pop_list (contents capacity c q) in Holds q' xs × (item ≡ item')
  unfolding try_pop
  try_pop_refines c q v = elim (dec_lt c.read c.seen_written) [
    | yes p ↦
        let run : try_pop capacity q ≡ (
          popped capacity c q v c.seen_written q.cached_write_pos v.cached_write p
              v.seen_written_behind,
          some (q.buffer (q.read_pos % capacity)),
        ) =
          ground (arith, seen_empty capacity c q v) in
        rw
          (
            run,
            popped-contents capacity c q v c.seen_written q.cached_write_pos v.cached_write p
                v.seen_written_behind,
          )
          (
            (
              _,
              popped-IsValid capacity c q v c.seen_written q.cached_write_pos v.cached_write p
                  v.seen_written_behind,
              refl,
            ),
            refl,
          )
    | no stale ↦ elim (dec_lt c.read c.written) [
      | yes p ↦
          let run : try_pop capacity q ≡ (
            popped capacity c q v c.written q.write_pos v.write p (omega arith),
            some (q.buffer (q.read_pos % capacity)),
          ) =
            ground (arith, seen_empty capacity c q v, empty capacity c q v) in
          rw (run, popped-contents capacity c q v c.written q.write_pos v.write p (omega arith))
            (
              (
                _,
                popped-IsValid capacity c q v c.written q.write_pos v.write p (omega arith),
                refl,
              ),
              refl,
            )
      | no p ↦
          let run : try_pop capacity q ≡ (record q { cached_write_pos = q.write_pos }, none) =
            ground (arith, seen_empty capacity c q v, empty capacity c q v) in
          let none_left : c.written - c.read ≡ 0 = omega arith in
          rw (run, none_left) ((_, saw_written-IsValid capacity c q v, rw none_left), refl)
    ]
  ]
