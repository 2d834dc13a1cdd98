-- ===== src/Spsc/History.antt =====
-- A whole history of calls on a queue, and the queue that the program starts with.
use itch_feed_handler.Common.{ℕ, ◌<◌, ◌≡◌, ap₂, refl, arith, Bool, Option, List, [], ◌∷◌}
use Prim.Native.Nat.{◌∣◌}
use itch_feed_handler.Spsc.{SpscQueue, word, try_push, try_pop}
use itch_feed_handler.Spsc.Queue.{push_list, pop_list, Holds, try_push_refines, try_pop_refines}

-- What producer and consumer do, and what each call returns.
pub data Call {ℓ} (T : Type ℓ) : Type ℓ where
  push : T → Call T
  pop : Call T

pub data Reply {ℓ} (T : Type ℓ) : Type ℓ where
  pushed : Bool → Reply T
  popped : Option T → Reply T

module _ {ℓ} {T : Type ℓ} (capacity : ℕ) where
  abbrev pub run : SpscQueue T → List (Call T) → List (Reply T)
  run q [] = []
  run q (push x ∷ calls) = let (q', done) = try_push capacity q x in pushed done ∷ run q' calls
  run q (pop ∷ calls) = let (q', item) = try_pop capacity q in popped item ∷ run q' calls

  abbrev pub run_list : List T → List (Call T) → List (Reply T)
  run_list xs [] = []
  run_list xs (push x ∷ calls) =
      let (xs', done) = push_list capacity xs x in pushed done ∷ run_list xs' calls
  run_list xs (pop ∷ calls) =
      let (xs', item) = pop_list capacity xs in popped item ∷ run_list xs' calls

  -- No interleaving of the calls of producer and consumer tells the ring from a bounded list: every
  -- item comes out once, in the order of the pushes that succeeded.
  pub run_refines :
      (q : SpscQueue T) (calls : List (Call T)) (xs : List T)
      → Holds capacity q xs
      → run q calls ≡ run_list xs calls
  run_refines q [] xs h = refl
  run_refines q (push x ∷ calls) xs (c, v, e) =
      let step = try_push_refines capacity c q x v in
      rw (← e, step.1) (ap₂ ◌∷◌ refl (run_refines (try_push capacity q x).0 calls _ step.0))
  run_refines q (pop ∷ calls) xs (c, v, e) =
      let step = try_pop_refines capacity c q v in
      rw (← e, step.1) (ap₂ ◌∷◌ refl (run_refines (try_pop capacity q).0 calls _ step.0))

  -- The queue at the start of the program.
  abbrev pub fresh : (ℕ → T) → SpscQueue T
  fresh buffer = record {
    write_pos = 0;
    cached_read_pos = 0;
    buffer = buffer;
    cached_write_pos = 0;
    read_pos = 0;
  }

  pub fresh-Holds :
      (buffer : ℕ → T)
      → 0 < capacity
      → capacity < word
      → capacity ∣ word
      → Holds capacity (fresh buffer) []
  fresh-Holds buffer p s d = (
    record { written = 0; read = 0; seen_written = 0; seen_read = 0 },
    record {
      positive = p;
      small = s;
      divides = d;
      write = refl;
      read = refl;
      cached_write = refl;
      cached_read = refl;
      seen_read_behind = omega arith;
      read_behind = omega arith;
      seen_written_behind = omega arith;
      bounded = omega arith;
    },
    refl,
  )
