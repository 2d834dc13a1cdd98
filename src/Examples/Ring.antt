-- ===== src/Examples/Ring.antt =====
-- The theorems on the queue at a ring of four places.
use itch_feed_handler.Common.{ℕ, ◌+◌, ◌^◌, ◌≡◌, arith, refl, List, [], ◌∷◌}
use Prim.Native.Nat.{◌∣◌}
use itch_feed_handler.Spsc.{SpscQueue, word}
use itch_feed_handler.Spsc.History.{Call, run, run_list, run_refines, fresh, fresh-Holds}

divides : 4 ∣ word
divides = ∣ (2 ^ 62, refl) ∣₁

abbrev ring : SpscQueue ℕ
ring = record {
  write_pos = 3;
  cached_read_pos = 0;
  buffer = λ i. 10 + i;
  cached_write_pos = 2;
  read_pos = 1;
}

abbrev calls : List (Call ℕ)
calls = Call.pop ∷ Call.push 5 ∷ Call.push 6 ∷ Call.pop ∷ []

run_refines_example : run 4 (fresh 4 (λ i. 0)) calls ≡ run_list 4 [] calls
run_refines_example =
    run_refines 4 (fresh 4 (λ i. 0)) calls []
      (fresh-Holds 4 (λ i. 0) (omega arith) (omega arith) divides)
