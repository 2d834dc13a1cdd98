-- ===== src/Sequence/Advance.antt =====
-- src/protocol/sequence_tracker.cpp: which packets are in order, which reveal a gap and which repeat.
use itch_feed_handler.Common.{
  dec_lt, ◌≢◌, ℕ, ◌+◌, ◌-◌, ◌%◌, ◌^◌, ◌≤◌, ◌<◌, ◌≡◌, ◌⊎◌, ◌↔◌, arith, true, false, List, [], ◌∷◌,
  refl, inl, inr,
}
use Prim.Native.Nat.{max}
use itch_feed_handler.Types.{Timestamp}
use itch_feed_handler.Sequence.{SequenceTracker, try_advance, last_gap}

-- The last sequence number before the 64-bit counter wraps is not in use.
abbrev pub top : ℕ
top = 2 ^ 64 - 1

-- A sequence number is in order exactly when it is the next one.
pub try_advance_in_order :
    (t : SequenceTracker) (n now : ℕ)
    → t.seq < top
    → ((try_advance t n now).1 ≡ true) ↔ (n ≡ t.seq + 1)
unfolding try_advance
try_advance_in_order t n now h = ground arith

-- Any other number leaves either a gap or a duplicate behind. A number beyond the next one moves
-- the tracker there and records exactly the numbers in between as missing; a number that is not
-- beyond the current one is only counted.
pub try_advance_out_of_order :
    (t : SequenceTracker) (n now : ℕ)
    → t.seq < top
    → n ≢ t.seq + 1
    → let t' = (try_advance t n now).0 in
      ((t.seq + 1 < n)
        × (t'.seq ≡ n)
        × (t'.gap_count ≡ (t.gap_count + 1) % 2 ^ 64)
        × (t'.dup_count ≡ t.dup_count)
        × ((s : ℕ)
            → ((last_gap t').start_seq ≤ s) × (s ≤ (last_gap t').end_seq) ↔ (t.seq < s) × (s < n)))
      ⊎ ((n ≤ t.seq)
          × (t'.dup_count ≡ (t.dup_count + 1) % 2 ^ 64)
          × (t'.seq ≡ t.seq)
          × (t'.gap_count ≡ t.gap_count)
          × (last_gap t' ≡ last_gap t))
unfolding try_advance
try_advance_out_of_order t n now h ne = elim (dec_lt (t.seq + 1) n) [
  | yes p ↦
      inl (p, ground arith, ground arith, ground arith, λ s. (λ q. ground arith, λ q. ground arith))
  | no p ↦ inr (omega arith, ground arith, ground arith, ground arith, ground arith)
]

-- A packet stream: the sequence numbers with the times of their arrival.
abbrev pub run : SequenceTracker → List (ℕ × Timestamp) → SequenceTracker
run t [] = t
run t ((n, now) ∷ ns) = run (try_advance t n now).0 ns

abbrev pub highest : ℕ → List (ℕ × Timestamp) → ℕ
highest s [] = s
highest s ((n, now) ∷ ns) = highest (max s n) ns

abbrev pub AllBelow : List (ℕ × Timestamp) → Type 0
AllBelow [] = Unit {0}
AllBelow ((n, now) ∷ ns) = (n < top) × AllBelow ns

seq-try_advance :
    (t : SequenceTracker) (n now : ℕ) → t.seq < top → (try_advance t n now).0.seq ≡ max t.seq n
unfolding try_advance
seq-try_advance t n now h = ground arith

-- Whatever the order in which packets arrive, with gaps and repetitions, the tracker stands at the
-- highest of the number that it began with and those that have arrived, if all of these are below
-- 2^64 - 1.
pub seq-run :
    (t : SequenceTracker) (ns : List (ℕ × Timestamp))
    → t.seq < top
    → AllBelow ns
    → (run t ns).seq ≡ highest t.seq ns
seq-run t [] h a = refl
seq-run t ((n, now) ∷ ns) h a =
    rw (← seq-try_advance t n now h)
      (seq-run (try_advance t n now).0 ns (omega (arith, seq-try_advance t n now h)) a.1)

-- A packet of `n` messages takes up `n` sequence numbers, yet the tracker expects the next packet
-- one number on: when a packet of two messages or more is followed by its successor on the wire,
-- with none lost, the tracker reports the packet's own further messages as missing.
pub false_gap :
    (t : SequenceTracker) (count now : ℕ)
    → 2 ≤ count
    → t.seq + count < top
    → let (t', in_order) = try_advance t (t.seq + count) now in
      (in_order ≡ false)
      × (t'.gap_count ≡ (t.gap_count + 1) % 2 ^ 64)
      × (t'.last_gap_start ≡ t.seq + 1)
      × (t'.last_gap_end ≡ t.seq + count - 1)
unfolding try_advance
false_gap t count now h b = ground arith
