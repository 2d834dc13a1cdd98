-- ===== src/Merger/Seen.antt =====
-- The window of `DedupWindow` against the set of the numbers that it let pass.
use itch_feed_handler.Common.{
  ℕ, zero, suc, ◌+◌, ◌-◌, ◌/◌, ◌%◌, ◌^◌, ◌*◌, ◌≤◌, ◌<◌, ◌≡◌, ◌≢◌, ◌⊎◌, inl, inr, arith, refl, Bool,
  true, false, some, ltb, ◌==◌, not, if◌then◌else◌, update, bit_or, ◌>>=◌, digit, digit-zero,
  bit_and-pow, digit-bit_or_self, digit-bit_or_ne, Bool-cases, ℕ_discrete, dec_lt, lt→ltb, ap,
}
use itch_feed_handler.Merger.Window.{DedupWindow, slide, slide_to, mark, check_and_mark}

-- The bit of a number of the window is set.
abbrev pub marked : DedupWindow → ℕ → Bool
marked w s = not (digit ((s - w.base) % 64) (w.bits ((s - w.base) / 64)) == 0)

-- The window agrees with a set on the numbers that it covers, and none of the set lies beyond.
pub record Covers (w : DedupWindow) (seen : ℕ → Bool) : Type 0 where
  pub aligned : w.base % 64 ≡ 0
  pub in_range : w.base + 128 < 2 ^ 64
  pub agrees : (s : ℕ) → w.base ≤ s → s < w.base + 128 → marked w s ≡ seen s
  pub bounded : (s : ℕ) → w.base + 128 ≤ s → seen s ≡ false

-- The base stays 64 behind a number that was seen.
abbrev pub Recent : DedupWindow → (ℕ → Bool) → Type 0
Recent w seen = (w.base ≡ 0) ⊎ ((s : ℕ) × (seen s ≡ true) × (w.base + 64 ≤ s))

-- The set with one more number.
abbrev pub add : ℕ → (ℕ → Bool) → ℕ → Bool
add a seen s = if a == s then true else seen s

-- A number that passes: not too old, and not seen.
abbrev pub is_fresh : DedupWindow → (ℕ → Bool) → ℕ → Bool
is_fresh w seen seq = if ltb seq w.base then false else not (seen seq)

slide-agrees :
    (w : DedupWindow) (seen : ℕ → Bool) (s : ℕ)
    → Covers w seen
    → w.base + 192 < 2 ^ 64
    → w.base + 64 ≤ s
    → s < w.base + 192
    → marked (slide w) s ≡ seen s
unfolding slide
slide-agrees w seen s c r p q = elim (dec_lt s (w.base + 128)) [
  | yes inside ↦
      let low : (s - w.base) / 64 ≡ 1 = omega arith in
      let same : (s - w.base) % 64 ≡ s - (w.base + 64) = omega arith in
      ground (arith, c.agrees s (omega arith) inside)
  | no beyond ↦ ground (arith, c.bounded s (omega arith), digit-zero ((s - (w.base + 64)) % 64))
]

slide-Covers :
    (w : DedupWindow) (seen : ℕ → Bool)
    → Covers w seen
    → w.base + 192 < 2 ^ 64
    → Covers (slide w) seen
slide-Covers w seen c r = record {
  aligned = unfold slide in ground (arith, c.aligned);
  in_range = unfold slide in ground (arith, c.in_range);
  agrees = λ s p q.
      slide-agrees w seen s c r (unfold slide in ground arith) (unfold slide in ground arith);
  bounded = λ s p. c.bounded s (unfold slide in ground arith);
}

-- The loop ends within its rounds, with the number inside the window.
record Slid (w w' : DedupWindow) (seen : ℕ → Bool) (seq : ℕ) : Type 0 where
  covers : Covers w' seen
  forward : w.base ≤ w'.base
  above : w'.base ≤ seq
  below : seq < w'.base + 128
  behind : (w'.base ≡ w.base) ⊎ ((w'.base + 64 ≤ seq) × (seen seq ≡ false))

slide_to_lem :
    (fuel : ℕ) (w : DedupWindow) (seen : ℕ → Bool) (seq : ℕ)
    → Covers w seen
    → w.base ≤ seq
    → seq + 64 < 2 ^ 64
    → seq < w.base + 128 + fuel * 64
    → (w' : DedupWindow) × (slide_to fuel w seq ≡ some w') × Slid w w' seen seq
unfolding slide_to
slide_to_lem zero w seen seq c p q r =
    let wrap : (w.base + 128) % 2 ^ 64 ≡ w.base + 128 = ground (arith, c.in_range) in
    (
      w,
      ground arith,
      record {
        covers = c;
        forward = omega arith;
        above = p;
        below = omega arith;
        behind = inl refl;
      },
    )
slide_to_lem (suc fuel) w seen seq c p q r =
    let wrap : (w.base + 128) % 2 ^ 64 ≡ w.base + 128 = ground (arith, c.in_range) in
    elim (dec_lt seq (w.base + 128)) [
      | yes inside ↦ (
        w,
        ground arith,
        record { covers = c; forward = omega arith; above = p; below = inside; behind = inl refl },
      )
      | no beyond ↦
          let base : (slide w).base ≡ w.base + 64 = unfold slide in omega arith in
          let (w', e, s) =
            slide_to_lem fuel (slide w) seen seq (slide-Covers w seen c (omega arith)) (omega arith)
              q (omega arith) in
          (
            w',
            ground arith,
            record {
              covers = s.covers;
              forward = omega (arith, s.forward);
              above = s.above;
              below = s.below;
              behind = inr (ground (arith, s.behind), c.bounded seq (omega arith));
            },
          )
    ]

add_self : (seen : ℕ → Bool) (a : ℕ) → add a seen a ≡ true
add_self seen a = ground arith

-- The bit of another number is left as it was.
mark-agrees :
    (w : DedupWindow) (seq s b : ℕ)
    → w.base ≤ seq
    → w.base ≤ s
    → s ≢ seq
    → b ≡ bit_or (w.bits ((seq - w.base) / 64)) (2 ^ ((seq - w.base) % 64))
    → marked (record w { bits = update w.bits ((seq - w.base) / 64) b }) s ≡ marked w s
mark-agrees w seq s b p q h e = elim (ℕ_discrete ((s - w.base) / 64) ((seq - w.base) / 64)) [
  | yes same ↦
      let other : (s - w.base) % 64 ≢ (seq - w.base) % 64 = λ k. h (omega arith) in
      ground (
        arith,
        digit-bit_or_ne ((s - w.base) % 64) ((seq - w.base) % 64) (w.bits ((seq - w.base) / 64))
            other,
      )
  | no apart ↦ ground arith
]

module _ (w : DedupWindow) (seen : ℕ → Bool) (seq : ℕ) (c : Covers w seen) (above : w.base ≤ seq)
    (below : seq < w.base + 128) where
  mark_lem : (mark w seq).1 ≡ not (seen seq)
  unfolding mark
  mark_lem = ground (
    arith,
    c.agrees seq above below,
    bit_and-pow ((seq - w.base) % 64) (w.bits ((seq - w.base) / 64)),
  )

  mark-base : (mark w seq).0.base ≡ w.base
  unfolding mark
  mark-base = ground arith

  mark-adds : (s : ℕ) → w.base ≤ s → s < w.base + 128 → marked (mark w seq).0 s ≡ add seq seen s
  unfolding mark
  mark-adds s p q =
      let test = bit_and-pow ((seq - w.base) % 64) (w.bits ((seq - w.base) / 64)) in
      elim (ℕ_discrete s seq) [
        | yes same ↦ ground (
          arith,
          c.agrees seq above below,
          test,
          digit-bit_or_self ((seq - w.base) % 64) (w.bits ((seq - w.base) / 64)),
        )
        | no other ↦ ground (arith, c.agrees s p q, test, mark-agrees w seq s _ above p other refl)
      ]

  mark_seen : seen seq ≡ true → mark w seq ≡ (w, false)
  unfolding mark
  mark_seen h = ground (
    arith,
    c.agrees seq above below,
    bit_and-pow ((seq - w.base) % 64) (w.bits ((seq - w.base) / 64)),
  )

  mark_fresh : seen seq ≡ false → mark w seq ≡ ((mark w seq).0, true)
  mark_fresh h = ground (arith, mark_lem)

  mark-Covers : Covers (mark w seq).0 (add seq seen)
  mark-Covers = record {
    aligned = ground (arith, mark-base, c.aligned);
    in_range = ground (arith, mark-base, c.in_range);
    agrees = λ s p q. mark-adds s (omega (arith, mark-base)) (omega (arith, mark-base));
    bounded = λ s p.
        let b : seen s ≡ false = c.bounded s (omega (arith, mark-base)) in
        ground (arith, mark-base);
  }

-- A number that was seen moves nothing.
Slid-Recent :
    (w w' : DedupWindow) (seen : ℕ → Bool) (seq : ℕ)
    → Slid w w' seen seq
    → Recent w seen
    → seen seq ≡ true
    → Recent w' seen
Slid-Recent w w' seen seq s (inl zero_base) h = inl (ground (arith, s.behind))
Slid-Recent w w' seen seq s (inr (t, known, far)) h = inr (t, known, ground (arith, s.behind))

-- A number that passes is the one that the window moved for, if it moved.
Slid-Recent-add :
    (w w' w'' : DedupWindow) (seen : ℕ → Bool) (seq : ℕ)
    → Slid w w' seen seq
    → Recent w seen
    → w''.base ≡ w'.base
    → Recent w'' (add seq seen)
Slid-Recent-add w w' w'' seen seq s r e = elim s.behind [
  | inr (far, unknown) ↦ inr (seq, add_self seen seq, omega arith)
  | inl same ↦ elim r [
    | inl zero_base ↦ inl (omega arith)
    | inr (t, known, far) ↦ inr (t, ground arith, omega arith)
  ]
]

-- What the window promises: the number passes exactly when it is fresh, and is then remembered.
pub check_and_mark_lem :
    (w : DedupWindow) (seen : ℕ → Bool) (seq : ℕ)
    → Covers w seen
    → Recent w seen
    → seq + 64 < 2 ^ 64
    → (w' : DedupWindow) × (check_and_mark w seq ≡ some (w', is_fresh w seen seq))
      × Covers w' (if is_fresh w seen seq then add seq seen else seen)
      × Recent w' (if is_fresh w seen seq then add seq seen else seen)
      × (w.base ≤ w'.base)
unfolding check_and_mark
check_and_mark_lem w seen seq c r p = elim (dec_lt seq w.base) [
  | yes old ↦ rw (lt→ltb seq w.base old) (w, refl, c, r, omega arith)
  | no reached ↦
      let (w', e, s) = slide_to_lem (seq / 64) w seen seq c (omega arith) p (omega arith) in
      let test : ltb seq w.base ≡ false = ground arith in
      elim (Bool-cases (seen seq)) [
        | inl old ↦
            rw (test, e, old, ◌>>=◌, mark_seen w' seen seq s.covers s.above s.below old)
              (w', refl, s.covers, Slid-Recent w w' seen seq s r old, s.forward)
        | inr new ↦
            rw (test, e, new, ◌>>=◌)
              (
                (mark w' seq).0,
                ap some (mark_fresh w' seen seq s.covers s.above s.below new),
                mark-Covers w' seen seq s.covers s.above s.below,
                Slid-Recent-add w w' (mark w' seq).0 seen seq s r
                    (mark-base w' seen seq s.covers s.above s.below),
                omega (arith, s.forward, mark-base w' seen seq s.covers s.above s.below),
              )
      ]
]
