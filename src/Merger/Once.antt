-- ===== src/Merger/Once.antt =====
-- Successive calls of `DedupWindow::check_and_mark`: what a stream of sequence numbers from two
-- feeds leaves, and the numbers for which the loop of the call does not end.
use itch_feed_handler.Common.{
  ℕ, zero, suc, ◌+◌, ◌%◌, ◌^◌, ◌≤◌, ◌<◌, ◌≡◌, ◌⊎◌, inl, inr, arith, refl, Bool, true, false, Option,
  none, some, ◌>>=◌, List, [], ◌∷◌, Bool-cases, dec_lt, digit-zero, ap,
}
use itch_feed_handler.Merger.Window.{DedupWindow, reset, slide, slide_to, check_and_mark}
use itch_feed_handler.Merger.Seen.{Covers, Recent, add, is_fresh, check_and_mark_lem}

-- The calls for a list of numbers, each with its result.
unfoldable pub check_all : DedupWindow → List ℕ → Option (List (ℕ × Bool))
check_all w [] = some []
check_all w (s ∷ rest) =
    check_and_mark w s >>= λ r. (check_all r.0 rest >>= λ later. some ((s, r.1) ∷ later))

-- A number passes that did not pass before. One is dropped that did, or that is more than 64 behind
-- one that did.
abbrev pub Explained : (ℕ → Bool) → List (ℕ × Bool) → Type 0
Explained seen [] = Unit
Explained seen ((s, true) ∷ rest) = (seen s ≡ false) × Explained (add s seen) rest
Explained seen ((s, false) ∷ rest) =
    ((seen s ≡ true) ⊎ ((t : ℕ) × (seen t ≡ true) × (s + 64 < t))) × Explained seen rest

-- No number comes within 64 of the end of the counter.
abbrev pub AreSmall : List ℕ → Type 0
AreSmall [] = Unit
AreSmall (s ∷ rest) = (s + 64 < 2 ^ 64) × AreSmall rest

abbrev pub numbers : List (ℕ × Bool) → List ℕ
numbers [] = []
numbers ((s, passed) ∷ rest) = s ∷ numbers rest

dropped :
    (w : DedupWindow) (seen : ℕ → Bool) (s : ℕ)
    → Recent w seen
    → is_fresh w seen s ≡ false
    → (seen s ≡ true) ⊎ ((t : ℕ) × (seen t ≡ true) × (s + 64 < t))
dropped w seen s (inl zero_base) h = inl (ground arith)
dropped w seen s (inr (t, known, far)) h = elim (dec_lt s w.base) [
  | yes old ↦ inr (t, known, omega arith)
  | no reached ↦ inl (ground arith)
]

pub check_all-Explained :
    (w : DedupWindow) (seen : ℕ → Bool) (xs : List ℕ)
    → Covers w seen
    → Recent w seen
    → AreSmall xs
    → (results : List (ℕ × Bool)) × (check_all w xs ≡ some results)
      × (numbers results ≡ xs)
      × Explained seen results
unfolding check_all
check_all-Explained w seen [] c r small = ([], refl, refl, tt)
check_all-Explained w seen (s ∷ rest) c r small =
    let (w', e, c', r', forward) = check_and_mark_lem w seen s c r small.0 in
    elim (Bool-cases (is_fresh w seen s)) [
      | inl fresh ↦
          let (later, e', same, ok) =
            check_all-Explained w' (add s seen) rest (rw fresh at c') (rw fresh at r') small.1 in
          (
            (s, true) ∷ later,
            rw (e, ◌>>=◌, fresh, e') refl,
            ap (λ t. s ∷ t) same,
            (ground arith, ok),
          )
      | inr stale ↦
          let (later, e', same, ok) =
            check_all-Explained w' seen rest (rw stale at c') (rw stale at r') small.1 in
          (
            (s, false) ∷ later,
            rw (e, ◌>>=◌, stale, e') refl,
            ap (λ t. s ∷ t) same,
            (dropped w seen s r stale, ok),
          )
    ]

-- The set of numbers that passed, before any.
abbrev pub none_seen : ℕ → Bool
none_seen s = false

pub reset-Covers : (w : DedupWindow) → Covers (reset w) none_seen
reset-Covers w = record {
  aligned = unfold reset in refl;
  in_range = unfold reset in omega arith;
  agrees = λ s p q. unfold reset in ground (arith, digit-zero (s % 64));
  bounded = λ s p. refl;
}

-- From a new window, for any numbers that stay 64 below the end of the counter: every call returns,
-- a number passes at most once, and one is dropped only if it passed before or if a number more
-- than 64 above it did.
pub check_all-reset :
    (w : DedupWindow) (xs : List ℕ)
    → AreSmall xs
    → (results : List (ℕ × Bool)) × (check_all (reset w) xs ≡ some results)
      × (numbers results ≡ xs)
      × Explained none_seen results
check_all-reset w xs small =
    check_all-Explained (reset w) none_seen xs (reset-Covers w) (inl (unfold reset in refl)) small

-- At the top of the counter the bound of the window wraps around.
pub slide_to-stuck :
    (fuel : ℕ) (w : DedupWindow) (seq : ℕ)
    → w.base % 64 ≡ 0
    → w.base < 2 ^ 64
    → 2 ^ 64 ≤ seq + 64
    → seq < 2 ^ 64
    → slide_to fuel w seq ≡ none
unfolding slide_to
slide_to-stuck zero w seq a b p q = ground arith
slide_to-stuck (suc fuel) w seq a b p q =
    let a' : (slide w).base % 64 ≡ 0 = unfold slide in omega arith in
    let b' : (slide w).base < 2 ^ 64 = unfold slide in omega arith in
    ground (arith, slide_to-stuck fuel (slide w) seq a' b' p q)
