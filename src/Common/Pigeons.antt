-- ===== src/Common/Pigeons.antt =====
-- More places than numbers in a list: two places hold the same number.
use Prim.Native.Nat.{ℕ, zero, suc, ◌≤◌, ◌<◌}
use mathlib.Core.Path.{◌≡◌, sym, ◌∙◌, ap}
use mathlib.Core.Logic.{◌≢◌, ◌⊎◌, inl, inr}
use mathlib.Core.Bool.{Bool, true, false, ◌||◌}
use mathlib.Core.List.{List, [], ◌∷◌}
use native.Mathlib.Omega.{arith}
use native.Mathlib.Decide.{ℕ_discrete}
use itch_feed_handler.Common.Tests.{◌==◌, if◌then◌else◌}
use itch_feed_handler.Common.Lists.{length}

-- Whether a number is in a list.
abbrev pub has : ℕ → List ℕ → Bool
has x [] = false
has x (y ∷ ys) = (x == y) || has x ys

-- The first place of n that holds a number, if there is one.
search : (f : ℕ → ℕ) (x n : ℕ) → ((i : ℕ) × (i < n) × (f i ≡ x)) ⊎ ((i : ℕ) → i < n → f i ≢ x)
search f x zero = inr (λ i h. absurd (omega arith))
search f x (suc n) = elim (ℕ_discrete (f n) x) [
  | yes here ↦ inl (n, omega arith, here)
  | no other ↦ elim (search f x n) [
    | inl (i, low, e) ↦ inl (i, omega arith, e)
    | inr out ↦ inr (λ i h e. elim (ℕ_discrete i n) [
      | yes last ↦ other (sym (ap f last) ∙ e)
      | no before ↦ out i (omega arith) e
    ])
  ]
]

-- The last place takes the number of place i.
fill : (ℕ → ℕ) → ℕ → ℕ → ℕ → ℕ
fill f i n j = if j == i then f n else f j

-- Different numbers in n places, all of a list: the list has n numbers at least.
pub distinct-le :
    (xs : List ℕ) (n : ℕ) (f : ℕ → ℕ)
    → ((i j : ℕ) → i < n → j < n → f i ≡ f j → i ≡ j)
    → ((i : ℕ) → i < n → has (f i) xs ≡ true)
    → n ≤ length xs
unfolding fill
distinct-le [] zero f once all = omega arith
distinct-le [] (suc n) f once all = absurd (ground (arith, all 0))
distinct-le (x ∷ xs) zero f once all = omega arith
distinct-le (x ∷ xs) (suc n) f once all = elim (search f x (suc n)) [
  | inr out ↦
      let rest = distinct-le xs (suc n) f once (λ i h. ground (arith, all i h, out i h)) in
      omega (arith, rest)
  | inl (k, low, e) ↦
      let rest =
        distinct-le xs n (fill f k n)
          (λ i j h h' same. elim (ℕ_discrete i k) [
            | yes here ↦ elim (ℕ_discrete j k) [
              | yes both ↦ here ∙ sym both
              | no other ↦
                  absurd (omega (arith, once n j (omega arith) (omega arith) (ground arith)))
            ]
            | no there ↦ elim (ℕ_discrete j k) [
              | yes both ↦
                  absurd (omega (arith, once i n (omega arith) (omega arith) (ground arith)))
              | no other ↦ once i j (omega arith) (omega arith) (ground arith)
            ]
          ])
          (λ i h. elim (ℕ_discrete i k) [
            | yes here ↦
                let apart : f n ≢ x = λ z. omega (arith, once n k (omega arith) low (z ∙ sym e)) in
                ground (arith, all n)
            | no there ↦
                let apart : f i ≢ x = λ z. there (once i k (omega arith) low (z ∙ sym e)) in
                ground (arith, all i)
          ]) in
      omega (arith, rest)
]
