-- ===== src/Book/Levels/Find.antt =====
-- The search for a price in the array of levels, and for the place of a new one.
use itch_feed_handler.Common.{
  ℕ, zero, suc, ◌+◌, ◌≤◌, ◌<◌, ◌≡◌, ◌≢◌, arith, true, false, ◌⊎◌, inl, inr, dec_lt, ℕ_discrete,
  refl, sym, ap, ◌∙◌, subst,
}
use itch_feed_handler.Types.{Price, Side, is_buy}
use itch_feed_handler.Book.Levels.{
  PriceLevel, Levels, find_from, find_level, outranks, position_from,
}

-- The first price comes before the second on this side: bids from the highest, asks from the lowest.
abbrev pub IsBetter : Side → Price → Price → Type 0
IsBetter side a b = elim (is_buy side) [ true ↦ b < a | false ↦ a < b ]

find_from_lem :
    (levels : ℕ → PriceLevel) (price : Price) (n i : ℕ)
    → let k = find_from levels price n i in
      (i ≤ k)
      × (k ≤ i + n)
      × ((j : ℕ) → i ≤ j → j < k → (levels j).price ≢ price)
      × (k < i + n → (levels k).price ≡ price)
unfolding find_from
find_from_lem levels price zero i = ground arith
find_from_lem levels price (suc n) i =
    let rest = find_from_lem levels price n (i + 1) in
    elim (ℕ_discrete (levels i).price price) [
      | yes p ↦
          let found : find_from levels price (suc n) i ≡ i = ground arith in
          rw found (omega arith, omega arith, λ j a b. absurd (omega arith), λ h. p)
      | no h ↦
          let next : find_from levels price (suc n) i ≡ find_from levels price n (i + 1) =
            ground arith in
          rw next (
            omega arith,
            omega arith,
            λ j a b. elim (ℕ_discrete j i) [
              | yes e ↦ λ q. h (sym (ap (λ x. (levels x).price) e) ∙ q)
              | no c ↦ rest.2 j (omega arith) b
            ],
            λ b. rest.3 (omega arith),
          )
    ]

-- `find_level` returns the first index with the price, and the count exactly if there is none.
pub find_level_lem :
    (ls : Levels) (price : Price)
    → let k = find_level ls price in
      (k ≤ ls.count)
      × ((j : ℕ) → j < k → (ls.levels j).price ≢ price)
      × (k < ls.count → (ls.levels k).price ≡ price)
unfolding find_level
find_level_lem ls price =
    let r = find_from_lem ls.levels price ls.count 0 in
    (omega arith, λ j h. r.2 j (omega arith) h, λ h. r.3 (omega arith))

pub IsBetter-or_not : (side : Side) (a b : Price) → IsBetter side a b ⊎ (¬ (IsBetter side a b))
IsBetter-or_not Side.buy a b = elim (dec_lt b a) [ yes p ↦ inl p | no p ↦ inr p ]
IsBetter-or_not Side.sell a b = elim (dec_lt a b) [ yes p ↦ inl p | no p ↦ inr p ]
IsBetter-or_not (Side.other c) a b = elim (dec_lt a b) [ yes p ↦ inl p | no p ↦ inr p ]

outranks_better : (side : Side) (a b : Price) → IsBetter side a b → outranks side a b ≡ true
unfolding outranks
outranks_better Side.buy a b h = ground arith
outranks_better Side.sell a b h = ground arith
outranks_better (Side.other c) a b h = ground arith

outranks_worse : (side : Side) (a b : Price) → ¬ (IsBetter side a b) → outranks side a b ≡ false
unfolding outranks
outranks_worse Side.buy a b h = ground arith
outranks_worse Side.sell a b h = ground arith
outranks_worse (Side.other c) a b h = ground arith

goes_on :
    (levels : ℕ → PriceLevel) (side : Side) (price : Price) (n pos : ℕ)
    → IsBetter side (levels pos).price price
    → position_from levels side price (suc n) pos ≡ position_from levels side price n (pos + 1)
unfolding position_from
goes_on levels side price n pos h = rw (position_from, outranks_better side _ _ h) refl

stops :
    (levels : ℕ → PriceLevel) (side : Side) (price : Price) (n pos : ℕ)
    → ¬ (IsBetter side (levels pos).price price)
    → position_from levels side price (suc n) pos ≡ pos
unfolding position_from
stops levels side price n pos h = rw (position_from, outranks_worse side _ _ h) refl

-- The loop stops at the first level that is not better than the new price.
pub position_from_lem :
    (levels : ℕ → PriceLevel) (side : Side) (price : Price) (n pos : ℕ)
    → let k = position_from levels side price n pos in
      (pos ≤ k)
      × (k ≤ pos + n)
      × ((j : ℕ) → pos ≤ j → j < k → IsBetter side (levels j).price price)
      × (k < pos + n → ¬ (IsBetter side (levels k).price price))
unfolding position_from
position_from_lem levels side price zero pos = ground arith
position_from_lem levels side price (suc n) pos =
    let rest = position_from_lem levels side price n (pos + 1) in
    elim (IsBetter-or_not side (levels pos).price price) [
      | inr h ↦
          rw (stops levels side price n pos h)
            (omega arith, omega arith, λ j a b. absurd (omega arith), λ b. h)
      | inl better ↦ rw (goes_on levels side price n pos better) (
        omega arith,
        omega arith,
        λ j a b. elim (ℕ_discrete j pos) [
          | yes e ↦ subst (λ x. IsBetter side (levels x).price price) (sym e) better
          | no c ↦ rest.2 j (omega arith) b
        ],
        λ b. rest.3 (omega arith),
      )
    ]
