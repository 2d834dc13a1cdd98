-- ===== src/Book/Levels/Sorted.antt =====
-- The order of the levels: best price first, no price twice.
use itch_feed_handler.Common.{
  ℕ, ◌+◌, ◌-◌, ◌^◌, ◌≤◌, ◌<◌, ◌≡◌, ◌≢◌, arith, Option, refl, sym, ◌∙◌, subst, dec_lt, ℕ_discrete,
  ap,
}
use itch_feed_handler.Types.{Price, Side, max_price_levels}
use itch_feed_handler.Book.Levels.{
  PriceLevel, Levels, empty_level, find_level, put_level, insert_level, close_gap, remove_level,
  position_from,
}
use itch_feed_handler.Book.Levels.Find.{IsBetter, position_from_lem, find_level_lem}

abbrev pub IsSorted : Side → Levels → Type 0
IsSorted side ls =
    (i j : ℕ) → i < j → j < ls.count → IsBetter side (ls.levels i).price (ls.levels j).price

IsBetter-trans :
    (side : Side) (a b c : Price) → IsBetter side a b → IsBetter side b c → IsBetter side a c
IsBetter-trans Side.buy a b c p q = omega arith
IsBetter-trans Side.sell a b c p q = omega arith
IsBetter-trans (Side.other d) a b c p q = omega arith

IsBetter-total : (side : Side) (a b : Price) → ¬ (IsBetter side a b) → a ≢ b → IsBetter side b a
IsBetter-total Side.buy a b p q = omega arith
IsBetter-total Side.sell a b p q = omega arith
IsBetter-total (Side.other d) a b p q = omega arith

pub IsBetter-ne : (side : Side) (a b : Price) → IsBetter side a b → a ≢ b
IsBetter-ne Side.buy a b p = omega arith
IsBetter-ne Side.sell a b p = omega arith
IsBetter-ne (Side.other d) a b p = omega arith

-- What the insertion does to each place.
put_below :
    (ls : Levels) (pos : ℕ) (level : PriceLevel) (j : ℕ)
    → j < pos
    → put_level ls pos level j ≡ ls.levels j
unfolding put_level
put_below ls pos level j h = ground arith

put_at : (ls : Levels) (pos : ℕ) (level : PriceLevel) → put_level ls pos level pos ≡ level
unfolding put_level
put_at ls pos level = ground arith

put_above :
    (ls : Levels) (pos : ℕ) (level : PriceLevel) (j : ℕ)
    → pos < j
    → j < ls.count + 1
    → put_level ls pos level j ≡ ls.levels (j - 1)
unfolding put_level
put_above ls pos level j h k = ground arith

put_shifted :
    (ls : Levels) (pos : ℕ) (level : PriceLevel) (j : ℕ)
    → pos ≤ j
    → j < ls.count
    → put_level ls pos level (j + 1) ≡ ls.levels j
unfolding put_level
put_shifted ls pos level j h k = ground arith

insert_room :
    (drop_ctr : Option ℕ) (side : Side) (ls : Levels) (price : Price)
    → ls.count < max_price_levels
    → let pos = position_from ls.levels side price ls.count 0 in
      insert_level drop_ctr ls price side ≡ (
        pos,
        record { levels = put_level ls pos (empty_level price); count = ls.count + 1 },
        drop_ctr,
      )
unfolding insert_level
insert_room drop_ctr side ls price room = ground arith

-- The new level fits between the better levels and the worse ones.
put-IsSorted :
    (side : Side) (ls : Levels) (pos : ℕ) (level : PriceLevel)
    → IsSorted side ls
    → pos ≤ ls.count
    → ((j : ℕ) → j < pos → IsBetter side (ls.levels j).price level.price)
    → ((j : ℕ) → pos ≤ j → j < ls.count → IsBetter side level.price (ls.levels j).price)
    → IsSorted side (record { levels = put_level ls pos level; count = ls.count + 1 })
put-IsSorted side ls pos level sorted h better worse i j p q = elim (dec_lt j pos) [
  | yes a ↦
      rw (put_below ls pos level j a, put_below ls pos level i (omega arith))
        (sorted i j p (omega arith))
  | no a ↦ elim (ℕ_discrete j pos) [
    | yes e ↦
        let i_before : i < pos = omega arith in
        let level_there : put_level ls pos level j ≡ level =
          subst (λ k. put_level ls pos level k ≡ level) (sym e) (put_at ls pos level) in
        rw (level_there, put_below ls pos level i i_before) (better i i_before)
    | no b ↦
        let above : pos < j = omega arith in
        rw (put_above ls pos level j above q) (elim (dec_lt i pos) [
          | yes c ↦ rw (put_below ls pos level i c) (sorted i (j - 1) (omega arith) (omega arith))
          | no c ↦ elim (ℕ_discrete i pos) [
            | yes e ↦
                let level_there : put_level ls pos level i ≡ level =
                  subst (λ k. put_level ls pos level k ≡ level) (sym e) (put_at ls pos level) in
                rw level_there (worse (j - 1) (omega arith) (omega arith))
            | no d ↦
                rw (put_above ls pos level i (omega arith) (omega arith))
                  (sorted (i - 1) (j - 1) (omega arith) (omega arith))
          ]
        ])
  ]
]

-- Inserting a price that has no level, while there is room: the levels stay sorted, and there is one
-- more; the index returned is that of an empty level with the price, the levels before it are those
-- that were there, and each of the others has moved up by one place.
pub insert_level-IsSorted :
    (drop_ctr : Option ℕ) (side : Side) (ls : Levels) (price : Price)
    → IsSorted side ls
    → ls.count < max_price_levels
    → find_level ls price ≡ ls.count
    → let (pos, ls', drop_ctr') = insert_level drop_ctr ls price side in
      IsSorted side ls'
      × (ls'.count ≡ ls.count + 1)
      × (pos ≤ ls.count)
      × (ls'.levels pos ≡ empty_level price)
      × ((j : ℕ) → j < pos → ls'.levels j ≡ ls.levels j)
      × ((j : ℕ) → pos ≤ j → j < ls.count → ls'.levels (j + 1) ≡ ls.levels j)
      × (drop_ctr' ≡ drop_ctr)
insert_level-IsSorted drop_ctr side ls price sorted room absent =
    let (low, high, better, worse) = position_from_lem ls.levels side price ls.count 0 in
    let pos = position_from ls.levels side price ls.count 0 in
    let new : (j : ℕ) → j < ls.count → (ls.levels j).price ≢ price =
      λ j h. (find_level_lem ls price).1 j (omega arith) in
    rw (insert_room drop_ctr side ls price room) (
      put-IsSorted side ls pos (empty_level price) sorted (omega arith)
          (λ j h. better j (omega arith) h)
          (λ j h k.
            let first : IsBetter side price (ls.levels pos).price =
              IsBetter-total side _ _ (worse (omega arith)) (new pos (omega arith)) in
            elim (ℕ_discrete j pos) [
              | yes e ↦ subst (λ i. IsBetter side price (ls.levels i).price) (sym e) first
              | no d ↦ IsBetter-trans side _ _ _ first (sorted pos j (omega arith) k)
            ]),
      refl,
      omega arith,
      put_at ls pos (empty_level price),
      put_below ls pos (empty_level price),
      put_shifted ls pos (empty_level price),
      refl,
    )

removed_before :
    (ls : Levels) (idx j : ℕ)
    → ls.count < 2 ^ 16
    → j < (remove_level ls idx).count
    → ls.count ≢ 0
    → j < idx
    → (remove_level ls idx).levels j ≡ ls.levels j
unfolding remove_level close_gap
removed_before ls idx j small inside some_level h = ground arith

removed_after :
    (ls : Levels) (idx j : ℕ)
    → ls.count < 2 ^ 16
    → j < (remove_level ls idx).count
    → ls.count ≢ 0
    → idx ≤ j
    → (remove_level ls idx).levels j ≡ ls.levels (j + 1)
unfolding remove_level close_gap
removed_after ls idx j small inside some_level h = ground arith

removed_count :
    (ls : Levels) (idx : ℕ)
    → ls.count < 2 ^ 16
    → ls.count ≢ 0
    → (remove_level ls idx).count + 1 ≡ ls.count
unfolding remove_level
removed_count ls idx small some_level = ground arith

-- Removing a level of an array that has one: the levels stay sorted, there is one less, those before
-- the index stay and those after it move down by one place.
pub remove_level-IsSorted :
    (side : Side) (ls : Levels) (idx : ℕ)
    → IsSorted side ls
    → ls.count < 2 ^ 16
    → ls.count ≢ 0
    → let ls' = remove_level ls idx in
      IsSorted side ls'
      × (ls'.count + 1 ≡ ls.count)
      × ((j : ℕ) → j < ls'.count → j < idx → ls'.levels j ≡ ls.levels j)
      × ((j : ℕ) → j < ls'.count → idx ≤ j → ls'.levels j ≡ ls.levels (j + 1))
remove_level-IsSorted side ls idx sorted small some_level = (
  λ i j p q.
      let count = removed_count ls idx small some_level in
      elim (dec_lt i idx) [
        | yes a ↦
            rw (removed_before ls idx i small (omega arith) some_level a) (elim (dec_lt j idx) [
              | yes b ↦
                  rw (removed_before ls idx j small q some_level b) (sorted i j p (omega arith))
              | no b ↦
                  rw (removed_after ls idx j small q some_level (omega arith))
                    (sorted i (j + 1) (omega arith) (omega arith))
            ])
        | no a ↦
            rw
              (
                removed_after ls idx i small (omega arith) some_level (omega arith),
                removed_after ls idx j small q some_level (omega arith),
              )
              (sorted (i + 1) (j + 1) (omega arith) (omega arith))
      ],
  removed_count ls idx small some_level,
  λ j p q. removed_before ls idx j small p some_level q,
  λ j p q. removed_after ls idx j small p some_level q,
)

moved_down :
    (ls : Levels) (idx j : ℕ)
    → ls.count < 2 ^ 16
    → idx < j
    → j < ls.count
    → (remove_level ls idx).levels (j - 1) ≡ ls.levels j
unfolding remove_level close_gap
moved_down ls idx j small h inside = ground arith

-- An index of a level is not kept: of a sorted array, inserting a price that has no level leaves no
-- level at or after the new one at its index, and neither does removing one for those after it. The
-- orders of those levels hold the old index.
pub level_idx_stale :
    (drop_ctr : Option ℕ) (side : Side) (ls : Levels) (price : Price) (j idx : ℕ)
    → IsSorted side ls
    → ls.count < max_price_levels
    → find_level ls price ≡ ls.count
    → j < ls.count
    → let (pos, ls', drop_ctr') = insert_level drop_ctr ls price side in
      (pos ≤ j → (ls'.levels (j + 1) ≡ ls.levels j) × ((ls'.levels j).price ≢ (ls.levels j).price))
      × (idx < j
          → ((remove_level ls idx).levels (j - 1) ≡ ls.levels j)
            × ((j + 1 < ls.count) → ((remove_level ls idx).levels j).price ≢ (ls.levels j).price))
level_idx_stale drop_ctr side ls price j idx sorted room absent inside =
    let (sorted', count, low, new, before, after, same) =
      insert_level-IsSorted drop_ctr side ls price sorted room absent in
    let count' = removed_count ls idx (omega arith) (omega arith) in
    (
      λ h. (
        after j h inside,
        λ e.
            IsBetter-ne side _ _ (sorted' j (j + 1) (omega arith) (omega arith))
              (e ∙ sym (ap (λ (x : PriceLevel). x.price) (after j h inside))),
      ),
      λ h. (
        moved_down ls idx j (omega arith) h inside,
        λ k e. IsBetter-ne side _ _ (sorted j (j + 1) (omega arith) k) (
            sym e
            ∙ ap (λ (x : PriceLevel). x.price)
                (removed_after ls idx j (omega arith) (omega arith) (omega arith) (omega arith))),
      ),
    )
