-- ===== src/Book/Pool/Slots.antt =====
-- No slot of the pool is handed out twice.
use itch_feed_handler.Common.{
  ap, ℕ, ◌+◌, ◌-◌, ◌%◌, ◌^◌, ◌≤◌, ◌<◌, ◌≡◌, ◌≢◌, arith, none, some, refl, subst, sym, ◌∙◌,
  ℕ_discrete, update,
}
use mathlib.Core.Option.{some-injective}
use itch_feed_handler.Book.Pool.{Order, OrderPool, invalid_idx, new_pool, alloc, free, reset}

-- A slot is free if it is on the stack.
abbrev pub IsFree : OrderPool → ℕ → Type 0
IsFree p idx = (i : ℕ) × (i < p.freelist_top) × (p.freelist i ≡ idx)

-- The stack lies in its array, holds slots of the pool, each once, and the count is of the others.
pub record IsValid (p : OrderPool) : Type 0 where
  pub small : p.capacity < 2 ^ 32
  pub fits : p.freelist_top ≤ p.capacity
  pub counted : p.freelist_top + p.allocated ≡ p.capacity
  pub in_pool : (i : ℕ) → i < p.freelist_top → p.freelist i < p.capacity
  pub once :
      (i j : ℕ) → i < p.freelist_top → j < p.freelist_top → p.freelist i ≡ p.freelist j → i ≡ j

-- A new pool is valid, and so is one that was reset, whatever was allocated.
pub new_pool-IsValid :
    (capacity : ℕ) (orders : ℕ → Order) (freelist : ℕ → ℕ)
    → capacity < 2 ^ 32
    → IsValid (new_pool capacity orders freelist)
unfolding new_pool
new_pool-IsValid capacity orders freelist h = record {
  small = h;
  fits = omega arith;
  counted = omega arith;
  in_pool = λ i q. ground arith;
  once = λ i j q r e. ground arith;
}

pub reset-IsValid : (p : OrderPool) → p.capacity < 2 ^ 32 → IsValid (reset p)
unfolding reset
reset-IsValid p h = record {
  small = h;
  fits = omega arith;
  counted = omega arith;
  in_pool = λ i q. ground arith;
  once = λ i j q r e. ground arith;
}

-- The pool after a slot was taken.
abbrev taken : OrderPool → OrderPool
taken p =
    let idx = p.freelist (p.freelist_top - 1) in
    record p {
      orders =
          update p.orders idx
            (record (p.orders idx) { prev_idx = invalid_idx; next_idx = invalid_idx });
      freelist_top = p.freelist_top - 1;
      allocated = (p.allocated + 1) % 2 ^ 32;
    }

alloc-taken :
    (p : OrderPool) → p.freelist_top ≢ 0 → alloc p ≡ some (p.freelist (p.freelist_top - 1), taken p)
unfolding alloc
alloc-taken p h = ground arith

taken-IsValid : (p : OrderPool) → IsValid p → p.freelist_top ≢ 0 → IsValid (taken p)
taken-IsValid p v h = record {
  small = v.small;
  fits = ground (arith, v.fits);
  counted = ground (arith, v.counted, v.small);
  in_pool = λ i q. v.in_pool i (omega arith);
  once = λ i j q r. v.once i j (omega arith) (omega arith);
}

alloc-none : (p : OrderPool) → p.freelist_top ≡ 0 → alloc p ≡ none
unfolding alloc
alloc-none p h = ground arith

-- A slot that `alloc` returns lies in the pool, was free and is free no more; the pool stays valid.
pub alloc-IsValid :
    (p p' : OrderPool) (idx : ℕ)
    → IsValid p
    → alloc p ≡ some (idx, p')
    → IsValid p' × (idx < p.capacity) × IsFree p idx × (¬ (IsFree p' idx))
alloc-IsValid p p' idx v e = elim (ℕ_discrete p.freelist_top 0) [
  | yes z ↦ let none_left = sym e ∙ alloc-none p z in ground arith
  | no h ↦
      let same = some-injective _ _ (sym (alloc-taken p h) ∙ e) in
      subst
        (λ (r : ℕ × OrderPool).
          IsValid r.1 × (r.0 < p.capacity) × IsFree p r.0 × (¬ (IsFree r.1 r.0)))
        same
        (
          taken-IsValid p v h,
          v.in_pool (p.freelist_top - 1) (omega arith),
          (p.freelist_top - 1, omega arith, refl),
          λ f.
              let same_place = v.once f.0 (p.freelist_top - 1) (omega arith) (omega arith) f.2 in
              ground (arith, f.1),
        )
]

inside :
    (p : OrderPool) (i : ℕ)
    → IsValid p
    → i < (p.freelist_top + 1) % 2 ^ 32
    → i ≢ p.freelist_top
    → i < p.freelist_top
inside p i v q h = ground (arith, v.counted, v.small)

below :
    (p : OrderPool) (idx i : ℕ)
    → i ≢ p.freelist_top
    → update p.freelist p.freelist_top idx i ≡ p.freelist i
below p idx i h = ground arith

at_top :
    (p : OrderPool) (idx i : ℕ) → i ≡ p.freelist_top → update p.freelist p.freelist_top idx i ≡ idx
at_top p idx i h = ground arith

freed-once :
    (p : OrderPool) (idx : ℕ)
    → IsValid p
    → ¬ (IsFree p idx)
    → (i j : ℕ) → i < (p.freelist_top + 1) % 2 ^ 32
    → j < (p.freelist_top + 1) % 2 ^ 32
    → update p.freelist p.freelist_top idx i ≡ update p.freelist p.freelist_top idx j
    → i ≡ j
freed-once p idx v used i j q r e = elim (ℕ_discrete i p.freelist_top) [
  | yes a ↦ elim (ℕ_discrete j p.freelist_top) [
    | yes b ↦ a ∙ sym b
    | no b ↦ absurd (used (j, inside p j v r b, sym (below p idx j b) ∙ sym e ∙ at_top p idx i a))
  ]
  | no a ↦ elim (ℕ_discrete j p.freelist_top) [
    | yes b ↦ absurd (used (i, inside p i v q a, sym (below p idx i a) ∙ e ∙ at_top p idx j b))
    | no b ↦
        v.once i j (inside p i v q a) (inside p j v r b)
          (sym (below p idx i a) ∙ e ∙ below p idx j b)
  ]
]

-- A slot in use that is freed is free after it and the pool stays valid, and the next `alloc`
-- returns that slot: a replacement that frees its order never finds the pool exhausted.
pub free-alloc :
    (p : OrderPool) (idx : ℕ)
    → IsValid p
    → idx < p.capacity
    → ¬ (IsFree p idx)
    → p.allocated ≢ 0
    → IsValid (free p idx)
      × IsFree (free p idx) idx
      × ((p' : OrderPool) × (alloc (free p idx) ≡ some (idx, p')))
unfolding free alloc
free-alloc p idx v low used some_used = (
  record {
    small = v.small;
    fits = ground (arith, v.counted, v.small);
    counted = ground (arith, v.counted, v.small);
    in_pool = λ i q. elim (ℕ_discrete i p.freelist_top) [
      | yes e ↦ ground arith
      | no h ↦ ground (arith, v.in_pool i, v.counted, v.small)
    ];
    once = freed-once p idx v used;
  },
  (p.freelist_top, ground (arith, v.counted, v.small), ground arith),
  (
    taken (free p idx),
    alloc-taken (free p idx) (ground (arith, v.counted, v.small))
        ∙ ap (λ i. some (i, taken (free p idx)))
            (at_top p idx _ (ground (arith, v.counted, v.small))),
  ),
)
