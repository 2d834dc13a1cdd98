-- ===== src/Book/Map/Places.antt =====
-- The places of a ring of c slots: slots that have the same remainder.
use itch_feed_handler.Common.{
  ℕ, ◌+◌, ◌-◌, ◌%◌, ◌<◌, ◌≡◌, ◌≢◌, arith, sym, ap, ◌∙◌, dec_lt, ◌⊎◌, inl, inr,
}
use native.Mathlib.Nat.{mod-lt, mod-eq_of_lt, mod-add-mod, mod-eq-sub-mod}

-- A place and its successor.
mod_step : (c s : ℕ) → s % c + 1 < c → (s + 1) % c ≡ s % c + 1
mod_step c s h = sym (mod-add-mod s c 1) ∙ mod-eq_of_lt h

mod_wrap : (c s : ℕ) → 0 < c → s % c + 1 ≡ c → (s + 1) % c ≡ 0
mod_wrap c s pos h =
    sym (mod-add-mod s c 1)
    ∙ mod-eq-sub-mod (omega arith)
    ∙ ap (λ r. r % c) (omega arith)
    ∙ mod-eq_of_lt pos

step_cases :
    (c s : ℕ)
    → 0 < c
    → ((s + 1) % c ≡ s % c + 1) × (s % c + 1 < c) ⊎ ((s + 1) % c ≡ 0) × (s % c + 1 ≡ c)
step_cases c s pos = elim (dec_lt (s % c + 1) c) [
  | yes h ↦ inl (mod_step c s h, h)
  | no h ↦
      let low = mod-lt s pos in
      let last : s % c + 1 ≡ c = omega arith in inr (mod_wrap c s pos last, last)
]

pub mod_cancel : (c s p : ℕ) → 0 < c → (s + 1) % c ≡ (p + 1) % c → s % c ≡ p % c
mod_cancel c s p pos e = omega (arith, step_cases c s pos, step_cases c p pos)

pub mod_congr : (c s p k : ℕ) → s % c ≡ p % c → (s + k) % c ≡ (p + k) % c
mod_congr c s p k e = sym (mod-add-mod s c k) ∙ ap (λ r. (r + k) % c) e ∙ mod-add-mod p c k

-- Fewer than c steps lead to another place.
pub mod_other : (c s j : ℕ) → j < c → 0 < j → (s + j) % c ≢ s % c
mod_other c s j few some_steps e = elim (dec_lt (s % c + j) c) [
  | yes h ↦ omega (arith, sym (mod-add-mod s c j) ∙ mod-eq_of_lt h, e)
  | no h ↦
      let low : s % c < c = mod-lt s (omega arith) in
      let less : s % c + j - c < c = omega arith in
      let wrap : (s + j) % c ≡ s % c + j - c =
        sym (mod-add-mod s c j) ∙ mod-eq-sub-mod (omega arith) ∙ mod-eq_of_lt less in
      omega (arith, wrap, e)
]

-- Steps of fewer than c that lead to one place are as many.
pub mod_apart : (c s i j : ℕ) → i < c → j < c → (s + i) % c ≡ (s + j) % c → i ≡ j
mod_apart c s i j low low' e = elim (dec_lt i j) [
  | yes h ↦ absurd (
      mod_other c (s + i) (j - i) (omega arith) (omega arith)
        (ap (λ k. k % c) (omega arith) ∙ sym e))
  | no h ↦ elim (dec_lt j i) [
    | yes h' ↦ absurd (
        mod_other c (s + j) (i - j) (omega arith) (omega arith) (ap (λ k. k % c) (omega arith) ∙ e))
    | no h' ↦ omega arith
  ]
]
