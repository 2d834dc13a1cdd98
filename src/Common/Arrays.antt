-- ===== src/Common/Arrays.antt =====
-- Memory and fixed arrays as functions of an index: a read past the end is a value that the
-- program does not control, and a write changes one place.
use Prim.Native.Nat.{ℕ, ◌+◌, ◌<◌, compare, Ordering}
use mathlib.Core.Path.{◌≡◌}
use mathlib.Core.Logic.{◌≢◌}
use native.Mathlib.Omega.{arith}

-- The bytes from a pointer on.
abbrev pub Memory : Type 0
Memory = ℕ → ℕ

abbrev pub IsBytes : Memory → Type 0
IsBytes m = (i : ℕ) → m i < 256

-- The pointer `p + k`.
abbrev pub advance : Memory → ℕ → Memory
advance m k i = m (k + i)

module _ {ℓ} {A : Type ℓ} where
  -- `a[i] = v`
  abbrev pub update : (ℕ → A) → ℕ → A → ℕ → A
  update f i v j = elim (compare j i) [ Ordering.eq ↦ v | _ ↦ f j ]

  pub update_self : (f : ℕ → A) (i : ℕ) (v : A) → update f i v i ≡ v
  update_self f i v = ground arith

  pub update_ne : (f : ℕ → A) (i : ℕ) (v : A) (j : ℕ) → j ≢ i → update f i v j ≡ f j
  update_ne f i v j h = ground arith
