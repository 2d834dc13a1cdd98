-- ===== src/Common/Options.antt =====
-- Chains of results that may be missing.
use mathlib.Core.Option.{Option, none, some}
use mathlib.Core.Path.{◌≡◌, refl}
use mathlib.Core.Logic.{◌≢◌}

infixl 5 ◌>>=◌
abbrev pub ◌>>=◌ {ℓ κ} : {A : Type ℓ} {B : Type κ} → Option A → (A → Option B) → Option B
◌>>=◌ none f = none
◌>>=◌ (some a) f = f a

pub returns {ℓ} : {A : Type ℓ} → (x : Option A) → x ≢ none → (a : A) × (x ≡ some a)
returns none h = absurd (h refl)
returns (some a) h = (a, refl)
