-- ===== src/Common/Results.antt =====
-- Chains of results that may be missing, for `do` blocks.
use mathlib.Core.Option.{Option, none, some}

infixl 5 ◌>>=◌
abbrev pub ◌>>=◌ {ℓ κ} : {A : Type ℓ} {B : Type κ} → Option A → (A → Option B) → Option B
none >>= f = none
some a >>= f = f a

abbrev pub pure {ℓ} : {A : Type ℓ} → A → Option A
pure a = some a
