-- ===== src/Prelude/Options.antt =====
-- do blocks of optional results
use mathlib.Core.Option.{Option, none, some}

infixl 5 ◌>>=◌
abbrev pub ◌>>=◌ {ℓ κ} : {A : Type ℓ} {B : Type κ} → Option A → (A → Option B) → Option B
m >>= k = elim m [ none ↦ none | some a ↦ k a ]
