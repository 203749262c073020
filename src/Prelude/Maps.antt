-- ===== src/Prelude/Maps.antt =====
-- Functions on numbers as memory: one field of every object.
use Prim.Native.Nat.{ℕ}
use mathlib.Core.Path.{◌≡◌, refl}
use mathlib.Core.Logic.{◌≢◌}
use mathlib.Core.Bool.{true, false}
use native.Mathlib.Omega.{arith}
use varnish.Prelude.Tests.{◌==◌, if◌then◌else◌}

abbrev pub write {ℓ} : {A : Type ℓ} → (ℕ → A) → ℕ → A → ℕ → A
write f i v j = if j == i then v else f j

pub write_self {ℓ} : {A : Type ℓ} (f : ℕ → A) (i : ℕ) (v : A) → write f i v i ≡ v
write_self f i v = let e : (i == i) ≡ true = ground arith in rw e refl

pub write_ne {ℓ} : {A : Type ℓ} (f : ℕ → A) (i j : ℕ) (v : A) → j ≢ i → write f i v j ≡ f j
write_ne f i j v n = let e : (j == i) ≡ false = ground arith in rw e refl
