-- ===== src/Prelude/Tables.antt =====
-- Facts about bytes by a look at all of them: the tables of the code are checked by evaluation.
use Prim.Native.Nat.{ℕ, zero, suc, ◌<◌}
use mathlib.Core.Path.{◌≡◌, refl, sym}
use mathlib.Core.Logic.{inl, inr}
use mathlib.Core.Bool.{Bool, true, false, not, ◌&&◌}
use native.Mathlib.Omega.{arith}
use varnish.Prelude.Tests.{◌==◌, if◌then◌else◌, Bool-cases}

pub &&-left : (a b : Bool) → (a && b) ≡ true → a ≡ true
&&-left true b h = refl
&&-left false b h = h

pub &&-right : (a b : Bool) → (a && b) ≡ true → b ≡ true
&&-right true b h = h
&&-right false b h = cc

-- The test holds of the bytes from 0 to `n - 1`.
unfoldable pub holds_to : (ℕ → Bool) → ℕ → Bool
holds_to test zero = true
holds_to test (suc n) = holds_to test n && test n

pub holds_to-lt : (test : ℕ → Bool) (n c : ℕ) → c < n → holds_to test n ≡ true → test c ≡ true
unfolding holds_to
holds_to-lt test zero c lt h = absurd (omega arith)
holds_to-lt test (suc n) c lt h = elim (Bool-cases (c == n)) [
  | inl last ↦ let e : c ≡ n = ground arith in rw (e) (&&-right (holds_to test n) (test n) h)
  | inr other ↦ holds_to-lt test n c (ground arith) (&&-left (holds_to test n) (test n) h)
]

infix 4 ◌<=>◌
abbrev pub ◌<=>◌ : Bool → Bool → Bool
a <=> b = if a then b else not b

pub <=>_eq : (a b : Bool) → (a <=> b) ≡ true → a ≡ b
<=>_eq true true h = refl
<=>_eq true false h = sym h
<=>_eq false true h = h
<=>_eq false false h = refl
