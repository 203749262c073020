-- ===== src/Prelude/Checked.antt =====
-- Code that asserts. `panic` stands for a failed `assert`, `xxxassert`, `AN` or `AZ`
-- (lib/libvarnish/assert.c ends the process there), and for an `int` that overflows, of which C does
-- not say what happens; any other run gives `ok` and its value.
use mathlib.Core.Bool.{Bool, true, false}
use mathlib.Core.Path.{◌≡◌, ap, ◌∙◌}

pub data Checked {ℓ} (A : Type ℓ) : Type ℓ where
  panic : Checked A
  ok : A → Checked A

infixl 5 ◌>>=◌ ◌>>◌
abbrev pub ◌>>=◌ {ℓ κ} : {A : Type ℓ} {B : Type κ} → Checked A → (A → Checked B) → Checked B
m >>= k = elim m [ panic ↦ panic | ok a ↦ k a ]

abbrev pub ◌>>◌ {ℓ κ} : {A : Type ℓ} {B : Type κ} → Checked A → Checked B → Checked B
m >> k = elim m [ panic ↦ panic | ok _ ↦ k ]

-- assert(b)
abbrev pub assert : Bool → Checked (Unit {0})
assert b = elim b [ true ↦ ok tt | false ↦ panic ]

-- A run that comes to a value, and goes on with it.
pub >>=-run {ℓ κ} :
    {A : Type ℓ} {B : Type κ} {m : Checked A} {a : A} {r : Checked B} (f : A → Checked B)
    → m ≡ ok a
    → f a ≡ r
    → (m >>= f) ≡ r
>>=-run f e go = ap (λ m. m >>= f) e ∙ go

-- An assertion that holds.
pub assert-run {ℓ} :
    {A : Type ℓ} {b : Bool} {k r : Checked A} → b ≡ true → k ≡ r → (assert b >> k) ≡ r
assert-run {k = k} e go = ap (λ b. assert b >> k) e ∙ go
