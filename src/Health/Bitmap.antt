-- ===== src/Health/Bitmap.antt =====
-- The bitmaps of bin/varnishd/cache_backend_poll.c as records of pokes, the newest in bit 0.
use varnish.Prelude.{
  ℕ, zero, suc, ◌+◌, ◌*◌, ◌/◌, ◌%◌, ◌^◌, ◌<◌, ◌≡◌, ◌⊎◌, inl, inr, refl, ap, ◌∙◌, Bool, true, false,
  List, [], ◌∷◌, ◌==◌, take, arith,
}
use native.Mathlib.Nat.{
  mod-lt, mod-eq_of_lt, add-mul-mod_self_left, div-add-mod, zero-mod, pow-succ',
}
use varnish.Health.{set_newest}
use varnish.Health.Window.{ones}

-- The bitmap of `n` bits for a record of pokes, the newest first.
unfoldable pub bitmap : ℕ → List Bool → ℕ
bitmap zero h = 0
bitmap (suc n) [] = 0
bitmap (suc n) (true ∷ h) = 1 + 2 * bitmap n h
bitmap (suc n) (false ∷ h) = 2 * bitmap n h

abbrev pub count : List Bool → ℕ
count [] = 0
count (true ∷ h) = suc (count h)
count (false ∷ h) = count h

double-mod : (x m : ℕ) → 0 < m → (2 * x) % (2 * m) ≡ 2 * (x % m)
double-mod x m pos =
    let split = div-add-mod x m in
    let e : 2 * x ≡ 2 * (x % m) + (2 * m) * (x / m) = omega (arith, split) in
    let below = mod-lt x pos in
    rw (e, add-mul-mod_self_left (2 * (x % m)) (2 * m) (x / m))
      (mod-eq_of_lt (omega (arith, below)))

suc_double-mod : (x m : ℕ) → 0 < m → (1 + 2 * x) % (2 * m) ≡ 1 + 2 * (x % m)
suc_double-mod x m pos =
    let split = div-add-mod x m in
    let e : 1 + 2 * x ≡ 1 + 2 * (x % m) + (2 * m) * (x / m) = omega (arith, split) in
    let below = mod-lt x pos in
    ap (λ y. y % (2 * m)) e
    ∙ (add-mul-mod_self_left (1 + 2 * (x % m)) (2 * m) (x / m)
        ∙ mod-eq_of_lt (omega (arith, below)))

pow_suc : (n : ℕ) → 2 ^ suc n ≡ 2 * 2 ^ n
pow_suc n = pow-succ' 2 n

pow_pos : (n : ℕ) → 0 < 2 ^ n
pow_pos zero = omega arith
pow_pos (suc n) = omega (arith, pow_pos n, pow_suc n)

bitmap_fewer : (n : ℕ) (h : List Bool) → bitmap (suc n) h % 2 ^ n ≡ bitmap n h
unfolding bitmap
bitmap_fewer zero h = grind arith
bitmap_fewer (suc n) [] = zero-mod (2 ^ suc n)
bitmap_fewer (suc n) (true ∷ h) =
    rw (pow_suc n, suc_double-mod (bitmap (suc n) h) (2 ^ n) (pow_pos n), bitmap_fewer n h)
bitmap_fewer (suc n) (false ∷ h) =
    rw (pow_suc n, double-mod (bitmap (suc n) h) (2 ^ n) (pow_pos n), bitmap_fewer n h)

ones_zero : (n j : ℕ) → ones n 0 j ≡ j
unfolding ones
ones_zero zero j = refl
ones_zero (suc n) j = ones_zero n j

pub ones_lem : (n m j : ℕ) (h : List Bool) → ones n (bitmap m h) j ≡ j + count (take n (take m h))
unfolding ones bitmap
ones_lem zero m j h = omega arith
ones_lem (suc n) zero j h = ones_zero n j ∙ omega arith
ones_lem (suc n) (suc m) j [] = ones_zero n j ∙ omega arith
ones_lem (suc n) (suc m) j (true ∷ h) =
    let half : (1 + 2 * bitmap m h) / 2 ≡ bitmap m h = omega arith in
    let odd : (1 + 2 * bitmap m h) % 2 ≡ 1 = omega arith in
    rw (half, odd) (ones_lem n m (j + 1) h ∙ omega arith)
ones_lem (suc n) (suc m) j (false ∷ h) =
    let half : (2 * bitmap m h) / 2 ≡ bitmap m h = omega arith in
    let even : (2 * bitmap m h) % 2 ≡ 0 = omega arith in rw (half, even) (ones_lem n m j h)

pub shift-bitmap :
    (n : ℕ) (h : List Bool) → (bitmap (suc n) h * 2) % 2 ^ suc n ≡ bitmap (suc n) (false ∷ h)
unfolding bitmap
shift-bitmap n h =
    let swap : bitmap (suc n) h * 2 ≡ 2 * bitmap (suc n) h = omega arith in
    rw (swap, pow_suc n, double-mod (bitmap (suc n) h) (2 ^ n) (pow_pos n), bitmap_fewer n h) refl

pub set_newest-bitmap :
    (n : ℕ) (h : List Bool) → set_newest (bitmap (suc n) (false ∷ h)) ≡ bitmap (suc n) (true ∷ h)
unfolding set_newest bitmap
set_newest-bitmap n h = let even : (2 * bitmap n h) % 2 ≡ 0 = omega arith in rw (even) (omega arith)

pub newest-bitmap :
    (n : ℕ) (h : List Bool) (u : ℕ)
    → (u ≡ bitmap (suc n) (false ∷ h)) ⊎ (u ≡ bitmap (suc n) (true ∷ h))
    → u ≡ bitmap (suc n) ((u % 2 == 1) ∷ h)
unfolding bitmap
newest-bitmap n h u (inl e) = let even : u % 2 ≡ 0 = omega (arith, e) in rw (even) e
newest-bitmap n h u (inr e) = let odd : u % 2 ≡ 1 = omega (arith, e) in rw (odd) e
