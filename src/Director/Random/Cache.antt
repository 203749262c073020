-- ===== src/Director/Random/Cache.antt =====
-- The health cache of vdi_random_getfd, seen from the hosts from index `i` on.
use varnish.Prelude.{
  ℕ, zero, suc, ◌+◌, ◌≤◌, ◌≡◌, ◌≢◌, ◌⊎◌, inl, inr, refl, sym, ap, ◌∙◌, some, List, [], ◌∷◌,
  get_elem?, arith,
}
use varnish.Prelude.Maps.{write, write_self, write_ne}
use mathlib.Core.Path.{subst}
use varnish.Director.Random.{Host, HealthC, c_unknown, c_unhealthy, c_healthy}

pub HealthC-cases : (x : HealthC) → (x ≡ c_unknown) ⊎ ((x ≡ c_unhealthy) ⊎ (x ≡ c_healthy))
HealthC-cases c_unknown = inl refl
HealthC-cases c_unhealthy = inr (inl refl)
HealthC-cases c_healthy = inr (inr refl)

-- what holds of the entry of every host
abbrev pub Every : (HealthC → ℕ → Host → Type 0) → (ℕ → HealthC) → ℕ → List Host → Type 0
Every P c i [] = Unit
Every P c i (h ∷ hosts) = P (c i) i h × Every P c (i + 1) hosts

abbrev pub count : (HealthC → Host → ℕ) → (ℕ → HealthC) → ℕ → List Host → ℕ
count f c i [] = 0
count f c i (h ∷ hosts) = f (c i) h + count f c (i + 1) hosts

-- 1 for a host that is not known to be unhealthy
abbrev pub alive : HealthC → Host → ℕ
alive c_unknown h = 1
alive c_unhealthy h = 0
alive c_healthy h = 1

-- the weight of a host that is known to be healthy
abbrev pub worth : HealthC → Host → ℕ
worth c_unknown h = 0
worth c_unhealthy h = 0
worth c_healthy h = h.weight

abbrev pub Known : HealthC → ℕ → Host → Type 0
Known x i h = x ≢ c_unknown

pub Every-congr :
    (P : HealthC → ℕ → Host → Type 0) (c c' : ℕ → HealthC) (i : ℕ) (hosts : List Host)
    → ((j : ℕ) → i ≤ j → c j ≡ c' j)
    → Every P c i hosts
    → Every P c' i hosts
Every-congr P c c' i [] e all = all
Every-congr P c c' i (h ∷ hosts) e (p, all) = (
  subst (λ x. P x i h) (e i (omega arith)) p,
  Every-congr P c c' (i + 1) hosts (λ j le. e j (omega arith)) all,
)

pub count-congr :
    (f : HealthC → Host → ℕ) (c c' : ℕ → HealthC) (i : ℕ) (hosts : List Host)
    → ((j : ℕ) → i ≤ j → c j ≡ c' j)
    → count f c i hosts ≡ count f c' i hosts
count-congr f c c' i [] e = refl
count-congr f c c' i (h ∷ hosts) e =
    let here = ap (λ x. f x h) (e i (omega arith)) in
    let rest = count-congr f c c' (i + 1) hosts (λ j le. e j (omega arith)) in
    omega (arith, here, rest)

pub Every-get :
    (P : HealthC → ℕ → Host → Type 0) (c : ℕ → HealthC) (i : ℕ) (hosts : List Host) (k : ℕ)
    (h : Host)
    → Every P c i hosts
    → get_elem? hosts k ≡ some h
    → P (c (i + k)) (i + k) h
Every-get P c i [] k h all e = absurd cc
Every-get P c i (x ∷ hosts) zero h (p, all) e =
    let same : x ≡ h = ground arith in
    let now : i ≡ i + 0 = omega arith in
    subst (λ j. P (c j) j h) now (subst (λ y. P (c i) i y) same p)
Every-get P c i (x ∷ hosts) (suc k) h (p, all) e =
    let later : i + 1 + k ≡ i + suc k = omega arith in
    subst (λ j. P (c j) j h) later (Every-get P c (i + 1) hosts k h all e)

-- An entry is written; the others stay.
pub Every-write :
    (P : HealthC → ℕ → Host → Type 0) (c : ℕ → HealthC) (v : HealthC) (i : ℕ) (hosts : List Host)
    (k : ℕ) (h : Host)
    → Every P c i hosts
    → get_elem? hosts k ≡ some h
    → P v (i + k) h
    → Every P (write c (i + k) v) i hosts
Every-write P c v i [] k h all e pv = tt
Every-write P c v i (x ∷ hosts) zero h (p, all) e pv =
    let same : h ≡ x = ground arith in
    let now : i + 0 ≡ i = omega arith in
    let pv' = subst (λ j. P v j x) now (subst (λ y. P v (i + 0) y) same pv) in
    subst (λ a. Every P (write c a v) i (x ∷ hosts)) (sym now)
      (
        subst (λ y. P y i x) (sym (write_self c i v)) pv',
        Every-congr P c (write c i v) (i + 1) hosts
            (λ j le. sym (write_ne c i j v (λ eq. omega (arith, eq)))) all,
      )
Every-write P c v i (x ∷ hosts) (suc k) h (p, all) e pv =
    let later : i + suc k ≡ i + 1 + k = omega arith in
    subst (λ a. Every P (write c a v) i (x ∷ hosts)) (sym later)
      (
        subst (λ y. P y i x) (sym (write_ne c (i + 1 + k) i v (λ eq. omega (arith, eq)))) p,
        Every-write P c v (i + 1) hosts k h all e (subst (λ j. P v j h) later pv),
      )

-- One host fewer is left where one is found to be unhealthy.
pub count-write_unhealthy :
    (c : ℕ → HealthC) (i : ℕ) (hosts : List Host) (k : ℕ) (h : Host)
    → get_elem? hosts k ≡ some h
    → c (i + k) ≡ c_healthy
    → count alive (write c (i + k) c_unhealthy) i hosts + 1 ≡ count alive c i hosts
count-write_unhealthy c i [] k h e up = absurd cc
count-write_unhealthy c i (x ∷ hosts) zero h e up =
    let now : i + 0 ≡ i = omega arith in
    let was = ap (λ y. alive y x) (ap c (sym now) ∙ up) in
    let is = ap (λ y. alive y x) (write_self c i c_unhealthy) in
    let rest =
      count-congr alive c (write c i c_unhealthy) (i + 1) hosts
        (λ j le. sym (write_ne c i j c_unhealthy (λ eq. omega (arith, eq)))) in
    subst (λ a. count alive (write c a c_unhealthy) i (x ∷ hosts) + 1 ≡ count alive c i (x ∷ hosts))
      (sym now) (omega (arith, was, is, rest))
count-write_unhealthy c i (x ∷ hosts) (suc k) h e up =
    let later : i + suc k ≡ i + 1 + k = omega arith in
    let here =
      ap (λ y. alive y x) (write_ne c (i + 1 + k) i c_unhealthy (λ eq. omega (arith, eq))) in
    let rest = count-write_unhealthy c (i + 1) hosts k h e (ap c (sym later) ∙ up) in
    subst (λ a. count alive (write c a c_unhealthy) i (x ∷ hosts) + 1 ≡ count alive c i (x ∷ hosts))
      (sym later) (omega (arith, here, rest))
