-- ===== src/Director/Random/Refusal.antt =====
-- When all hosts refuse, and the try of a host in vdi_random_getfd.
use varnish.Prelude.{
  ℕ, ◌+◌, ◌≤◌, ◌<◌, ◌≡◌, ◌⊎◌, inl, inr, refl, ap, Bool, true, Option, none, some, List, [], ◌∷◌,
  length, get_elem?, arith, Option-cases,
}
use varnish.Prelude.Checked.{Checked, ok}
use varnish.Prelude.Maps.{write}
use mathlib.Core.Path.{subst}
use varnish.Director.Random.{Host, HealthC, c_unhealthy, try}
use varnish.Director.Random.Cache.{
  HealthC-cases, Every, Every-get, Every-write, count, alive, worth, Known,
}
use varnish.Director.Random.Sum.{Refuses, Says}

abbrev pub AllPositive : List Host → Type 0
AllPositive [] = Unit
AllPositive (h ∷ hosts) = (0 < h.weight) × AllPositive hosts

pub count-alive_length :
    (c : ℕ → HealthC) (i : ℕ) (hosts : List Host) → count alive c i hosts ≤ length hosts
count-alive_length c i [] = omega arith
count-alive_length c i (h ∷ hosts) =
    let rest = count-alive_length c (i + 1) hosts in
    elim (HealthC-cases (c i)) [
      | inl e ↦ let a = ap (λ x. alive x h) e in omega (arith, a, rest)
      | inr (inl e) ↦ let a = ap (λ x. alive x h) e in omega (arith, a, rest)
      | inr (inr e) ↦ let a = ap (λ x. alive x h) e in omega (arith, a, rest)
    ]

module _ (healthy : ℕ → ℕ → Bool) (connect : ℕ → ℕ → Option ℕ) where
  -- The connection `vbe` is that of a host that is healthy.
  abbrev pub Serves : List Host → ℕ → Type 0
  Serves hosts vbe =
      (k : ℕ) × (h : Host) × (get_elem? hosts k ≡ some h)
      × (healthy k h.backend ≡ true)
      × (connect k h.backend ≡ some vbe)

  -- Every host is not healthy, or gives no connection.
  abbrev pub AllRefuse : List Host → Type 0
  AllRefuse hosts = (k : ℕ) (h : Host) → get_elem? hosts k ≡ some h → Refuses healthy connect k h

  -- A connection of a healthy host is returned, or none where there is none.
  abbrev pub Outcome : List Host → Checked (Option ℕ) → Type 0
  Outcome hosts x =
      ((vbe : ℕ) × Serves hosts vbe × (x ≡ ok (some vbe))) ⊎ (AllRefuse hosts × (x ≡ ok none))

  abbrev pub EachRefuses : HealthC → ℕ → Host → Type 0
  EachRefuses x i h = Refuses healthy connect i h

  pub dead_refuse :
      (c : ℕ → HealthC) (i : ℕ) (hosts : List Host)
      → Every (Says healthy connect) c i hosts
      → count alive c i hosts ≡ 0
      → Every EachRefuses c i hosts
  dead_refuse c i [] all e = tt
  dead_refuse c i (h ∷ hosts) (says, all) e = elim (HealthC-cases (c i)) [
    | inl x ↦ let a = ap (λ x. alive x h) x in absurd (omega (arith, a, e))
    | inr (inr x) ↦ let a = ap (λ x. alive x h) x in absurd (omega (arith, a, e))
    | inr (inl x) ↦ (
      subst (λ x. Says healthy connect x i h) x says,
      dead_refuse c (i + 1) hosts all (omega (arith, e)),
    )
  ]

  pub worthless_refuse :
      (c : ℕ → HealthC) (i : ℕ) (hosts : List Host)
      → AllPositive hosts
      → Every (Says healthy connect) c i hosts
      → Every Known c i hosts
      → count worth c i hosts ≡ 0
      → Every EachRefuses c i hosts
  worthless_refuse c i [] pos all known e = tt
  worthless_refuse c i (h ∷ hosts) (p, pos) (says, all) (k, known) e = elim (HealthC-cases (c i)) [
    | inl x ↦ absurd (k x)
    | inr (inr x) ↦ let a = ap (λ x. worth x h) x in absurd (omega (arith, a, e, p))
    | inr (inl x) ↦ (
      subst (λ x. Says healthy connect x i h) x says,
      worthless_refuse c (i + 1) hosts pos all known (omega (arith, e)),
    )
  ]

  pub Every-AllRefuse :
      (c : ℕ → HealthC) (hosts : List Host) → Every EachRefuses c 0 hosts → AllRefuse hosts
  Every-AllRefuse c hosts all k h e =
      let now : 0 + k ≡ k = omega arith in
      subst (λ j. Refuses healthy connect j h) now (Every-get EachRefuses c 0 hosts k h all e)

  -- A host is tried that is healthy: its connection is returned, or it is written off.
  abbrev pub Tried : (ℕ → HealthC) → List Host → ℕ → Option ℕ × (ℕ → HealthC) → Type 0
  Tried c hosts k x =
      ((vbe : ℕ) × Serves hosts vbe × (x ≡ (some vbe, c)))
      ⊎ (Every (Says healthy connect) (write c (0 + k) c_unhealthy) 0 hosts
          × (x ≡ (none, write c (0 + k) c_unhealthy)))

  pub try_lem :
      (c : ℕ → HealthC) (hosts : List Host) (k : ℕ) (h : Host)
      → get_elem? hosts k ≡ some h
      → Every (Says healthy connect) c 0 hosts
      → healthy (0 + k) h.backend ≡ true
      → Tried c hosts k (try healthy connect c (0 + k) h)
  unfolding try
  try_lem c hosts k h e all up =
      let now : 0 + k ≡ k = omega arith in
      elim (Option-cases (connect (0 + k) h.backend)) [
        | inr (vbe, some_vbe) ↦ inl (
          vbe,
          (
            k,
            h,
            e,
            subst (λ j. healthy j h.backend ≡ true) now up,
            subst (λ j. connect j h.backend ≡ some vbe) now some_vbe,
          ),
          rw (try, some_vbe) refl,
        )
        | inl gone ↦ inr (
          Every-write (Says healthy connect) c c_unhealthy 0 hosts k h all e (inr gone),
          rw (try, gone) refl,
        )
      ]
