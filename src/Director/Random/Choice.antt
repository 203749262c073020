-- ===== src/Director/Random/Choice.antt =====
-- The second loop of a retry of vdi_random_getfd: where the health of every host is known and the
-- threshold lies below the sum of the healthy weights, a healthy host is chosen.
use varnish.Prelude.{
  ℕ, suc, ◌+◌, ◌*◌, ◌≤◌, ◌<◌, ◌≡◌, inl, inr, refl, ap, Bool, true, false, Option, some, List, [],
  ◌∷◌, get_elem?, arith, Bool-cases, leb, leb→le,
}
use mathlib.Core.Path.{subst}
use varnish.Director.Random.{Host, HealthC, c_unhealthy, c_healthy, cache_healthy, try, choose}
use varnish.Director.Random.Cache.{HealthC-cases, Every, count, worth, Known}

module _ (healthy : ℕ → ℕ → Bool) (connect : ℕ → ℕ → Option ℕ) where
  -- The result `x` is that of the try of a healthy host.
  abbrev pub Chosen : (ℕ → HealthC) → ℕ → List Host → Option ℕ × (ℕ → HealthC) → Type 0
  Chosen c i hosts x =
      (k : ℕ) × (h : Host) × (get_elem? hosts k ≡ some h)
      × (c (i + k) ≡ c_healthy)
      × (x ≡ try healthy connect c (i + k) h)

  Chosen-cons :
      (c : ℕ → HealthC) (i : ℕ) (hosts : List Host) (y : Host) (x : Option ℕ × (ℕ → HealthC))
      → Chosen c (i + 1) hosts x
      → Chosen c i (y ∷ hosts) x
  Chosen-cons c i hosts y x (k, h, e, up, eq) =
      let later : i + 1 + k ≡ i + suc k = omega arith in
      (
        suc k,
        h,
        e,
        subst (λ j. c j ≡ c_healthy) later up,
        subst (λ j. x ≡ try healthy connect c j h) later eq,
      )

  not-leb : (a b : ℕ) → leb a b ≡ false → b < a
  not-leb a b e = ground arith

  asked_ill :
      (c : ℕ → HealthC) (i : ℕ) (h : Host)
      → c i ≡ c_unhealthy
      → cache_healthy healthy connect c i h ≡ (false, c)
  unfolding cache_healthy
  asked_ill c i h e = rw (cache_healthy, e) refl

  asked_well :
      (c : ℕ → HealthC) (i : ℕ) (h : Host)
      → c i ≡ c_healthy
      → cache_healthy healthy connect c i h ≡ (true, c)
  unfolding cache_healthy
  asked_well c i h e = rw (cache_healthy, e) refl

  pub choose_lem :
      (r m sum : ℕ) (hosts : List Host) (i s1 : ℕ) (c : ℕ → HealthC)
      → Every Known c i hosts
      → s1 * m ≤ r * sum
      → r * sum < (s1 + count worth c i hosts) * m
      → Chosen c i hosts (choose healthy connect r m sum i s1 hosts c)
  unfolding choose
  choose_lem r m sum [] i s1 c all low high =
      let e : (s1 + 0) * m ≡ s1 * m = ap (λ x. x * m) (omega arith) in absurd (omega (arith, e))
  choose_lem r m sum (h ∷ hosts) i s1 c (known, all) low high = elim (HealthC-cases (c i)) [
    | inl e ↦ absurd (known e)
    | inr (inl e) ↦
        let ill = ap (λ x. worth x h) e in
        let same : s1 + count worth c i (h ∷ hosts) ≡ s1 + count worth c (i + 1) hosts =
          omega (arith, ill) in
        let rest =
          choose_lem r m sum hosts (i + 1) s1 c all low (subst (λ x. r * sum < x * m) same high) in
        rw (choose, asked_ill c i h e) (rw (asked_ill c i h e) (Chosen-cons c i hosts h _ rest))
    | inr (inr e) ↦ elim (Bool-cases (leb ((s1 + h.weight) * m) (r * sum))) [
      | inl passed ↦
          let well = ap (λ x. worth x h) e in
          let same : s1 + count worth c i (h ∷ hosts)
              ≡ s1 + h.weight + count worth c (i + 1) hosts =
            omega (arith, well) in
          let rest =
            choose_lem r m sum hosts (i + 1) (s1 + h.weight) c all (leb→le _ _ passed)
              (subst (λ x. r * sum < x * m) same high) in
          rw (choose, asked_well c i h e, passed)
            (rw (asked_well c i h e) (Chosen-cons c i hosts h _ rest))
      | inr stop ↦
          let now : i ≡ i + 0 = omega arith in
          rw (choose, asked_well c i h e, stop)
            (rw (asked_well c i h e) (
              0,
              h,
              refl,
              subst (λ j. c j ≡ c_healthy) now e,
              ap (λ j. try healthy connect c j h) now,
            ))
    ]
  ]
