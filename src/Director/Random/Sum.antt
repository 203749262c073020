-- ===== src/Director/Random/Sum.antt =====
-- The first loop of a retry of vdi_random_getfd: it asks for the health of the hosts that are not
-- known, and sums up the weights of the healthy ones.
use varnish.Prelude.{
  ℕ, ◌+◌, ◌≤◌, ◌<◌, ◌≡◌, ◌≢◌, ◌⊎◌, inl, inr, refl, sym, ap, ◌∙◌, Bool, true, false, Option, none,
  List, [], ◌∷◌, if◌then◌else◌, arith, Bool-cases,
}
use varnish.Prelude.Maps.{write_self, write_ne}
use mathlib.Core.Path.{subst}
use varnish.Director.Random.{
  Host, HealthC, c_unknown, c_unhealthy, c_healthy, cache_healthy, sum_weights,
}
use varnish.Director.Random.Cache.{
  HealthC-cases, Every, Every-congr, count, count-congr, alive, worth, Known,
}

module _ (healthy : ℕ → ℕ → Bool) (connect : ℕ → ℕ → Option ℕ) where
  -- The host at index `i` is not healthy, or gives no connection.
  abbrev pub Refuses : ℕ → Host → Type 0
  Refuses i h = (healthy i h.backend ≡ false) ⊎ (connect i h.backend ≡ none)

  -- what an entry of the cache says of its host
  abbrev pub Says : HealthC → ℕ → Host → Type 0
  Says c_unknown i h = Unit
  Says c_unhealthy i h = Refuses i h
  Says c_healthy i h = healthy i h.backend ≡ true

  -- The answer, the entry that it leaves, and the entry that was there.
  abbrev Asked : HealthC → ℕ → Host → Bool × (ℕ → HealthC) → Type 0
  Asked x i h r =
      ((r.0 ≡ true)
        × (r.1 i ≡ c_healthy)
        × (alive c_healthy h ≤ alive x h)
        × (Says x i h → Says c_healthy i h))
      ⊎ ((r.0 ≡ false)
          × (r.1 i ≡ c_unhealthy)
          × (alive c_unhealthy h ≤ alive x h)
          × (Says x i h → Says c_unhealthy i h))

  cache_healthy_lem :
      (c : ℕ → HealthC) (i : ℕ) (h : Host) → Asked (c i) i h (cache_healthy healthy connect c i h)
  unfolding cache_healthy
  cache_healthy_lem c i h = elim (HealthC-cases (c i)) [
    | inl e ↦ elim (Bool-cases (healthy i h.backend)) [
      | inl well ↦
          rw (cache_healthy, e, well) (inl (refl, write_self c i c_healthy, omega arith, λ _. refl))
      | inr ill ↦
          rw (cache_healthy, e, ill)
            (inr (refl, write_self c i c_unhealthy, omega arith, λ _. inl refl))
    ]
    | inr (inl e) ↦ rw (cache_healthy, e) (inr (refl, e, omega arith, λ s. s))
    | inr (inr e) ↦ rw (cache_healthy, e) (inl (refl, e, omega arith, λ s. s))
  ]

  cache_healthy_ne :
      (c : ℕ → HealthC) (i : ℕ) (h : Host) (j : ℕ)
      → j ≢ i
      → (cache_healthy healthy connect c i h).1 j ≡ c j
  unfolding cache_healthy
  cache_healthy_ne c i h j n = elim (HealthC-cases (c i)) [
    | inl e ↦ elim (Bool-cases (healthy i h.backend)) [
      | inl well ↦ rw (cache_healthy, e, well) (write_ne c i j c_healthy n)
      | inr ill ↦ rw (cache_healthy, e, ill) (write_ne c i j c_unhealthy n)
    ]
    | inr (inl e) ↦ rw (cache_healthy, e) refl
    | inr (inr e) ↦ rw (cache_healthy, e) refl
  ]

  -- The loop leaves the entries of the hosts before `i`.
  sum_weights_before :
      (hosts : List Host) (i s1 : ℕ) (c : ℕ → HealthC) (j : ℕ)
      → j < i
      → (sum_weights healthy connect i s1 hosts c).1 j ≡ c j
  unfolding sum_weights
  sum_weights_before [] i s1 c j lt = refl
  sum_weights_before (h ∷ hosts) i s1 c j lt =
      let a = cache_healthy healthy connect c i h in
      sum_weights_before hosts (i + 1) (if a.0 then s1 + h.weight else s1) a.1 j (omega arith)
      ∙ cache_healthy_ne c i h j (λ eq. omega (arith, eq))

  Says-asked :
      (c : ℕ → HealthC) (i : ℕ) (h : Host)
      → Says (c i) i h
      → Says ((cache_healthy healthy connect c i h).1 i) i h
  Says-asked c i h says = elim (cache_healthy_lem c i h) [
    | inl (_, e, _, new) ↦ subst (λ x. Says x i h) (sym e) (new says)
    | inr (_, e, _, new) ↦ subst (λ x. Says x i h) (sym e) (new says)
  ]

  pub sum_weights-Every :
      (hosts : List Host) (i s1 : ℕ) (c : ℕ → HealthC)
      → Every Says c i hosts
      → Every Says (sum_weights healthy connect i s1 hosts c).1 i hosts
  unfolding sum_weights
  sum_weights-Every [] i s1 c all = all
  sum_weights-Every (h ∷ hosts) i s1 c (p, all) =
      let a = cache_healthy healthy connect c i h in
      let s2 = if a.0 then s1 + h.weight else s1 in
      let was = sum_weights_before hosts (i + 1) s2 a.1 i (omega arith) in
      (
        subst (λ x. Says x i h) (sym was) (Says-asked c i h p),
        sum_weights-Every hosts (i + 1) s2 a.1 (
            Every-congr Says c a.1 (i + 1) hosts
              (λ j le. sym (cache_healthy_ne c i h j (λ eq. omega (arith, eq)))) all),
      )

  Known-asked :
      (c : ℕ → HealthC) (i : ℕ) (h : Host) → (cache_healthy healthy connect c i h).1 i ≢ c_unknown
  Known-asked c i h un = elim (cache_healthy_lem c i h) [
    | inl (_, e, _, _) ↦ absurd cc
    | inr (_, e, _, _) ↦ absurd cc
  ]

  pub sum_weights-Known :
      (hosts : List Host) (i s1 : ℕ) (c : ℕ → HealthC)
      → Every Known (sum_weights healthy connect i s1 hosts c).1 i hosts
  unfolding sum_weights
  sum_weights-Known [] i s1 c = tt
  sum_weights-Known (h ∷ hosts) i s1 c =
      let a = cache_healthy healthy connect c i h in
      let s2 = if a.0 then s1 + h.weight else s1 in
      let was = sum_weights_before hosts (i + 1) s2 a.1 i (omega arith) in
      ((λ un. Known-asked c i h (sym was ∙ un)), sum_weights-Known hosts (i + 1) s2 a.1)

  -- The loop finds no host to be healthy that it knew not to be.
  pub sum_weights-alive :
      (hosts : List Host) (i s1 : ℕ) (c : ℕ → HealthC)
      → count alive (sum_weights healthy connect i s1 hosts c).1 i hosts ≤ count alive c i hosts
  unfolding sum_weights
  sum_weights-alive [] i s1 c = omega arith
  sum_weights-alive (h ∷ hosts) i s1 c =
      let a = cache_healthy healthy connect c i h in
      let s2 = if a.0 then s1 + h.weight else s1 in
      let was = ap (λ x. alive x h) (sum_weights_before hosts (i + 1) s2 a.1 i (omega arith)) in
      let rest = sum_weights-alive hosts (i + 1) s2 a.1 in
      let same =
        count-congr alive c a.1 (i + 1) hosts
          (λ j le. sym (cache_healthy_ne c i h j (λ eq. omega (arith, eq)))) in
      elim (cache_healthy_lem c i h) [
        | inl (_, e, le, _) ↦
            let is = ap (λ x. alive x h) e in omega (arith, was, is, le, rest, same)
        | inr (_, e, le, _) ↦
            let is = ap (λ x. alive x h) e in omega (arith, was, is, le, rest, same)
      ]

  -- The loop returns the sum of the weights of the hosts that the cache then holds to be healthy.
  pub sum_weights-worth :
      (hosts : List Host) (i s1 : ℕ) (c : ℕ → HealthC)
      → (sum_weights healthy connect i s1 hosts c).0
        ≡ s1 + count worth (sum_weights healthy connect i s1 hosts c).1 i hosts
  unfolding sum_weights
  sum_weights-worth [] i s1 c = omega arith
  sum_weights-worth (h ∷ hosts) i s1 c =
      let a = cache_healthy healthy connect c i h in
      let s2 = if a.0 then s1 + h.weight else s1 in
      let was = ap (λ x. worth x h) (sum_weights_before hosts (i + 1) s2 a.1 i (omega arith)) in
      let rest = sum_weights-worth hosts (i + 1) s2 a.1 in
      elim (cache_healthy_lem c i h) [
        | inl (t, e, _, _) ↦
            let is = ap (λ x. worth x h) e in
            let s : s2 ≡ s1 + h.weight = ap (λ b. if b then s1 + h.weight else s1) t in
            omega (arith, was, is, rest, s)
        | inr (t, e, _, _) ↦
            let is = ap (λ x. worth x h) e in
            let s : s2 ≡ s1 = ap (λ b. if b then s1 + h.weight else s1) t in
            omega (arith, was, is, rest, s)
      ]
