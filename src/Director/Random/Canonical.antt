-- ===== src/Director/Random/Canonical.antt =====
-- The loop of vdi_random_getfd for the canonical backend: it returns a connection of a healthy host,
-- or none with a cache that tells the truth.
use varnish.Prelude.{
  ℕ, suc, ◌+◌, ◌*◌, ◌^◌, ◌≡◌, ◌⊎◌, inl, inr, refl, sym, ap, Bool, true, false, Option, none, some,
  List, [], ◌∷◌, leb, if◌then◌else◌, get_elem?, arith, Bool-cases,
}
use varnish.Prelude.Maps.{write}
use mathlib.Core.Path.{subst}
use varnish.Director.Random.{
  Host, HealthC, c_unknown, c_unhealthy, c_healthy, cache_healthy, try, canonical,
}
use varnish.Director.Random.Cache.{Every, Every-write}
use varnish.Director.Random.Sum.{Says}
use varnish.Director.Random.Refusal.{Serves, Tried, try_lem}

abbrev pub fresh : ℕ → HealthC
fresh i = c_unknown

module _ (healthy : ℕ → ℕ → Bool) (connect : ℕ → ℕ → Option ℕ) where
  -- the answer of the host where the loop for the canonical backend stops
  abbrev probe : (ℕ → HealthC) → ℕ → Host → Option ℕ × (ℕ → HealthC)
  probe c i h =
      let a = cache_healthy healthy connect c i h in
      elim a.0 [ false ↦ (none, a.1) | true ↦ try healthy connect a.1 i h ]

  abbrev Stopped : (ℕ → HealthC) → ℕ → List Host → Option ℕ × (ℕ → HealthC) → Type 0
  Stopped c i hosts x =
      (x ≡ (none, c))
      ⊎ ((k : ℕ) × (h : Host) × (get_elem? hosts k ≡ some h) × (x ≡ probe c (i + k) h))

  Stopped-cons :
      (c : ℕ → HealthC) (i : ℕ) (hosts : List Host) (y : Host) (x : Option ℕ × (ℕ → HealthC))
      → Stopped c (i + 1) hosts x
      → Stopped c i (y ∷ hosts) x
  Stopped-cons c i hosts y x (inl e) = inl e
  Stopped-cons c i hosts y x (inr (k, h, e, eq)) =
      let later : i + 1 + k ≡ i + suc k = omega arith in
      inr (suc k, h, e, subst (λ j. x ≡ probe c j h) later eq)

  pub canonical_lem :
      (u tot : ℕ) (hosts : List Host) (i s1 : ℕ) (c : ℕ → HealthC)
      → Stopped c i hosts (canonical healthy connect u tot i s1 hosts c)
  unfolding canonical
  canonical_lem u tot [] i s1 c = inl refl
  canonical_lem u tot (h ∷ hosts) i s1 c =
      elim (Bool-cases (leb ((s1 + h.weight) * 2 ^ 32) (u * tot))) [
        | inl passed ↦
            rw (canonical, passed)
              (Stopped-cons c i hosts h _ (canonical_lem u tot hosts (i + 1) (s1 + h.weight) c))
        | inr stop ↦
            let now : i ≡ i + 0 = omega arith in
            rw (canonical, stop) (inr (0, h, refl, ap (λ j. probe c j h) now))
      ]

  abbrev pub Result : List Host → Option ℕ × (ℕ → HealthC) → Type 0
  Result hosts x =
      ((vbe : ℕ) × Serves healthy connect hosts vbe × (x.0 ≡ some vbe))
      ⊎ ((x.0 ≡ none) × Every (Says healthy connect) x.1 0 hosts)

  Tried-Result :
      (c : ℕ → HealthC) (hosts : List Host) (k : ℕ) (x : Option ℕ × (ℕ → HealthC))
      → Tried healthy connect c hosts k x
      → Result hosts x
  Tried-Result c hosts k x (inl (vbe, serves, e)) = inl (vbe, serves, ap (λ y. y.0) e)
  Tried-Result c hosts k x (inr (all, e)) = inr (
    ap (λ y. y.0) e,
    subst (λ d. Every (Says healthy connect) d 0 hosts) (sym (ap (λ y. y.1) e)) all,
  )

  asked_first :
      (i : ℕ) (h : Host) (b : Bool)
      → healthy i h.backend ≡ b
      → cache_healthy healthy connect fresh i h
        ≡ (b, write fresh i (if b then c_healthy else c_unhealthy))
  unfolding cache_healthy
  asked_first i h true e = rw (cache_healthy, e) refl
  asked_first i h false e = rw (cache_healthy, e) refl

  probe_lem :
      (hosts : List Host) (k : ℕ) (h : Host)
      → get_elem? hosts k ≡ some h
      → Every (Says healthy connect) fresh 0 hosts
      → Result hosts (probe fresh (0 + k) h)
  probe_lem hosts k h e all = elim (Bool-cases (healthy (0 + k) h.backend)) [
    | inl well ↦
        subst
          (λ a.
            Result hosts
              (elim a.0 [ false ↦ (none, a.1) | true ↦ try healthy connect a.1 (0 + k) h ]))
          (sym (asked_first (0 + k) h true well))
          (let c' = write fresh (0 + k) c_healthy in
            let all' = Every-write (Says healthy connect) fresh c_healthy 0 hosts k h all e well in
            Tried-Result c' hosts k _ (try_lem healthy connect c' hosts k h e all' well))
    | inr ill ↦
        subst
          (λ a.
            Result hosts
              (elim a.0 [ false ↦ (none, a.1) | true ↦ try healthy connect a.1 (0 + k) h ]))
          (sym (asked_first (0 + k) h false ill))
          (inr (
            refl,
            Every-write (Says healthy connect) fresh c_unhealthy 0 hosts k h all e (inl ill),
          ))
  ]

  pub fresh-Every : (i : ℕ) (hosts : List Host) → Every (Says healthy connect) fresh i hosts
  fresh-Every i [] = tt
  fresh-Every i (h ∷ hosts) = (tt, fresh-Every (i + 1) hosts)

  pub Stopped-Result :
      (hosts : List Host) (x : Option ℕ × (ℕ → HealthC)) → Stopped fresh 0 hosts x → Result hosts x
  Stopped-Result hosts x (inl e) = inr (
    ap (λ y. y.0) e,
    subst (λ d. Every (Says healthy connect) d 0 hosts) (sym (ap (λ y. y.1) e))
        (fresh-Every 0 hosts),
  )
  Stopped-Result hosts x (inr (k, h, e, eq)) =
      subst (Result hosts) (sym eq) (probe_lem hosts k h e (fresh-Every 0 hosts))
