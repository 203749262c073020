-- ===== src/Director/Random/Retries.antt =====
-- The retries of vdi_random_getfd find a healthy host that gives a connection, where there is one.
use varnish.Prelude.{
  ℕ, zero, suc, ◌+◌, ◌*◌, ◌≤◌, ◌<◌, ◌≡◌, ◌≢◌, inl, inr, refl, sym, ap, ◌∙◌, Bool, true, false,
  Option, none, some, ltb, lt→ltb, ◌==◌, arith, Bool-cases,
}
use varnish.Prelude.Checked.{Checked, ok}
use varnish.Prelude.Maps.{write}
use mathlib.Core.Path.{subst}
use native.Mathlib.Nat.{mul-lt-mul_of_pos_right, mul_comm}
use varnish.Director.Random.{HealthC, c_unhealthy, Random, threshold, sum_weights, choose, tries}
use varnish.Director.Random.Cache.{
  Every, Every-get, count, count-write_unhealthy, alive, worth, Known,
}
use varnish.Director.Random.Sum.{
  Says, sum_weights-Every, sum_weights-Known, sum_weights-alive, sum_weights-worth,
}
use varnish.Director.Random.Choice.{Chosen, choose_lem}
use varnish.Director.Random.Refusal.{
  AllPositive, Outcome, dead_refuse, worthless_refuse, Every-AllRefuse, try_lem,
}

module _ (healthy : ℕ → ℕ → Bool) (connect : ℕ → ℕ → Option ℕ) (random : ℕ → ℕ) where
  below : (t m s z : ℕ) → t < m → s ≢ 0 → s ≡ 0 + z → t * s < (0 + z) * m
  below t m s z lt n e =
      subst (λ x. t * s < x * m) e
        (subst (λ x. t * s < x) (mul_comm m s) (mul-lt-mul_of_pos_right lt (omega (arith, n))))

  zero_test : (s : ℕ) → (s == 0) ≡ true → s ≡ 0
  zero_test s e = ground arith

  nonzero_test : (s : ℕ) → (s == 0) ≡ false → s ≢ 0
  nonzero_test s e = ground arith

  -- One retry, whose first loop leaves the cache `c`.
  choice_found :
      (vs : Random) (t m s : ℕ) (c : ℕ → HealthC)
      → t < m
      → s ≢ 0
      → s ≡ 0 + count worth c 0 vs.hosts
      → Every Known c 0 vs.hosts
      → Chosen healthy connect c 0 vs.hosts (choose healthy connect t m s 0 0 vs.hosts c)
  choice_found vs t m s c lt n e known =
      choose_lem healthy connect t m s vs.hosts 0 0 c known (omega arith)
        (below t m s (count worth c 0 vs.hosts) lt n e)

  -- what a retry with result `x` is followed by
  abbrev after : ℕ → ℕ → Random → ℕ → Option ℕ × (ℕ → HealthC) → Checked (Option ℕ)
  after n k vs u x = elim x.0 [
    | some vbe ↦ ok (some vbe)
    | none ↦ tries healthy connect random n (k + 1) vs u x.1
  ]

  tries_step :
      (n k : ℕ) (vs : Random) (u : ℕ) (c : ℕ → HealthC)
      → let s = sum_weights healthy connect 0 0 vs.hosts c in
        let t = threshold healthy connect random vs.criteria u k in
        (s.0 == 0) ≡ false
        → ltb t.0 t.1 ≡ true
        → tries healthy connect random (suc n) k vs u c
          ≡ after n k vs u (choose healthy connect t.0 t.1 s.0 0 0 vs.hosts s.1)
  unfolding tries
  tries_step n k vs u c something passes = rw (tries, something, passes) refl

  pub tries_lem :
      (n k : ℕ) (vs : Random) (u : ℕ) (c : ℕ → HealthC)
      → AllPositive vs.hosts
      → ((j : ℕ)
          → (threshold healthy connect random vs.criteria u j).0
            < (threshold healthy connect random vs.criteria u j).1)
      → Every (Says healthy connect) c 0 vs.hosts
      → count alive c 0 vs.hosts ≤ n
      → Outcome healthy connect vs.hosts (tries healthy connect random n k vs u c)
  unfolding tries
  tries_lem zero k vs u c pos prop all le = inr (
    Every-AllRefuse healthy connect c vs.hosts
        (dead_refuse healthy connect c 0 vs.hosts all (omega (arith, le))),
    refl,
  )
  tries_lem (suc n) k vs u c pos prop all le =
      let s = sum_weights healthy connect 0 0 vs.hosts c in
      let all' = sum_weights-Every healthy connect vs.hosts 0 0 c all in
      let known = sum_weights-Known healthy connect vs.hosts 0 0 c in
      let worth_sum = sum_weights-worth healthy connect vs.hosts 0 0 c in
      let fewer = sum_weights-alive healthy connect vs.hosts 0 0 c in
      let t = threshold healthy connect random vs.criteria u k in
      let passes = lt→ltb t.0 t.1 (prop k) in
      elim (Bool-cases (s.0 == 0)) [
        | inl nothing ↦ inr (
          Every-AllRefuse healthy connect s.1 vs.hosts (
              worthless_refuse healthy connect s.1 0 vs.hosts pos all' known
                (omega (arith, zero_test s.0 nothing, worth_sum))),
          rw (tries, nothing) refl,
        )
        | inr something ↦
            let (j, h, e, up, eq) =
              choice_found vs t.0 t.1 s.0 s.1 (prop k) (nonzero_test s.0 something) worth_sum
                known in
            let says = Every-get (Says healthy connect) s.1 0 vs.hosts j h all' e in
            let up' : healthy (0 + j) h.backend ≡ true =
              subst (λ x. Says healthy connect x (0 + j) h) up says in
            let step = tries_step n k vs u c something passes in
            elim (try_lem healthy connect s.1 vs.hosts j h e all' up') [
              | inl (vbe, serves, got) ↦ inl (vbe, serves, step ∙ ap (after n k vs u) (eq ∙ got))
              | inr (says', got) ↦
                  let less = count-write_unhealthy s.1 0 vs.hosts j h e up in
                  let rest =
                    tries_lem n (k + 1) vs u (write s.1 (0 + j) c_unhealthy) pos prop says'
                      (omega (arith, less, fewer, le)) in
                  subst (Outcome healthy connect vs.hosts)
                    (sym (step ∙ ap (after n k vs u) (eq ∙ got))) rest
            ]
      ]
