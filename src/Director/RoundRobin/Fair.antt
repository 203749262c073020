-- ===== src/Director/RoundRobin/Fair.antt =====
-- The round-robin director asks the backends in turn, each of them once before it gives up.
use varnish.Prelude.{
  ℕ, zero, suc, ◌+◌, ◌%◌, ◌<◌, ◌≡◌, ◌⊎◌, inl, inr, refl, ap, sym, ◌∙◌, Bool, true, false, Option,
  none, some, length, get_or, arith, Bool-cases, Option-cases,
}
use native.Mathlib.Nat.{mod-add-mod}
use varnish.Director.RoundRobin.{RoundRobin, getfd_from, getfd}

pub record IsValid (vs : RoundRobin) : Type 0 where
  pub table : length vs.hosts ≡ vs.nhosts
  pub some_host : 0 < vs.nhosts
  pub next : vs.next_host < vs.nhosts

-- the backend that is asked in round `k`
abbrev pub turn : RoundRobin → ℕ → ℕ
turn vs k = get_or vs.hosts ((vs.next_host + k) % vs.nhosts) 0

turn_shift : (n a j : ℕ) → ((a + 1) % n + j) % n ≡ (a + suc j) % n
turn_shift n a j = mod-add-mod (a + 1) n j ∙ ap (λ x. x % n) (omega arith)

turn_now : (vs : RoundRobin) → IsValid vs → (vs.next_host + 0) % vs.nhosts ≡ vs.next_host
turn_now vs v = grind arith

mod_below : (a n : ℕ) → 0 < n → a % n < n
mod_below a n pos = grind arith

module _ (healthy : ℕ → ℕ → Bool) (connect : ℕ → ℕ → Option ℕ) where
  -- In round `i` the backend gives no connection.
  abbrev pub Refuses : ℕ → ℕ → Type 0
  Refuses i b = (healthy i b ≡ false) ⊎ (connect i b ≡ none)

  -- All of the first `k` rounds from `i` on are refused, each by the backend whose turn it is.
  abbrev pub AllRefuse : RoundRobin → ℕ → ℕ → Type 0
  AllRefuse vs i k = (j : ℕ) → j < k → Refuses (i + j) (turn vs j)

  -- The loop ends in round `k` with a connection of the backend whose turn it is, or after all.
  abbrev pub Ends : RoundRobin → ℕ → ℕ → ℕ → Option ℕ × RoundRobin → Type 0
  Ends vs i n k r =
      ((vbe : ℕ) × (k < n)
        × (healthy (i + k) (turn vs k) ≡ true)
        × (connect (i + k) (turn vs k) ≡ some vbe)
        × (r ≡ (some vbe, record vs { next_host = (vs.next_host + suc k) % vs.nhosts })))
      ⊎ ((k ≡ n) × (r ≡ (none, record vs { next_host = (vs.next_host + n) % vs.nhosts })))

  abbrev next : RoundRobin → RoundRobin
  next vs = record vs { next_host = (vs.next_host + 1) % vs.nhosts }

  refuse_first :
      (vs : RoundRobin) (i k : ℕ)
      → IsValid vs
      → Refuses i (get_or vs.hosts vs.next_host 0)
      → AllRefuse (next vs) (i + 1) k
      → AllRefuse vs i (suc k)
  refuse_first vs i k v h all zero lt =
      let here : i + 0 ≡ i = omega arith in rw (here, turn_now vs v) h
  refuse_first vs i k v h all (suc j) lt =
      let later : i + suc j ≡ i + 1 + j = omega arith in
      rw (later, ← turn_shift vs.nhosts vs.next_host j) (all j (omega arith))

  Ends-next :
      (vs : RoundRobin) (i n k : ℕ) (r : Option ℕ × RoundRobin)
      → Ends (next vs) (i + 1) n k r
      → Ends vs i (suc n) (suc k) r
  Ends-next vs i n k r (inl (vbe, lt, ok, conn, e)) =
      let later : i + suc k ≡ i + 1 + k = omega arith in
      let turned = turn_shift vs.nhosts vs.next_host k in
      inl (
        vbe,
        omega arith,
        rw (later, ← turned) ok,
        rw (later, ← turned) conn,
        e
            ∙ ap (λ m. (some vbe, record vs { next_host = m }))
                (turn_shift vs.nhosts vs.next_host (suc k)),
      )
  Ends-next vs i n k r (inr (eq, e)) = inr (
    ap suc eq,
    e ∙ ap (λ m. (none, record vs { next_host = m })) (turn_shift vs.nhosts vs.next_host n),
  )

  next-IsValid : (vs : RoundRobin) → IsValid vs → IsValid (next vs)
  next-IsValid vs v = record { table = v.table; some_host = v.some_host; next = ground arith }

  -- A refused round, and then the others.
  refused :
      (n i : ℕ) (vs : RoundRobin)
      → IsValid vs
      → Refuses i (get_or vs.hosts vs.next_host 0)
      → (r : Option ℕ × RoundRobin)
      → (k : ℕ) × AllRefuse (next vs) (i + 1) k × Ends (next vs) (i + 1) n k r
      → (k : ℕ) × AllRefuse vs i k × Ends vs i (suc n) k r
  refused n i vs v h r (k, all, ends) =
      (suc k, refuse_first vs i k v h all, Ends-next vs i n k r ends)

  getfd_from_lem :
      (n i : ℕ) (vs : RoundRobin)
      → IsValid vs
      → (k : ℕ) × AllRefuse vs i k × Ends vs i n k (getfd_from healthy connect n i vs)
  unfolding getfd_from
  getfd_from_lem zero i vs v = (
    0,
    (λ j lt. absurd (omega arith)),
    inr (refl, ap (λ m. (none, record vs { next_host = m })) (sym (turn_now vs v))),
  )
  getfd_from_lem (suc n) i vs v = elim (Bool-cases (healthy i (get_or vs.hosts vs.next_host 0))) [
    | inr sick ↦
        rw (sick, getfd_from)
          (refused n i vs v (inl sick) (getfd_from healthy connect n (i + 1) (next vs))
            (getfd_from_lem n (i + 1) (next vs) (next-IsValid vs v)))
    | inl ok ↦ elim (Option-cases (connect i (get_or vs.hosts vs.next_host 0))) [
      | inl gone ↦
          rw (ok, getfd_from, gone)
            (refused n i vs v (inr gone) (getfd_from healthy connect n (i + 1) (next vs))
              (getfd_from_lem n (i + 1) (next vs) (next-IsValid vs v)))
      | inr (vbe, e) ↦
          rw (ok, getfd_from, e)
            (
              0,
              (λ j lt. absurd (omega arith)),
              inl (
                vbe,
                omega arith,
                here vs i v (λ j b. healthy j b ≡ true) ok,
                here vs i v (λ j b. connect j b ≡ some vbe) e,
                refl,
              ),
            )
    ]
  ]
    where
      here :
          (vs : RoundRobin) (i : ℕ)
          → IsValid vs
          → (P : ℕ → ℕ → Type 0) → P i (get_or vs.hosts vs.next_host 0)
          → P (i + 0) (turn vs 0)
      here vs i v P p = let now : i + 0 ≡ i = omega arith in rw (now, turn_now vs v) p

  Ends-IsValid :
      (vs : RoundRobin) (i n k : ℕ) (r : Option ℕ × RoundRobin)
      → IsValid vs
      → Ends vs i n k r
      → IsValid r.1
  Ends-IsValid vs i n k r v (inl (vbe, lt, ok, conn, e)) = rw (e) (record {
    table = v.table;
    some_host = v.some_host;
    next = mod_below (vs.next_host + suc k) vs.nhosts v.some_host;
  })
  Ends-IsValid vs i n k r v (inr (eq, e)) = rw (e) (record {
    table = v.table;
    some_host = v.some_host;
    next = mod_below (vs.next_host + n) vs.nhosts v.some_host;
  })

  -- vdi_round_robin_getfd on a director with one host or more: there is a number `k` of refused rounds,
  -- each with the host whose turn it was, from next_host on and round the table. Either `k` is less
  -- than the number of hosts, and the result is the connection that the healthy host of round `k` gave,
  -- and next_host is the host behind it; or all hosts have refused, the result is NULL, and next_host
  -- is where it was (which is written as a full turn from it). The director stays valid: its table has
  -- the counted hosts, and next_host is one of them.
  pub getfd_lem :
      (vs : RoundRobin)
      → IsValid vs
      → (k : ℕ) × AllRefuse vs 0 k
        × Ends vs 0 vs.nhosts k (getfd healthy connect vs)
        × IsValid (getfd healthy connect vs).1
  unfolding getfd
  getfd_lem vs v =
      let (k, all, ends) = getfd_from_lem vs.nhosts 0 vs v in
      (
        k,
        all,
        ends,
        Ends-IsValid vs 0 vs.nhosts k (getfd_from healthy connect vs.nhosts 0 vs) v ends,
      )
