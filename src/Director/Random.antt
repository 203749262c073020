-- ===== src/Director/Random.antt =====
-- The random, hash and client directors of bin/varnishd/cache_dir_random.c. Weights are numbers, as
-- the VCL compiler writes them; a threshold is a fraction of a sum of weights, which the doubles of
-- the code hold exactly where the sum is below 2^21, and comparisons are multiplied out. Whether
-- the host at an index is healthy and whether it gives a connection is up to the network: the two
-- functions are parameters, and the code asks each of them once at most for an index. The numbers
-- that random(3) gives are the parameter `random`.
pub mod Cache
pub mod Sum
mod Choice
mod Refusal
mod Retries
mod Canonical
mod Served
mod Tests
use varnish.Prelude.{
  ℕ, zero, suc, ◌+◌, ◌*◌, ◌%◌, ◌^◌, Bool, true, false, Option, none, some, List, [], ◌∷◌, ltb, leb,
  ◌==◌, ◌||◌, not, length, get_or, if◌then◌else◌,
}
use varnish.Prelude.Checked.{Checked, ok, assert, ◌>>=◌, ◌>>◌}
use varnish.Prelude.Maps.{write}

-- `struct vdi_random_host`
pub record Host : Type 0 where
  pub backend : ℕ
  pub weight : ℕ

-- `enum crit_e`
pub data Criteria : Type 0 where
  c_random c_hash c_client : Criteria

-- `struct vdi_random`, less the director's names and callbacks
pub record Random : Type 0 where
  pub criteria : Criteria
  pub retries : ℕ
  pub tot_weight : ℕ
  pub hosts : List Host
  pub nhosts : ℕ

-- `enum health_c`
pub data HealthC : Type 0 where
  c_unknown c_unhealthy c_healthy : HealthC

-- `struct vrt_dir_random_entry`
pub record Entry : Type 0 where
  pub host : ℕ
  pub weight : ℕ

-- The loop of vrt_init: the hosts, and the sum of their weights; `bp` is the table of backends, a
-- null pointer is 0.
unfoldable pub init_hosts : (ℕ → ℕ) → ℕ → List Entry → Checked (List Host × ℕ)
init_hosts bp tot [] = ok ([], tot)
init_hosts bp tot (te ∷ members) = do
  assert (ltb 0 te.weight)
  assert (ltb 0 (bp te.host))
  r ← init_hosts bp (tot + te.weight) members
  ok (record { backend = bp te.host; weight = te.weight } ∷ r.0, r.1)

-- vrt_init, which makes the directors of all three criteria
unfoldable pub init : (ℕ → ℕ) → Criteria → ℕ → List Entry → Checked Random
unfolding init_hosts
init bp criteria retries members = do
  r ← init_hosts bp 0 members
  ok (record {
    criteria = criteria;
    retries = if retries == 0 then length members else retries;
    tot_weight = r.1;
    hosts = r.0;
    nhosts = length members;
  })

-- The first four bytes of a digest, as an `unsigned`.
unfoldable pub digest_word : List ℕ → ℕ
digest_word hp =
    (get_or hp 3 0 * 2 ^ 24 + get_or hp 2 0 * 2 ^ 16 + get_or hp 1 0 * 2 ^ 8 + get_or hp 0 0)
    % 2 ^ 32

module _ (healthy : ℕ → ℕ → Bool) (connect : ℕ → ℕ → Option ℕ) where
  -- vdi_random_cache_healthy
  unfoldable pub cache_healthy : (ℕ → HealthC) → ℕ → Host → Bool × (ℕ → HealthC)
  cache_healthy cache i h = elim (cache i) [
    | c_unknown ↦ elim (healthy i h.backend) [
      | false ↦ (false, write cache i c_unhealthy)
      | true ↦ (true, write cache i c_healthy)
    ]
    | c_unhealthy ↦ (false, cache)
    | c_healthy ↦ (true, cache)
  ]

  -- VBE_GetFd for a host that was chosen
  unfoldable pub try : (ℕ → HealthC) → ℕ → Host → Option ℕ × (ℕ → HealthC)
  try cache i h = elim (connect i h.backend) [
    | some vbe ↦ (some vbe, cache)
    | none ↦ (none, write cache i c_unhealthy)
  ]

  -- The loop for the canonical backend from index `i` on, for the threshold `u` / 2^32 * `tot`.
  unfoldable pub canonical : ℕ → ℕ → ℕ → ℕ → List Host → (ℕ → HealthC) → Option ℕ × (ℕ → HealthC)
  unfolding cache_healthy try
  canonical u tot i s1 [] cache = (none, cache)
  canonical u tot i s1 (h ∷ hosts) cache =
      let rest = canonical u tot (i + 1) (s1 + h.weight) hosts cache in
      let c = cache_healthy cache i h in
      if leb ((s1 + h.weight) * 2 ^ 32) (u * tot)
      then rest
      else elim c.0 [ false ↦ (none, c.1) | true ↦ try c.1 i h ]

  -- The sum of the weights of the healthy hosts.
  unfoldable pub sum_weights : ℕ → ℕ → List Host → (ℕ → HealthC) → ℕ × (ℕ → HealthC)
  unfolding cache_healthy
  sum_weights i s1 [] cache = (s1, cache)
  sum_weights i s1 (h ∷ hosts) cache =
      let c = cache_healthy cache i h in
      sum_weights (i + 1) (if c.0 then s1 + h.weight else s1) hosts c.1

  -- The loop of a retry, for the threshold `r` / `m` * `sum`.
  unfoldable pub choose : ℕ → ℕ → ℕ → ℕ → ℕ → List Host → (ℕ → HealthC) → Option ℕ × (ℕ → HealthC)
  unfolding cache_healthy try
  choose r m sum i s1 [] cache = (none, cache)
  choose r m sum i s1 (h ∷ hosts) cache =
      let c = cache_healthy cache i h in
      let skipped = choose r m sum (i + 1) s1 hosts c.1 in
      let passed = choose r m sum (i + 1) (s1 + h.weight) hosts c.1 in
      elim c.0 [
        | false ↦ skipped
        | true ↦ if leb ((s1 + h.weight) * m) (r * sum) then passed else try c.1 i h
      ]

  module _ (random : ℕ → ℕ) where
    -- The threshold of retry `k`: its numerator and its denominator.
    unfoldable pub threshold : Criteria → ℕ → ℕ → ℕ × ℕ
    threshold c_random u k = (random k, 2 ^ 31)
    threshold c_hash u k = (u, 2 ^ 32)
    threshold c_client u k = (u, 2 ^ 32)

    -- The `n` retries from the one with number `k` on.
    unfoldable pub tries : ℕ → ℕ → Random → ℕ → (ℕ → HealthC) → Checked (Option ℕ)
    unfolding sum_weights choose threshold
    tries zero k vs u cache = ok none
    tries (suc n) k vs u cache =
        let s = sum_weights 0 0 vs.hosts cache in
        let t = threshold vs.criteria u k in
        let c = choose t.0 t.1 s.0 0 0 vs.hosts s.1 in
        let rest = tries n (k + 1) vs u c.1 in
        if s.0 == 0
        then ok none
        else (assert (ltb t.0 t.1) >> elim c.0 [ some vbe ↦ ok (some vbe) | none ↦ rest ])

    -- vdi_random_getfd: `sha256` is the digest function, `addr` the client's address in ASCII and
    -- `digest` the hash of the request.
    unfoldable pub getfd : (List ℕ → List ℕ) → List ℕ → List ℕ → Random → Checked (Option ℕ)
    unfolding canonical tries digest_word
    getfd sha256 addr digest vs =
        let fresh : ℕ → HealthC = λ i. c_unknown in
        let hashed : ℕ → Checked (Option ℕ) = λ u.
          let c = canonical u vs.tot_weight 0 0 vs.hosts fresh in
          assert (ltb u (2 ^ 32))
          >> elim c.0 [ some vbe ↦ ok (some vbe) | none ↦ tries vs.retries 0 vs u c.1 ] in
        elim vs.criteria [
          | c_random ↦ tries vs.retries 0 vs 0 fresh
          | c_hash ↦ hashed (digest_word digest)
          | c_client ↦ hashed (digest_word (sha256 addr))
        ]

-- vdi_random_healthy
unfoldable pub any_healthy : (ℕ → Bool) → List Host → Bool
any_healthy vbe_healthy [] = false
any_healthy vbe_healthy (h ∷ hosts) = vbe_healthy h.backend || any_healthy vbe_healthy hosts
