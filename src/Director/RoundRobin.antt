-- ===== src/Director/RoundRobin.antt =====
-- The round-robin director of bin/varnishd/cache_dir_round_robin.c. Backends and connections are
-- numbers. Whether a backend is healthy and whether it gives a connection is up to the network: the
-- two functions are parameters, asked with the number of the attempt, so that answers may change.
pub mod Fair
mod Tests
use varnish.Prelude.{
  ℕ, zero, suc, ◌+◌, ◌%◌, Bool, true, false, Option, none, some, List, [], ◌∷◌, ◌||◌, length,
  get_or, if◌then◌else◌,
}

-- `struct vdi_round_robin`, less the director's names and callbacks
pub record RoundRobin : Type 0 where
  pub hosts : List ℕ
  pub nhosts : ℕ
  pub next_host : ℕ

-- VRT_init_dir_round_robin for the members' indices into the table of backends
unfoldable pub init : (ℕ → ℕ) → List ℕ → RoundRobin
init bp members = record { hosts = backends members; nhosts = length members; next_host = 0 }
  where
    backends : List ℕ → List ℕ
    backends [] = []
    backends (te ∷ rest) = bp te ∷ backends rest

module _ (healthy : ℕ → ℕ → Bool) (connect : ℕ → ℕ → Option ℕ) where
  -- The loop of vdi_round_robin_getfd with `n` rounds left, `i` being the number of the round.
  unfoldable pub getfd_from : ℕ → ℕ → RoundRobin → Option ℕ × RoundRobin
  getfd_from zero i vs = (none, vs)
  getfd_from (suc n) i vs =
      let backend = get_or vs.hosts vs.next_host 0 in
      let vs' = record vs { next_host = (vs.next_host + 1) % vs.nhosts } in
      elim (healthy i backend) [
        | false ↦ getfd_from n (i + 1) vs'
        | true ↦ elim (connect i backend) [
          | some vbe ↦ (some vbe, vs')
          | none ↦ getfd_from n (i + 1) vs'
        ]
      ]

  unfoldable pub getfd : RoundRobin → Option ℕ × RoundRobin
  unfolding getfd_from
  getfd vs = getfd_from vs.nhosts 0 vs

-- vdi_round_robin_healthy
unfoldable pub any_healthy : (ℕ → Bool) → List ℕ → Bool
any_healthy ok [] = false
any_healthy ok (b ∷ hosts) = ok b || any_healthy ok hosts
