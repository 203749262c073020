-- ===== src/Director/Random/Tests.antt =====
-- Examples for the random director: three hosts, the first of which is sick.
use varnish.Prelude.{
  ℕ, ◌+◌, ◌≡◌, inl, refl, ◌==◌, Bool, true, false, Option, none, some, List, [], ◌∷◌, arith,
  if◌then◌else◌,
}
use varnish.Prelude.Checked.{ok, panic}
use varnish.Director.Random.{
  Host, Criteria, c_random, c_hash, c_client, Random, Entry, init, init_hosts, threshold, tries,
  canonical, choose, sum_weights, try, cache_healthy, digest_word, getfd,
}
use varnish.Director.Random.Refusal.{Outcome}
use varnish.Director.Random.Served.{init-getfd}

abbrev entries : List Entry
entries =
    record { host = 0; weight = 1 }
    ∷ record { host = 1; weight = 3 }
    ∷ record { host = 2; weight = 4 }
    ∷ []

abbrev hosts : List Host
hosts =
    record { backend = 10; weight = 1 }
    ∷ record { backend = 11; weight = 3 }
    ∷ record { backend = 12; weight = 4 }
    ∷ []

abbrev table : ℕ → ℕ
table i = i + 10

abbrev director : Criteria → Random
director x = record { criteria = x; retries = 3; tot_weight = 8; hosts = hosts; nhosts = 3 }

abbrev up : ℕ → ℕ → Bool
up i b = if b == 10 then false else true

abbrev link : ℕ → ℕ → Option ℕ
link i b = if b == 11 then none else some (b + 100)

abbrev dice : ℕ → ℕ
dice k = 7

abbrev no_digest : List ℕ → List ℕ
no_digest s = 0 ∷ 0 ∷ 0 ∷ 128 ∷ []

init_test : init table c_hash 0 entries ≡ ok (director c_hash)
unfolding init init_hosts
init_test = refl

init_test_random : init table c_random 0 entries ≡ ok (director c_random)
unfolding init init_hosts
init_test_random = refl

init_test_no_weight : init table c_hash 0 (record { host = 0; weight = 0 } ∷ []) ≡ panic
unfolding init init_hosts
init_test_no_weight = refl

-- The host at 1 is drawn first, and gives no connection.
getfd_test : getfd up link dice no_digest [] [] (director c_random) ≡ ok (some 112)
unfolding getfd tries threshold sum_weights choose cache_healthy try
getfd_test = refl

getfd_test_none : getfd up (λ i b. none) dice no_digest [] [] (director c_random) ≡ ok none
unfolding getfd tries threshold sum_weights choose cache_healthy try
getfd_test_none = refl

-- The canonical host of 2^31 / 2^32 is that at 2.
getfd_test_client : getfd up link dice no_digest [] [] (director c_client) ≡ ok (some 112)
unfolding getfd canonical digest_word cache_healthy try
getfd_test_client = refl

init-getfd_example : Outcome up link hosts (getfd up link dice no_digest [] [] (director c_random))
init-getfd_example =
    init-getfd up link dice (λ k. omega arith) table c_random 0 entries (director c_random)
      no_digest [] [] (inl refl) init_test_random
