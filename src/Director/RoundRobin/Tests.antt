-- ===== src/Director/RoundRobin/Tests.antt =====
-- Examples for the round-robin director: three hosts, the second of which is sick.
use varnish.Prelude.{
  ℕ, ◌+◌, ◌==◌, ◌≡◌, refl, Bool, true, false, Option, none, some, [], ◌∷◌, if◌then◌else◌, arith,
}
use varnish.Director.RoundRobin.{RoundRobin, init, getfd_from, getfd}
use varnish.Director.RoundRobin.Fair.{IsValid, AllRefuse, Ends, getfd_lem}

abbrev three : RoundRobin
three = record { hosts = 10 ∷ 11 ∷ 12 ∷ []; nhosts = 3; next_host = 1 }

abbrev up : ℕ → ℕ → Bool
up i b = if b == 11 then false else true

abbrev link : ℕ → ℕ → Option ℕ
link i b = some (b + 100)

three-IsValid : IsValid three
three-IsValid = record { table = refl; some_host = omega arith; next = omega arith }

getfd_test : getfd up link three ≡ (some 112, record three { next_host = 0 })
unfolding getfd getfd_from
getfd_test = refl

getfd_test_none : getfd up (λ i b. none) three ≡ (none, three)
unfolding getfd getfd_from
getfd_test_none = refl

init_test : init (λ i. i + 10) (0 ∷ 1 ∷ 2 ∷ []) ≡ record three { next_host = 0 }
unfolding init
init_test = refl

getfd_lem_example :
    (k : ℕ) × AllRefuse up link three 0 k
    × Ends up link three 0 3 k (getfd up link three)
    × IsValid (getfd up link three).1
getfd_lem_example = getfd_lem up link three three-IsValid
