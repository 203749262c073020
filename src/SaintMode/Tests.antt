-- ===== src/SaintMode/Tests.antt =====
-- Examples for saint mode: two troubles, with the objects 7 and 9.
use varnish.Prelude.{◌+◌, ◌≡◌, refl, true, false, not, [], ◌∷◌, length, ltb, ◌&&◌, arith}
use varnish.Prelude.Checked.{ok}
use varnish.SaintMode.{Backend, scan, vbe_healthy, beresp_saintmode}
use varnish.SaintMode.Verdict.{troubled}
use varnish.SaintMode.Sorted.{
  is_sorted, unexpired, threshold, vbe_healthy_lem, beresp_saintmode_lem,
}

abbrev backend : Backend
backend = record {
  healthy = true;
  saintmode_threshold = 2;
  troublelist = record { target = 7; timeout = 50 } ∷ record { target = 9; timeout = 20 } ∷ [];
}

-- At 30 the second has timed out.
vbe_healthy_test :
    vbe_healthy 10 30 9 backend
    ≡ (true, record backend { troublelist = record { target = 7; timeout = 50 } ∷ [] })
unfolding vbe_healthy scan
vbe_healthy_test = refl

vbe_healthy_test_troubled : vbe_healthy 10 30 7 backend ≡ (false, backend)
unfolding vbe_healthy scan
vbe_healthy_test_troubled = refl

vbe_healthy_lem_example :
    ((vbe_healthy 10 30 9 backend).0 ≡ (
      not (troubled 9 (unexpired 30 backend.troublelist))
      && ltb (length (unexpired 30 backend.troublelist)) (threshold 10 backend)))
    × (is_sorted (vbe_healthy 10 30 9 backend).1.troublelist ≡ true)
    × (unexpired 30 (vbe_healthy 10 30 9 backend).1.troublelist ≡ unexpired 30 backend.troublelist)
vbe_healthy_lem_example = vbe_healthy_lem 10 30 9 backend refl refl refl refl

beresp_saintmode_lem_example :
    (b : Backend) × (beresp_saintmode 25 3 10 backend ≡ ok b)
    × (is_sorted b.troublelist ≡ true)
    × (troubled 3 (unexpired 30 b.troublelist) ≡ true)
    × (length b.troublelist ≡ 2 + 1)
beresp_saintmode_lem_example =
    beresp_saintmode_lem 25 3 10 30 backend refl (omega arith) refl (omega arith)
