-- ===== src/Http/Unset.antt =====
-- http_Unset of bin/varnishd/cache_http.c, which moves the headers that stay up in the table.
use varnish.Prelude.{
  ℕ, zero, suc, ◌+◌, ◌-◌, Bool, true, false, none, some, ◌==◌, if◌then◌else◌, get_or, set,
}
use varnish.Prelude.Checked.{Checked, ok, ◌>>=◌}
use varnish.Http.{Text, Field, Http, hdr_first}
use varnish.Http.Filter.{is_hdr}

unfoldable pub move : Http → ℕ → ℕ → Http
move hp u v = if v == u then hp else record hp {
  hd = set hp.hd v (get_or hp.hd u none);
  hdf = set hp.hdf v (get_or hp.hdf u 0);
}

-- whether the loop passes over an entry
unfoldable pub is_passed : Field → Text → Checked Bool
unfolding is_hdr
is_passed none hdr = ok true
is_passed (some t) hdr = is_hdr t hdr

-- the loop of http_Unset with `n` entries left
unfoldable pub unset_from : ℕ → ℕ → ℕ → Http → Text → Checked (ℕ × Http)
unfolding move is_passed
unset_from zero u v hp hdr = ok (v, hp)
unset_from (suc n) u v hp hdr = do
  passed ← is_passed (get_or hp.hd u none) hdr
  elim passed [
    | true ↦ unset_from n (u + 1) v hp hdr
    | false ↦ unset_from n (u + 1) (v + 1) (move hp u v) hdr
  ]

unfoldable pub unset : Http → Text → Checked Http
unfolding unset_from
unset hp hdr = do
  r ← unset_from (hp.nhd - hdr_first) hdr_first hdr_first hp hdr
  ok (record r.1 { nhd = r.0 })
