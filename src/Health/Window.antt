-- ===== src/Health/Window.antt =====
-- The verdict of bin/varnishd/cache_backend_poll.c on a backend: enough happy pokes in the window.
use varnish.Prelude.{
  ℕ, zero, suc, ◌+◌, ◌-◌, ◌/◌, ◌%◌, ◌^◌, List, [], ◌∷◌, leb, ltb, ◌==◌, if◌then◌else◌, set,
}
use varnish.Health.{Target, shift, set_newest}
use varnish.Health.Poke.{Talk, poke}

unfoldable pub start_poke : Target → Target
unfolding shift
start_poke vt = record vt {
  good_ipv4 = shift vt.good_ipv4;
  good_ipv6 = shift vt.good_ipv6;
  err_xmit = shift vt.err_xmit;
  good_xmit = shift vt.good_xmit;
  err_recv = shift vt.err_recv;
  good_recv = shift vt.good_recv;
  happy = shift vt.happy;
  resp_buf = set vt.resp_buf 0 0;
}

-- for (i = j = 0; i < window; i++) { if (u & 1) j++; u >>= 1; }
unfoldable pub ones : ℕ → ℕ → ℕ → ℕ
ones zero u j = j
ones (suc n) u j = ones n (u / 2) (if u % 2 == 1 then j + 1 else j)

unfoldable pub has_poked : Target → Target
unfolding ones
has_poked vt =
    let good = ones vt.window vt.happy 0 in
    record vt { good = good; healthy = leb vt.threshold good }

-- vbp_wrk_poll_backend: the defaults of the probe; ~0U asks for one less than the threshold.
unfoldable pub set_defaults : Target → Target
set_defaults vt =
    let window = if vt.window == 0 then 8 else vt.window in
    let threshold = if vt.threshold == 0 then 3 else vt.threshold in
    let exp_status = if vt.exp_status == 0 then 200 else vt.exp_status in
    let initial = if threshold == 2 ^ 32 - 1 then threshold - 1 else vt.initial in
    record vt {
      window = window;
      threshold = threshold;
      exp_status = exp_status;
      initial = if ltb threshold initial then threshold else initial;
    }

-- the loop that starts the record with happy pokes
unfoldable pub pretend : ℕ → Target → Target
unfolding start_poke set_newest has_poked
pretend zero vt = vt
pretend (suc n) vt =
    let vt1 = start_poke vt in pretend n (has_poked (record vt1 { happy = set_newest vt1.happy }))

-- one round of the loop, and the rounds until it is stopped
unfoldable pub round : Talk → Target → Target
unfolding start_poke poke has_poked
round c vt = has_poked (poke c (start_poke vt))

unfoldable pub rounds : List Talk → Target → Target
unfolding round
rounds [] vt = vt
rounds (c ∷ cs) vt = rounds cs (round c vt)

unfoldable pub poll_backend : List Talk → Target → Target
unfolding set_defaults pretend rounds
poll_backend cs vt = let vt1 = set_defaults vt in rounds cs (pretend vt1.initial vt1)
