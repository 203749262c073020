-- ===== src/Http/Tests.antt =====
-- Examples for the copying of headers.
use varnish.Prelude.{
  ℕ, List, ◌+◌, ◌-◌, ◌%◌, ◌^◌, ◌≡◌, refl, false, none, some, [], ◌∷◌, ◌++◌, length, take, replicate,
  map, arith,
}
use varnish.Prelude.Checked.{ok}
use varnish.Http.{Http, hdr_first, eq_ncase, lower}
use varnish.Http.Headers.{headers, r_fetch, r_pass}
use varnish.Http.Filter.{
  is_hdr, is_suppressed, is_skipped, filter_fields, estimate_from, estimate_ws,
}
use varnish.Http.Unset.{move, is_passed, unset_from, unset}
use varnish.Http.Stays.{IsName, others, unset_lem}
use varnish.Http.Room.{select}
use varnish.Http.Copy.{bytes, estimate_ws_lem, filter_fields_lem}

-- "Range: 1", "TE: a" and "X: 7", the last filtered by Connection, and "Y:"
abbrev message : Http
message = record {
  conds = false;
  status = 7;
  shd = 9;
  hd =
      replicate 5 none
      ++ (some (b'r' ∷ b'a' ∷ b'n' ∷ b'g' ∷ b'e' ∷ b':' ∷ b' ' ∷ b'1' ∷ [])
          ∷ some (b'T' ∷ b'E' ∷ b':' ∷ b' ' ∷ b'a' ∷ [])
          ∷ some (b'X' ∷ b':' ∷ b' ' ∷ b'7' ∷ [])
          ∷ some (b'Y' ∷ b':' ∷ [])
          ∷ []);
  hdf = 0 ∷ 0 ∷ 0 ∷ 0 ∷ 0 ∷ 0 ∷ 0 ∷ 1 ∷ 0 ∷ [];
  nhd = 9;
}

abbrev table : Http
table = record {
  conds = false;
  status = 0;
  shd = 7;
  hd = replicate 7 none;
  hdf = replicate 7 0;
  nhd = 5;
}

-- Fetching suppresses both, passing only the second.
estimate_test : estimate_ws message r_fetch ≡ ok (3, 6)
unfolding estimate_ws estimate_from is_skipped is_suppressed is_hdr headers eq_ncase lower
estimate_test = refl

estimate_test_pass : estimate_ws message r_pass ≡ ok (12, 7)
unfolding estimate_ws estimate_from is_skipped is_suppressed is_hdr headers eq_ncase lower
estimate_test_pass = refl

estimate_ws_lem_example :
    estimate_ws message r_pass
    ≡ ok
        (bytes (select r_pass 9 0 message) % 2 ^ 32, hdr_first + length (select r_pass 9 0 message))
estimate_ws_lem_example = estimate_ws_lem message r_pass

filter_fields_lem_example :
    (to' : Http) × (filter_fields table 0 message r_pass ≡ ok (to', 0))
    × (take to'.nhd to'.hd
        ≡ take hdr_first table.hd ++ select r_pass (9 - hdr_first) hdr_first message)
    × (to'.status ≡ 7)
    × (to'.shd ≡ 7)
filter_fields_lem_example =
    filter_fields_lem table message 0 r_pass 12 7 (omega arith) (omega arith) (omega arith)
      estimate_test_pass (omega arith)

-- "X:" with its length before it
abbrev x_name : List ℕ
x_name = 2 ∷ b'X' ∷ b':' ∷ []

unset_test :
    unset message x_name
    ≡ ok (record message {
      nhd = 8;
      hd =
          replicate 5 none
          ++ (some (b'r' ∷ b'a' ∷ b'n' ∷ b'g' ∷ b'e' ∷ b':' ∷ b' ' ∷ b'1' ∷ [])
              ∷ some (b'T' ∷ b'E' ∷ b':' ∷ b' ' ∷ b'a' ∷ [])
              ∷ some (b'Y' ∷ b':' ∷ [])
              ∷ some (b'Y' ∷ b':' ∷ [])
              ∷ []);
      hdf = 0 ∷ 0 ∷ 0 ∷ 0 ∷ 0 ∷ 0 ∷ 0 ∷ 0 ∷ 0 ∷ [];
    })
unfolding unset unset_from is_passed is_hdr move eq_ncase lower
unset_test = refl

x_name-IsName : IsName x_name
x_name-IsName = record { counted = refl; colon = refl }

unset_lem_example :
    (hp' : Http) × (unset message x_name ≡ ok hp')
    × (take hp'.nhd hp'.hd
        ≡ take hdr_first message.hd
          ++ map (λ e. e.0) (others x_name (9 - hdr_first) hdr_first message.hd message.hdf))
    × (take hp'.nhd hp'.hdf
        ≡ take hdr_first message.hdf
          ++ map (λ e. e.1) (others x_name (9 - hdr_first) hdr_first message.hd message.hdf))
unset_lem_example = unset_lem message x_name x_name-IsName (omega arith) (omega arith) (omega arith)
