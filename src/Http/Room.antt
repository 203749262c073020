-- ===== src/Http/Room.antt =====
-- Which headers http_EstimateWS and http_FilterFields of bin/varnishd/cache_http.c take, and which
-- they skip.
use varnish.Prelude.{
  ℕ, zero, suc, ◌+◌, ◌%◌, ◌≡◌, refl, Bool, true, false, none, some, List, [], ◌∷◌, ◌==◌, ◌&&◌,
  if◌then◌else◌, length, drop, get_or, arith,
}
use Prim.Native.Nat.{bit_and}
use varnish.Prelude.Checked.{ok}
use varnish.Http.{Text, Field, Http, eq_ncase, char_to_unsigned}
use varnish.Http.Headers.{headers}
use varnish.Http.Filter.{is_hdr, is_suppressed, is_skipped}

-- A name has the length before it that it is, and a colon at its end.
is_name : Text → Bool
is_name hdr =
    (char_to_unsigned (get_or hdr 0 0) == length (drop 1 hdr))
    && (get_or hdr (char_to_unsigned (get_or hdr 0 0)) 0 == b':')

are_names : List (Text × ℕ) → Bool
are_names [] = true
are_names ((hdr, e) ∷ table) = is_name hdr && are_names table

-- Is a header suppressed, where the names are names?
unfoldable pub suppresses : List (Text × ℕ) → ℕ → Text → Bool
suppresses [] how t = false
suppresses ((hdr, e) ∷ table) how t =
    let rest = suppresses table how t in
    if bit_and e how == 0
    then rest
    else (if eq_ncase (char_to_unsigned (get_or hdr 0 0)) (drop 1 hdr) t then true else rest)

suppresses_lem :
    (table : List (Text × ℕ)) (how : ℕ) (t : Text)
    → are_names table ≡ true
    → is_suppressed table how t ≡ ok (suppresses table how t)
unfolding suppresses is_suppressed is_hdr are_names is_name
suppresses_lem [] how t h = refl
suppresses_lem ((hdr, e) ∷ table) how t h =
    let rest = suppresses_lem table how t (ground arith) in let named = is_name hdr in ground arith

-- the entries that are neither empty, nor filtered by Connection, nor suppressed
abbrev pub skips : ℕ → Field → ℕ → Bool
skips how none flags = true
skips how (some t) flags = if flags % 2 == 1 then true else suppresses headers how t

headers-are_names : are_names headers ≡ true
unfolding are_names is_name headers
headers-are_names = refl

pub skips_lem : (how : ℕ) (f : Field) (flags : ℕ) → is_skipped how f flags ≡ ok (skips how f flags)
unfolding is_skipped
skips_lem how none flags = refl
skips_lem how (some t) flags =
    let e = suppresses_lem headers how t headers-are_names in ground arith

-- the `n` entries from `u` on that are not skipped
abbrev pub select : ℕ → ℕ → ℕ → Http → List Field
select how zero u fm = []
select how (suc n) u fm =
    let rest = select how n (u + 1) fm in
    if skips how (get_or fm.hd u none) (get_or fm.hdf u 0) then rest else get_or fm.hd u none ∷ rest
