-- ===== src/Http/Filter.antt =====
-- Copying a message's headers into another table, bin/varnishd/cache_http.c: http_IsHdr,
-- http_copyheader, http_EstimateWS, http_FilterFields.
use varnish.Prelude.{
  ℕ, zero, suc, ◌+◌, ◌-◌, ◌%◌, ◌^◌, Bool, true, false, none, some, List, [], ◌∷◌, ltb, ◌==◌,
  if◌then◌else◌, length, drop, get_or, set,
}
use Prim.Native.Nat.{bit_and}
use varnish.Prelude.Checked.{Checked, ok, assert, ◌>>=◌, ◌>>◌}
use varnish.Http.{Text, Field, Http, hdr_first, eq_ncase, char_to_unsigned}
use varnish.Http.Headers.{headers}

-- `hdr` has its length before it.
unfoldable pub is_hdr : Text → Text → Checked Bool
is_hdr t hdr = do
  let l = char_to_unsigned (get_or hdr 0 0)
  assert (l == length (drop 1 hdr))
  assert (get_or hdr l 0 == b':')
  ok (eq_ncase l (drop 1 hdr) t)

-- the tests that the table of headers expands to
unfoldable pub is_suppressed : List (Text × ℕ) → ℕ → Text → Checked Bool
unfolding is_hdr
is_suppressed [] how t = ok false
is_suppressed ((hdr, e) ∷ table) how t =
    let rest = is_suppressed table how t in
    if bit_and e how == 0 then rest else (do same ← is_hdr t hdr; if same then ok true else rest)

-- whether the loops pass over an entry with its flags
unfoldable pub is_skipped : ℕ → Field → ℕ → Checked Bool
unfolding is_suppressed
is_skipped how none flags = ok true
is_skipped how (some t) flags = if flags % 2 == 1 then ok true else is_suppressed headers how t

abbrev pub is_some : Field → Bool
is_some none = false
is_some (some t) = true

-- a table and the counter of lost headers
abbrev pub Copied : Type 0
Copied = Http × ℕ

unfoldable pub copy_header : Copied → Http → ℕ → Checked Copied
copy_header (to, lost) fm n = do
  assert (ltb n fm.shd)
  assert (is_some (get_or fm.hd n none))
  let copied = record to {
    hd = set to.hd to.nhd (get_or fm.hd n none);
    hdf = set to.hdf to.nhd 0;
    nhd = to.nhd + 1;
  }
  ok (if ltb to.nhd to.shd then (copied, lost) else (to, lost + 1))

-- the loop of http_FilterFields with `n` entries left, the next one being `u`
unfoldable pub filter_from : ℕ → ℕ → Http → ℕ → Copied → Checked Copied
unfolding is_skipped copy_header
filter_from zero u fm how s = ok s
filter_from (suc n) u fm how s = do
  skip ← is_skipped how (get_or fm.hd u none) (get_or fm.hdf u 0)
  s' ← elim skip [ true ↦ ok s | false ↦ copy_header s fm u ]
  filter_from n (u + 1) fm how s'

unfoldable pub filter_fields : Http → ℕ → Http → ℕ → Checked Copied
unfolding filter_from
filter_fields to lost fm how =
    filter_from (fm.nhd - hdr_first) hdr_first fm how
      (record to { nhd = hdr_first; status = fm.status }, lost)

abbrev pub len : Field → ℕ
len none = 0
len (some t) = length t

-- the loop of http_EstimateWS: the bytes and the number of headers so far
unfoldable pub estimate_from : ℕ → ℕ → Http → ℕ → ℕ × ℕ → Checked (ℕ × ℕ)
unfolding is_skipped
estimate_from zero u fm how r = ok r
estimate_from (suc n) u fm how (l, nhd) = do
  skip ← is_skipped how (get_or fm.hd u none) (get_or fm.hdf u 0)
  estimate_from n (u + 1) fm how
      (if skip then (l, nhd) else ((l + (len (get_or fm.hd u none) + 1)) % 2 ^ 32, nhd + 1))

unfoldable pub estimate_ws : Http → ℕ → Checked (ℕ × ℕ)
unfolding estimate_from
estimate_ws fm how = estimate_from fm.nhd 0 fm how (0, hdr_first)
