-- ===== src/Http.antt =====
-- The header table of bin/varnishd/cache_http.c. A `txt` is the text from its `b` to its `e`, where a
-- NUL stands; a text holds no NUL. A `txt` whose `b` is NULL is none. `char` is signed, so that a
-- `char` of 128 or more becomes a large number as an `unsigned`.
pub mod Headers
pub mod Filter
pub mod Room
pub mod Unset
pub mod Stays
pub mod Copy
mod Tests
use varnish.Prelude.{
  ℕ, zero, suc, ◌+◌, ◌-◌, ◌^◌, Bool, true, false, Option, none, some, List, [], ◌∷◌, ltb, leb, ◌==◌,
  if◌then◌else◌, length, drop, get_or, get_elem?, ◌&&◌, ◌||◌,
}
use varnish.Prelude.Checked.{Checked, ok, assert, ◌>>◌}
use varnish.Vct.{is_sp}

abbrev pub Text : Type 0
Text = List ℕ

abbrev pub Field : Type 0
Field = Option Text

-- `struct http`, less the log tag, the protocol version and the workspace
pub record Http : Type 0 where
  pub conds : Bool
  pub status : ℕ
  pub shd : ℕ
  pub hd : List Field
  pub hdf : List ℕ
  pub nhd : ℕ

-- HTTP_HDR_FIRST: the request's or the response's first line takes the five entries before it.
abbrev pub hdr_first : ℕ
hdr_first = 5

-- tolower in the "C" locale
unfoldable pub lower : ℕ → ℕ
lower c = if leb b'A' c && leb c b'Z' then c + 32 else c

-- !strncasecmp(s, t, n); the end of a list is a NUL
unfoldable pub eq_ncase : ℕ → Text → Text → Bool
eq_ncase zero s t = true
eq_ncase (suc n) [] [] = true
eq_ncase (suc n) [] (d ∷ t) = d == 0
eq_ncase (suc n) (c ∷ s) [] = c == 0
eq_ncase (suc n) (c ∷ s) (d ∷ t) = (lower c == lower d) && (c == 0 || eq_ncase n s t)

-- the tests of the loop in http_findhdr
unfoldable pub named : ℕ → Text → Field → Bool
named l hdr none = false
named l hdr (some t) = leb (l + 1) (length t) && (get_or t l 0 == b':' && eq_ncase l hdr t)

-- The entries from index `u` on, up to `nhd`; 0 is "not found".
unfoldable pub find_from : ℕ → ℕ → Text → List Field → ℕ → ℕ
find_from nhd l hdr [] u = 0
find_from nhd l hdr (f ∷ fs) u =
    let rest = find_from nhd l hdr fs (u + 1) in
    if ltb u nhd then (if named l hdr f then u else rest) else 0

unfoldable pub find_hdr : Http → ℕ → Text → ℕ
unfolding find_from
find_hdr hp l hdr = find_from hp.nhd l hdr (drop hdr_first hp.hd) hdr_first

-- while (vct_issp(*p)) p++;
unfoldable pub skip_sp : Text → Text
skip_sp [] = []
skip_sp (c ∷ t) = let rest = skip_sp t in if is_sp c then rest else c ∷ t

abbrev pub char_to_unsigned : ℕ → ℕ
char_to_unsigned c = if ltb c 128 then c else c + (2 ^ 32 - 256)

abbrev pub or_empty : Option Field → Text
or_empty none = []
or_empty (some none) = []
or_empty (some (some t)) = t

-- strlen, of the bytes before the first NUL
unfoldable pub strlen : Text → ℕ
strlen [] = 0
strlen (c ∷ t) = let n = strlen t in if c == 0 then 0 else n + 1

-- http_GetHdr; the value runs to the end of the header. `hdr` is the name with its length before it
-- and the colon behind it. A read behind its end is a fault.
unfoldable pub get_hdr : Http → Text → Checked (Option Text)
unfolding strlen
get_hdr hp hdr = do
  let l = char_to_unsigned (get_or hdr 0 0)
  assert (l == strlen (drop 1 hdr))
  assert (get_or hdr l 0 == b':')
  let u = find_hdr hp (l - 1) (drop 1 hdr)
  ok (if u == 0 then none else some (skip_sp (drop l (or_empty (get_elem? hp.hd u)))))
