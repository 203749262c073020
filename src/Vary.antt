-- ===== src/Vary.antt =====
-- Vary processing, bin/varnishd/cache_vary.c, over the string buffer of Vsb with its allocator. What
-- vsb_printf and vsb_bcat return is ignored, as in the code.
pub mod Spec
pub mod Lookup
pub mod Scan
pub mod Fill
pub mod Create
pub mod Made
mod Rounds
pub mod Match
mod Tests
use varnish.Prelude.{
  ℕ, zero, suc, ◌+◌, ◌-◌, ◌*◌, ◌/◌, ◌%◌, ◌^◌, ◌≤◌, ◌<◌, Bool, true, false, Option, none, some, List,
  [], ◌∷◌, ◌++◌, ltb, leb, ◌==◌, if◌then◌else◌, not, length, drop, take, get_or, ◌&&◌, ◌||◌,
}
use varnish.Prelude.Checked.{Checked, ok, panic, assert, ◌>>=◌, ◌>>◌}
use varnish.Ctype.{is_space}
use varnish.Http.{Http, Text, get_hdr}
use varnish.Vsb.{Vsb, new, printf, bcat, clear, finish, text, len, delete}

-- while (isspace(*h)) h++;
unfoldable pub skip_space : Text → Text
skip_space [] = []
skip_space (c ∷ t) = let rest = skip_space t in if is_space c then rest else c ∷ t

-- e = strchr(h, '\0'); while (e > h && isspace(e[-1])) e--;
unfoldable pub trim_end : Text → Text
trim_end [] = []
trim_end (c ∷ t) = elim (trim_end t) [ [] ↦ if is_space c then [] else c ∷ [] | d ∷ r ↦ c ∷ d ∷ r ]

-- Leading and trailing space removed.
unfoldable pub trim : Text → Text
unfolding skip_space trim_end is_space
trim t = trim_end (skip_space t)

-- for (q = p; *q && !isspace(*q) && *q != ','; q++): the name, and what is left
unfoldable pub span_name : Text → Text × Text
span_name [] = ([], [])
span_name (c ∷ t) =
    let (n, rest) = span_name t in if is_space c || c == b',' then ([], c ∷ t) else (c ∷ n, rest)

-- "%c%.*s:%c": what is appended for a name, with the NUL
abbrev pub header_match : Text → Text
header_match n = (1 + length n) % 256 ∷ (n ++ b':' ∷ 0 ∷ [])

module _ (malloc : ℕ → Option (List ℕ)) where
  -- vsb_newauto and AN. Where the struct gets no memory the result is NULL too.
  abbrev pub new_auto : Checked Vsb
  new_auto = new malloc false true none 0 true >>= λ r. elim r [ none ↦ panic | some s ↦ ok s ]

  -- vsb_printf and vsb_bcat, for what they do to the vsb
  abbrev pub print : Vsb → Text → Checked Vsb
  print s t = printf malloc s t >>= λ r. elim r [ none ↦ panic | some (done, s') ↦ ok s' ]

  abbrev pub cat_bytes : Vsb → Text → Checked Vsb
  cat_bytes s t = bcat malloc s t >>= λ (done, s'). ok s'

  -- The header-matching string of the name `n` is built in `sbh`, and appended to `sb`: the two, and
  -- what vsb_data gives of `sbh`. The assertion leaves a vsb_len that is not -1.
  unfoldable pub put_name : Vsb → Vsb → Text → Checked (Vsb × Vsb × Text)
  put_name sb sbh n = do
    sbh1 ← clear sbh
    sbh2 ← print sbh1 (header_match n)
    sbh3 ← finish sbh2
    assert (not sbh3.overflowed)
    d ← text sbh3
    l ← len sbh3
    elim l [ none ↦ panic | some k ↦ (do sb1 ← cat_bytes sb (take k d); ok (sb1, sbh3, d)) ]

  -- what is appended for the value of a header, or for none
  unfoldable pub put_value : Vsb → Option Text → Checked Vsb
  put_value sb none = print sb (255 ∷ 255 ∷ [])
  put_value sb (some h) = do
    let v = trim h
    assert (leb (length v) 65535)
    sb1 ← print sb (length v / 256 % 256 ∷ length v % 256 ∷ [])
    cat_bytes sb1 v

  -- The loop of VRY_Create over the bytes of the Vary header from `p` on. Each round takes one byte
  -- or more, so that fuel above the length is never used up.
  unfoldable pub create_loop : ℕ → Http → Text → Vsb → Vsb → Checked (Vsb × Vsb)
  unfolding put_name put_value
  create_loop zero req p sb sbh = panic
  create_loop (suc fuel) req [] sb sbh = ok (sb, sbh)
  create_loop (suc fuel) req (c ∷ p) sb sbh = elim (is_space c) [
    | true ↦ create_loop fuel req p sb sbh
    | false ↦
        let (n, q) = span_name (c ∷ p) in
        (do
          r ← put_name sb sbh n
          h ← get_hdr req r.2
          sb1 ← put_value r.0 h
          elim (skip_space q) [
            | [] ↦ ok (sb1, r.1)
            | d ∷ q2 ↦ (do assert (d == b','); create_loop fuel req q2 sb1 r.1)
          ])
  ]

  -- VRY_Create for the request `req` and the response's headers; `h_vary` is H_Vary.
  unfoldable pub create : Text → Http → Http → Checked (Option Vsb)
  unfolding create_loop
  create h_vary req resp = do
    v ← get_hdr resp h_vary
    elim v [
      | none ↦ ok none
      | some p ↦ (do
        sb ← new_auto
        sbh ← new_auto
        r ← create_loop (length p + 1) req p sb sbh
        sb1 ← print r.0 (0 ∷ [])
        _ ← delete r.1
        sb2 ← finish sb1
        assert (not sb2.overflowed)
        ok (some sb2))
    ]

-- !memcmp(s, t, n), reading no further than the shorter list
unfoldable pub eq_text : Text → Text → Bool
eq_text [] [] = true
eq_text [] (d ∷ t) = false
eq_text (c ∷ s) [] = false
eq_text (c ∷ s) (d ∷ t) = (c == d) && eq_text s t

-- The rest of a round of VRY_Match, where http_GetHdr found `h` and `vary` points behind the header:
-- `next` is the loop's next round. A read behind the end of `vary` is a fault.
unfoldable pub check_value : (Text → Checked Bool) → Option Text → Text → Checked Bool
check_value next h vary = do
  assert (leb 2 (length vary))
  let l = get_or vary 0 0 * 256 + get_or vary 1 0
  let contents = drop 2 vary
  elim h [
    | none ↦ if l == 65535 then next contents else ok false
    | some h ↦ if l == 65535 then ok false else if not (length (trim h) == l) then ok false else (do
      assert (leb l (length contents))
      if eq_text (trim h) (take l contents) then next (drop l contents) else ok false)
  ]

-- VRY_Match. Each round takes four bytes or more.
unfoldable pub match_loop : ℕ → Http → Text → Checked Bool
match_loop zero req vary = panic
match_loop (suc fuel) req [] = panic
match_loop (suc fuel) req (c ∷ vary) = if c == 0 then ok true else (do
  h ← get_hdr req (c ∷ vary)
  check_value (match_loop fuel req) h (drop (c + 2) (c ∷ vary)))

unfoldable pub vary_match : Http → Text → Checked Bool
unfolding match_loop
vary_match req vary = match_loop (length vary + 1) req vary
