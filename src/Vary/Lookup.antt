-- ===== src/Vary/Lookup.antt =====
-- Looking a header up by a matching string: what follows the name in it does not count.
use varnish.Prelude.{
  ℕ, suc, ◌+◌, ◌-◌, ◌%◌, ◌<◌, ◌≡◌, refl, true, none, some, List, [], ◌∷◌, ◌++◌, length, get_or, ltb,
  ◌==◌, arith, lt→ltb,
}
use mathlib.Core.List.{append_assoc}
use varnish.Prelude.Checked.{ok}
use varnish.Http.{Http, Text, Field, eq_ncase, named, find_from, find_hdr, strlen, get_hdr}
use varnish.Vary.{header_match}
use varnish.Vary.Spec.{AllName, found}

eq_ncase-append : (n x t : Text) → eq_ncase (length n) (n ++ x) t ≡ eq_ncase (length n) n t
unfolding eq_ncase
eq_ncase-append [] x t = refl
eq_ncase-append (c ∷ n) x [] = refl
eq_ncase-append (c ∷ n) x (d ∷ t) = rw (eq_ncase-append n x t)

named-append : (n x : Text) (f : Field) → named (length n) (n ++ x) f ≡ named (length n) n f
unfolding named
named-append n x none = refl
named-append n x (some t) = rw (eq_ncase-append n x t)

find_from-append :
    (nhd : ℕ) (n x : Text) (fs : List Field) (u : ℕ)
    → find_from nhd (length n) (n ++ x) fs u ≡ find_from nhd (length n) n fs u
unfolding find_from
find_from-append nhd n x [] u = refl
find_from-append nhd n x (f ∷ fs) u = rw (named-append n x f, find_from-append nhd n x fs (u + 1))

get_or-append : (n : Text) (c : ℕ) (x : Text) → get_or (n ++ c ∷ x) (length n) 0 ≡ c
get_or-append [] c x = refl
get_or-append (b ∷ n) c x = get_or-append n c x

strlen-header_match : (n x : Text) → AllName n → strlen (n ++ (b':' ∷ 0 ∷ x)) ≡ suc (length n)
unfolding strlen
strlen-header_match [] x h = refl
strlen-header_match (c ∷ n) x h = rw (h.1) (omega (arith, strlen-header_match n x h.2))

-- http_GetHdr by the matching string of a name, whatever follows it.
pub get_hdr_lem :
    (req : Http) (n x : Text)
    → length n < 127
    → AllName n
    → get_hdr req (header_match n ++ x) ≡ ok (found req n)
unfolding get_hdr find_hdr
get_hdr_lem req n x h name =
    let first : (1 + length n) % 256 ≡ suc (length n) = omega arith in
    let short : ltb (suc (length n)) 128 ≡ true = lt→ltb _ _ (omega arith) in
    let same_length : (suc (length n) == suc (length n)) ≡ true = ground arith in
    let pred : suc (length n) - 1 ≡ length n = omega arith in
    let plus : length n + 1 ≡ suc (length n) = omega arith in
    rw
      (
        first,
        short,
        append_assoc n (b':' ∷ 0 ∷ []) x,
        strlen-header_match n x name,
        same_length,
        get_or-append n b':' (0 ∷ x),
      )
      (rw (pred, plus, find_from-append))
