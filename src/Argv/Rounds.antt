-- ===== src/Argv/Rounds.antt =====
-- One round of ParseArgv: a word without quotes, and a word in quotes.
use varnish.Prelude.{
  ℕ, zero, suc, ◌+◌, ◌≡◌, ◌<◌, ◌≤◌, ◌⊎◌, inl, inr, refl, sym, ap, Bool, true, false, not, ◌==◌,
  ◌&&◌, ◌||◌, [], ◌∷◌, ◌++◌, length, drop, length-append, arith,
}
use mathlib.Core.Path.{subst}
use varnish.Prelude.Checked.{ok, ◌>>=◌}
use varnish.Prelude.Tables.{&&-right}
use varnish.Ctype.{is_graph, is_space}
use varnish.Http.{Text}
use varnish.Argv.{ends, scan_word, decode, back_slash_decode, cons_word, parse_from}
use varnish.Argv.Quote.{escape, escape_all, needs_quote}
use varnish.Argv.Escapes.{all_clear, scan_word-escape_all, decode-escape_all}

-- A word without quotes that holds no backslash.
abbrev pub is_plain : Text → Bool
is_plain [] = true
is_plain (c ∷ w) = is_graph c && (not (c == 92) && (not (c == 34) && is_plain w))

plain_parts :
    (c : ℕ) (w : Text)
    → is_plain (c ∷ w) ≡ true
    → (is_graph c ≡ true)
      × ((c == 92) ≡ false)
      × ((c == 34) ≡ false)
      × (is_space c ≡ false)
      × (is_plain w ≡ true)
unfolding is_graph is_space
plain_parts c w h = (ground arith, ground arith, ground arith, ground arith, ground arith)

-- Where a word may end
abbrev pub IsEnd : Text → Type 0
IsEnd t = (t ≡ []) ⊎ ((t1 : Text) × (t ≡ 32 ∷ t1))

scan_word-is_plain :
    (n : ℕ) (w t : Text)
    → is_plain w ≡ true
    → IsEnd t
    → length w < n
    → scan_word false false n (w ++ t) ≡ ok (ends (length w))
unfolding scan_word is_space
scan_word-is_plain zero w t h e lt = absurd (omega arith)
scan_word-is_plain (suc n) [] t h (inl e) lt =
    subst (λ t. scan_word false false (suc n) t ≡ ok (ends 0)) (sym e) refl
scan_word-is_plain (suc n) [] t h (inr (t1, e)) lt =
    subst (λ t. scan_word false false (suc n) t ≡ ok (ends 0)) (sym e) refl
scan_word-is_plain (suc n) (c ∷ w) t h e lt =
    let (g, p, q, s, more) = plain_parts c w h in
    let rest = scan_word-is_plain n w t more e (omega arith) in
    let e1 : 1 + length w ≡ suc (length w) = omega arith in
    rw (p, scan_word) (rw (s, rest) (ap (λ k. ok (ends k)) e1))

decode-is_plain :
    (n : ℕ) (w t : Text) → is_plain w ≡ true → length w ≤ n → decode n (length w) (w ++ t) ≡ ok w
unfolding decode
decode-is_plain zero [] t h le = refl
decode-is_plain (suc n) [] t h le = refl
decode-is_plain zero (c ∷ w) t h le = absurd (omega arith)
decode-is_plain (suc n) (c ∷ w) t h le =
    let (g, p, q, s, more) = plain_parts c w h in
    let rest = decode-is_plain n w t more (omega arith) in rw (p, rest, decode) refl

pub needs_quote-is_plain : (w : Text) → is_plain w ≡ true → needs_quote w ≡ false
unfolding needs_quote
needs_quote-is_plain [] h = refl
needs_quote-is_plain (c ∷ w) h =
    let (g, p, q, s, more) = plain_parts c w h in
    rw (g, q, needs_quote-is_plain w more, needs_quote) refl

drop_next : (p t : Text) (c : ℕ) → drop (length p + 1) (p ++ c ∷ t) ≡ t
drop_next [] t c = refl
drop_next (d ∷ p) t c =
    let e : suc (length p) + 1 ≡ suc (length p + 1) = omega arith in rw e (drop_next p t c)

drop_end : (p t : Text) → drop (length p + 1) (p ++ t) ≡ drop 1 t
drop_end [] t = refl
drop_end (d ∷ p) t =
    let e : suc (length p) + 1 ≡ suc (length p + 1) = omega arith in rw e (drop_end p t)

escape-some : (c : ℕ) → 0 < length (escape c)
unfolding escape
escape-some c = ground arith

escape-longer : (w : Text) → all_clear w ≡ true → length w ≤ length (escape_all w)
unfolding escape_all
escape-longer [] h = omega arith
escape-longer (c ∷ w) h =
    let one = escape-some c in
    let rest = escape-longer w (&&-right _ _ h) in
    omega (arith, length-append (escape c) (escape_all w))

pub or_left : (a b : Bool) → (a || b) ≡ true → b ≡ false → a ≡ true
or_left true b h e = refl
or_left false b h e = cc

pub rest_shorter : (t : Text) (n : ℕ) → length t < n → length (drop 1 t) < n
rest_shorter [] n h = h
rest_shorter (c ∷ t) n h = omega arith

-- One round of ParseArgv at a quoted word
pub parse_quoted :
    (n : ℕ) (w t : Text)
    → all_clear w ≡ true
    → parse_from false false (suc n) (34 ∷ escape_all w ++ (34 ∷ t))
      ≡ (parse_from false false n t >>= (λ a. ok (cons_word w a)))
unfolding parse_from back_slash_decode is_space
parse_quoted n w t h =
    let long = escape-longer w h in
    let total = length-append (escape_all w) (34 ∷ t) in
    let scan =
      scan_word-escape_all false (length (escape_all w ++ 34 ∷ t) + 1) w t h (omega arith) in
    let dec = decode-escape_all (length (escape_all w)) w (34 ∷ t) h long in
    rw (scan, parse_from) (rw (◌>>=◌, dec, drop_next (escape_all w) t 34) refl)

pub parse_plain :
    (n c : ℕ) (w t : Text)
    → is_plain (c ∷ w) ≡ true
    → IsEnd t
    → parse_from false false (suc n) ((c ∷ w) ++ t)
      ≡ (parse_from false false n (drop 1 t) >>= (λ a. ok (cons_word (c ∷ w) a)))
unfolding parse_from back_slash_decode
parse_plain n c w t h e =
    let (g, p, q, s, more) = plain_parts c w h in
    let total = length-append (c ∷ w) t in
    let scan = scan_word-is_plain (length (c ∷ w ++ t) + 1) (c ∷ w) t h e (omega arith) in
    let dec = decode-is_plain (length (c ∷ w)) (c ∷ w) t h (omega arith) in
    rw (s, q, scan, parse_from) (rw (◌>>=◌, q, dec) (rw (◌>>=◌, q, drop_end (c ∷ w) t) refl))
