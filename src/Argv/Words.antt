-- ===== src/Argv/Words.antt =====
-- ParseArgv gives back the words that vsb_quote has written.
use varnish.Prelude.{
  ℕ, zero, suc, ◌+◌, ◌≡◌, ◌<◌, ◌≤◌, inl, inr, refl, sym, ap, ◌∙◌, Bool, true, false, ◌&&◌, ◌||◌,
  List, [], ◌∷◌, ◌++◌, length, drop, length-append, append-nil, arith, Bool-cases,
}
use mathlib.Core.Path.{subst}
use mathlib.Core.List.{append_assoc}
use varnish.Prelude.Checked.{ok, ◌>>=◌}
use varnish.Prelude.Tables.{&&-left, &&-right}
use varnish.Ctype.{is_space}
use varnish.Http.{Text}
use varnish.Argv.{words, cons_word, parse_from, parse_argv}
use varnish.Argv.Quote.{escape_all, quote, needs_quote}
use varnish.Argv.Escapes.{all_clear}
use varnish.Argv.Rounds.{
  is_plain, IsEnd, needs_quote-is_plain, rest_shorter, or_left, parse_quoted, parse_plain,
}

-- A word that vsb_quote writes so that ParseArgv can read it: clear bytes, and either one that
-- makes vsb_quote use quotes, or one character at least and no backslash.
abbrev pub is_quotable : Text → Bool
is_quotable [] = false
is_quotable (c ∷ w) = (all_clear (c ∷ w) && needs_quote (c ∷ w)) || is_plain (c ∷ w)

-- A line of words as BAN_AddTest writes it: one blank between two of them.
abbrev pub line : List Text → Text
line [] = []
line (w ∷ []) = quote w
line (w ∷ v ∷ ws) = quote w ++ 32 ∷ line (v ∷ ws)

abbrev pub all_quotable : List Text → Bool
all_quotable [] = true
all_quotable (w ∷ ws) = is_quotable w && all_quotable ws

parse_nothing : (n : ℕ) → 0 < n → parse_from false false n [] ≡ ok (words [])
unfolding parse_from
parse_nothing zero h = absurd (omega arith)
parse_nothing (suc n) h = refl

-- The blank behind a quoted word takes a round of its own.
parse_blank :
    (n : ℕ) (t : Text)
    → IsEnd t
    → length t < n
    → (m : ℕ) × (length (drop 1 t) < m)
      × (parse_from false false n t ≡ parse_from false false m (drop 1 t))
unfolding parse_from is_space
parse_blank zero t e lt = absurd (omega arith)
parse_blank (suc n) t (inl e) lt = (suc n, rw e (omega arith), rw e refl)
parse_blank (suc n) t (inr (t1, e)) lt =
    let shorter : length t1 < n = omega (arith, ap length e) in
    (
      n,
      subst (λ t. length (drop 1 t) < n) (sym e) shorter,
      subst (λ t. parse_from false false (suc n) t ≡ parse_from false false n (drop 1 t)) (sym e)
          refl,
    )

-- One round of ParseArgv at a word that vsb_quote wrote, and the blank behind it.
parse_word :
    (n : ℕ) (w t : Text)
    → is_quotable w ≡ true
    → IsEnd t
    → length (quote w ++ t) ≤ n
    → (m : ℕ) × (length (drop 1 t) < m)
      × (parse_from false false (suc n) (quote w ++ t)
          ≡ (parse_from false false m (drop 1 t) >>= (λ a. ok (cons_word w a))))
unfolding quote
parse_word n [] t h e le = absurd (ground arith)
parse_word n (c ∷ w) t h e le = elim (Bool-cases (is_plain (c ∷ w))) [
  | inl plain ↦
      let raw = needs_quote-is_plain (c ∷ w) plain in
      let same : quote (c ∷ w) ≡ c ∷ w = rw (raw, quote) refl in
      let len = length-append (c ∷ w) t in
      let le1 : length ((c ∷ w) ++ t) ≤ n = subst (λ q. length (q ++ t) ≤ n) same le in
      let step = parse_plain n c w t plain e in
      (
        n,
        rest_shorter t n (omega (arith, le1, len)),
        subst
            (λ q.
              parse_from false false (suc n) (q ++ t)
              ≡ (parse_from false false n (drop 1 t) >>= (λ a. ok (cons_word (c ∷ w) a))))
            (sym same) step,
      )
  | inr other ↦
      let both : (all_clear (c ∷ w) && needs_quote (c ∷ w)) ≡ true = or_left _ _ h other in
      let clear = &&-left (all_clear (c ∷ w)) (needs_quote (c ∷ w)) both in
      let raw = &&-right (all_clear (c ∷ w)) (needs_quote (c ∷ w)) both in
      let same : quote (c ∷ w) ++ t ≡ 34 ∷ escape_all (c ∷ w) ++ (34 ∷ t) =
        rw (raw, quote) (ap (λ q. 34 ∷ q) (append_assoc (escape_all (c ∷ w)) (34 ∷ []) t)) in
      let le1 : length (34 ∷ escape_all (c ∷ w) ++ (34 ∷ t)) ≤ n =
        subst (λ q. length q ≤ n) same le in
      let len = length-append (escape_all (c ∷ w)) (34 ∷ t) in
      let (m, lt, blank) = parse_blank n t e (omega (arith, le1, len)) in
      let step = parse_quoted n (c ∷ w) t clear in
      (
        m,
        lt,
        ap (λ q. parse_from false false (suc n) q) same
            ∙ step
            ∙ ap (λ p. p >>= (λ a. ok (cons_word (c ∷ w) a))) blank,
      )
]

parse_line :
    (ws : List Text) (n : ℕ)
    → all_quotable ws ≡ true
    → length (line ws) < n
    → parse_from false false n (line ws) ≡ ok (words ws)
parse_line [] n h lt = parse_nothing n (omega arith)
parse_line (w ∷ ws) zero h lt = absurd (omega arith)
parse_line (w ∷ []) (suc n) h lt =
    let nil = append-nil (quote w) in
    let le : length (quote w ++ []) ≤ n = rw nil (omega arith) in
    let (m, pos, run) = parse_word n w [] (&&-left _ _ h) (inl refl) le in
    ap (λ q. parse_from false false (suc n) q) (sym nil)
    ∙ run
    ∙ rw (parse_nothing m (omega arith)) refl
parse_line (w ∷ v ∷ ws) (suc n) h lt =
    let (m, pos, run) =
      parse_word n w (32 ∷ line (v ∷ ws)) (&&-left _ _ h) (inr (_, refl)) (omega arith) in
    let rest = parse_line (v ∷ ws) m (&&-right _ _ h) pos in run ∙ rw rest refl

-- ParseArgv gives back the words of a line that vsb_quote has written, with a blank between two of
-- them, where each word is quotable.
pub parse_argv-quote :
    (ws : List Text) → all_quotable ws ≡ true → parse_argv false false (line ws) ≡ ok (words ws)
unfolding parse_argv
parse_argv-quote ws h = parse_line ws (length (line ws) + 1) h (omega arith)
