-- ===== src/Argv/Escapes.antt =====
-- What ParseArgv's inner loop and BackSlashDecode make of the text that vsb_quote writes.
use varnish.Prelude.{
  ℕ, zero, suc, ◌+◌, ◌-◌, ◌≡◌, ◌<◌, ◌≤◌, inl, inr, refl, sym, Bool, true, false, leb, ◌==◌, ◌&&◌,
  [], ◌∷◌, ◌++◌, length, drop, length-append, arith,
}
use mathlib.Core.List.{append_assoc}
use mathlib.Core.Path.{subst}
use varnish.Prelude.Checked.{ok, ◌>>=◌}
use varnish.Prelude.Tables.{&&-left, &&-right}
use varnish.Http.{Text}
use varnish.Argv.{ends, further, scan_word, decode}
use varnish.Argv.Quote.{Escapes, escape, escape_all, escape-Escapes, is_clear}

pub drop-append : (p q : Text) → drop (length p) (p ++ q) ≡ q
drop-append [] q = refl
drop-append (c ∷ p) q = drop-append p q

scan_word-Escapes :
    (comma : Bool) (n c : ℕ) (e t : Text)
    → Escapes c e
    → scan_word comma true (suc n) (e ++ t) ≡ further (length e) (scan_word comma true n t)
unfolding scan_word
scan_word-Escapes comma n c e t (inl (here, n1, n2)) =
    subst
      (λ e. scan_word comma true (suc n) (e ++ t) ≡ further (length e) (scan_word comma true n t))
      (sym here) (rw (n1, n2, scan_word) refl)
scan_word-Escapes comma n c e t (inr (f, here, run, short)) =
    let z : (suc (length f) == 0) ≡ false = ground arith in
    let fits : leb (suc (length f)) (suc (length (f ++ t))) ≡ true =
      ground (arith, length-append f t) in
    subst
      (λ e. scan_word comma true (suc n) (e ++ t) ≡ further (length e) (scan_word comma true n t))
      (sym here) (rw (run t, scan_word) (rw (◌>>=◌, z) (rw (fits, drop-append f t) refl)))

decode-Escapes :
    (n k c : ℕ) (e t : Text)
    → Escapes c e
    → decode (suc n) (length e + k) (e ++ t) ≡ (decode n k t >>= (λ w. ok (c ∷ w)))
unfolding decode
decode-Escapes n k c e t (inl (here, n1, n2)) =
    let e1 : 1 + k ≡ suc k = omega arith in
    subst (λ e. decode (suc n) (length e + k) (e ++ t) ≡ (decode n k t >>= (λ w. ok (c ∷ w))))
      (sym here) (rw (e1, n1, decode) refl)
decode-Escapes n k c e t (inr (f, here, run, short)) =
    let e1 : suc (length f) + k ≡ suc (length f + k) = omega arith in
    let e2 : suc (length f + k) - suc (length f) ≡ k = omega arith in
    subst (λ e. decode (suc n) (length e + k) (e ++ t) ≡ (decode n k t >>= (λ w. ok (c ∷ w))))
      (sym here) (rw (e1, run t, e2, drop-append f t) refl)

abbrev pub all_clear : Text → Bool
all_clear [] = true
all_clear (c ∷ p) = is_clear c && all_clear p

pub scan_word-escape_all :
    (comma : Bool) (n : ℕ) (p t : Text)
    → all_clear p ≡ true
    → length p < n
    → scan_word comma true n (escape_all p ++ 34 ∷ t) ≡ ok (ends (length (escape_all p)))
unfolding escape_all scan_word
scan_word-escape_all comma zero p t h lt = absurd (omega arith)
scan_word-escape_all comma (suc n) [] t h lt = refl
scan_word-escape_all comma (suc n) (c ∷ p) t h lt =
    let e = escape-Escapes c (&&-left _ _ h) in
    let step = scan_word-Escapes comma n c (escape c) (escape_all p ++ 34 ∷ t) e in
    let rest = scan_word-escape_all comma n p t (&&-right _ _ h) (omega arith) in
    rw
      (
        append_assoc (escape c) (escape_all p) (34 ∷ t),
        step,
        rest,
        length-append (escape c) (escape_all p),
      )
      refl

pub decode-escape_all :
    (n : ℕ) (p t : Text)
    → all_clear p ≡ true
    → length p ≤ n
    → decode n (length (escape_all p)) (escape_all p ++ t) ≡ ok p
unfolding escape_all decode
decode-escape_all zero [] t h le = refl
decode-escape_all (suc n) [] t h le = refl
decode-escape_all zero (c ∷ p) t h le = absurd (omega arith)
decode-escape_all (suc n) (c ∷ p) t h le =
    let e = escape-Escapes c (&&-left _ _ h) in
    let step = decode-Escapes n (length (escape_all p)) c (escape c) (escape_all p ++ t) e in
    let rest = decode-escape_all n p t (&&-right _ _ h) (omega arith) in
    rw
      (
        append_assoc (escape c) (escape_all p) t,
        length-append (escape c) (escape_all p),
        step,
        rest,
      )
      refl
