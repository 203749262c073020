-- ===== src/Vct/Classes.antt =====
-- The classes of vct.c against the character rules of RFC 2616, section 2.2.
use varnish.Prelude.{ℕ, ◌<◌, ◌≡◌, refl, Bool, true, ◌&&◌, ◌||◌, leb, ◌==◌}
use varnish.Prelude.Tables.{&&-left, &&-right, holds_to, holds_to-lt, ◌<=>◌, <=>_eq}
use varnish.Vct.{is_sp, is_crlf, is_lws, is_ctl, is_alpha, is_sep, is_sepctl}

abbrev between : ℕ → ℕ → ℕ → Bool
between lo hi x = leb lo x && leb x hi

-- SP and HT
abbrev pub rfc_sp : ℕ → Bool
rfc_sp x = x == 32 || x == 9

-- CR and LF
abbrev pub rfc_crlf : ℕ → Bool
rfc_crlf x = x == 13 || x == 10

-- octets 0 to 31, and DEL
abbrev pub rfc_ctl : ℕ → Bool
rfc_ctl x = leb x 31 || x == 127

abbrev pub rfc_alpha : ℕ → Bool
rfc_alpha x = between b'A' b'Z' x || between b'a' b'z' x

-- ( ) < > @ , ; : \ " / [ ] ? = { } SP HT
abbrev pub rfc_sep : ℕ → Bool
rfc_sep x =
    between 40 41 x
    || (x == b'<'
        || (x == b'>'
            || (x == b'@'
                || (x == b','
                    || (x == b';'
                        || (x == b':'
                            || (x == 92
                                || (x == 34
                                    || (x == b'/'
                                        || (x == 91
                                            || (x == 93
                                                || (x == b'?'
                                                    || (x == b'='
                                                        || (x == 123
                                                            || (x == 125 || rfc_sp x)))))))))))))))

agree : ℕ → Bool
agree x =
    (is_sp x <=> rfc_sp x)
    && ((is_crlf x <=> rfc_crlf x)
        && ((is_lws x <=> (rfc_sp x || rfc_crlf x))
            && ((is_ctl x <=> rfc_ctl x)
                && ((is_alpha x <=> rfc_alpha x)
                    && ((is_sep x <=> rfc_sep x) && (is_sepctl x <=> (rfc_sep x || rfc_ctl x)))))))

table : holds_to agree 256 ≡ true
unfolding holds_to agree is_sp is_crlf is_lws is_ctl is_alpha is_sep is_sepctl
table = refl

-- On every byte the classes that vct.h tests are those of RFC 2616: white space is SP and HT, line
-- ends are CR and LF, linear white space is both, control characters are 0 to 31 and DEL, letters
-- are A to Z in both cases, and the separators are the nineteen of the RFC.
pub classes_lem :
    (x : ℕ)
    → x < 256
    → (is_sp x ≡ rfc_sp x)
      × (is_crlf x ≡ rfc_crlf x)
      × (is_lws x ≡ (rfc_sp x || rfc_crlf x))
      × (is_ctl x ≡ rfc_ctl x)
      × (is_alpha x ≡ rfc_alpha x)
      × (is_sep x ≡ rfc_sep x)
      × (is_sepctl x ≡ (rfc_sep x || rfc_ctl x))
unfolding agree
classes_lem x h =
    let t1 = holds_to-lt agree 256 x h table in
    let t2 = &&-right _ _ t1 in
    let t3 = &&-right _ _ t2 in
    let t4 = &&-right _ _ t3 in
    let t5 = &&-right _ _ t4 in
    let t6 = &&-right _ _ t5 in
    (
      <=>_eq _ _ (&&-left _ _ t1),
      <=>_eq _ _ (&&-left _ _ t2),
      <=>_eq _ _ (&&-left _ _ t3),
      <=>_eq _ _ (&&-left _ _ t4),
      <=>_eq _ _ (&&-left _ _ t5),
      <=>_eq _ _ (&&-left _ _ t6),
      <=>_eq _ _ (&&-right _ _ t6),
    )
