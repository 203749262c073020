-- ===== src/Vct.antt =====
-- The character classes of lib/libvarnish/vct.c and include/vct.h.
pub mod Classes
mod Tests
use Prim.Native.Nat.{bit_and}
use varnish.Prelude.{ℕ, List, [], ◌∷◌, Bool, get_or, ◌==◌, not}

-- vct_typtab, sixteen characters to a row; an index that the C table does not name is 0.
unfoldable pub typtab : List ℕ
typtab =
    4 ∷ 4 ∷ 4 ∷ 4 ∷ 4 ∷ 4 ∷ 4 ∷ 4 ∷ 4 ∷ 21 ∷ 6 ∷ 4 ∷ 4 ∷ 6 ∷ 4 ∷ 4 ∷ 4 ∷ 4 ∷ 4 ∷ 4 ∷ 4 ∷ 4 ∷ 4 ∷ 4
    ∷ 4 ∷ 4 ∷ 4 ∷ 4 ∷ 4 ∷ 4 ∷ 4 ∷ 4 ∷ 17 ∷ 0 ∷ 16 ∷ 0 ∷ 0 ∷ 0 ∷ 0 ∷ 0 ∷ 16 ∷ 16 ∷ 0 ∷ 0 ∷ 16 ∷ 256
    ∷ 256 ∷ 16 ∷ 352 ∷ 352 ∷ 352 ∷ 352 ∷ 352 ∷ 352 ∷ 352 ∷ 352 ∷ 352 ∷ 352 ∷ 144 ∷ 16 ∷ 16 ∷ 16 ∷ 16
    ∷ 16 ∷ 16 ∷ 200 ∷ 200 ∷ 200 ∷ 200 ∷ 200 ∷ 200 ∷ 136 ∷ 136 ∷ 136 ∷ 136 ∷ 136 ∷ 136 ∷ 136 ∷ 136
    ∷ 136 ∷ 136 ∷ 136 ∷ 136 ∷ 136 ∷ 136 ∷ 136 ∷ 136 ∷ 136 ∷ 136 ∷ 136 ∷ 136 ∷ 16 ∷ 16 ∷ 16 ∷ 0 ∷ 128
    ∷ 0 ∷ 200 ∷ 200 ∷ 200 ∷ 200 ∷ 200 ∷ 200 ∷ 136 ∷ 136 ∷ 136 ∷ 136 ∷ 136 ∷ 136 ∷ 136 ∷ 136 ∷ 136
    ∷ 136 ∷ 136 ∷ 136 ∷ 136 ∷ 136 ∷ 136 ∷ 136 ∷ 136 ∷ 136 ∷ 136 ∷ 136 ∷ 16 ∷ 0 ∷ 16 ∷ 0 ∷ 4 ∷ 0 ∷ 0
    ∷ 0 ∷ 0 ∷ 0 ∷ 0 ∷ 0 ∷ 0 ∷ 0 ∷ 0 ∷ 0 ∷ 0 ∷ 0 ∷ 0 ∷ 0 ∷ 0 ∷ 0 ∷ 0 ∷ 0 ∷ 0 ∷ 0 ∷ 0 ∷ 0 ∷ 0 ∷ 0 ∷ 0
    ∷ 0 ∷ 0 ∷ 0 ∷ 0 ∷ 0 ∷ 0 ∷ 0 ∷ 0 ∷ 0 ∷ 0 ∷ 0 ∷ 0 ∷ 0 ∷ 0 ∷ 0 ∷ 0 ∷ 0 ∷ 0 ∷ 0 ∷ 0 ∷ 0 ∷ 0 ∷ 0 ∷ 0
    ∷ 0 ∷ 0 ∷ 0 ∷ 0 ∷ 0 ∷ 256 ∷ 0 ∷ 0 ∷ 0 ∷ 0 ∷ 0 ∷ 0 ∷ 0 ∷ 0 ∷ 128 ∷ 128 ∷ 128 ∷ 128 ∷ 128 ∷ 128
    ∷ 128 ∷ 128 ∷ 128 ∷ 128 ∷ 128 ∷ 128 ∷ 128 ∷ 128 ∷ 128 ∷ 128 ∷ 128 ∷ 128 ∷ 128 ∷ 128 ∷ 128 ∷ 128
    ∷ 128 ∷ 0 ∷ 128 ∷ 128 ∷ 128 ∷ 128 ∷ 128 ∷ 128 ∷ 128 ∷ 128 ∷ 128 ∷ 128 ∷ 128 ∷ 128 ∷ 128 ∷ 128
    ∷ 128 ∷ 128 ∷ 128 ∷ 128 ∷ 128 ∷ 128 ∷ 128 ∷ 128 ∷ 128 ∷ 128 ∷ 128 ∷ 128 ∷ 128 ∷ 128 ∷ 128 ∷ 128
    ∷ 128 ∷ 0 ∷ 128 ∷ 128 ∷ 128 ∷ 128 ∷ 128 ∷ 128 ∷ 128 ∷ 128 ∷ []

-- VCT_SP, VCT_CRLF, VCT_CTL, VCT_ALPHA, VCT_SEPARATOR, VCT_DIGIT, VCT_HEX, VCT_XMLNAMESTART and
-- VCT_XMLNAME are 1, 2, 4, 8, 16, 32, 64, 128 and 256.
unfoldable pub vct_is : ℕ → ℕ → Bool
unfolding typtab
vct_is x y = not (bit_and (get_or typtab x 0) y == 0)

unfoldable pub is_sp : ℕ → Bool
unfolding vct_is
is_sp x = vct_is x 1

unfoldable pub is_crlf : ℕ → Bool
unfolding vct_is
is_crlf x = vct_is x 2

unfoldable pub is_lws : ℕ → Bool
unfolding vct_is
is_lws x = vct_is x 3

unfoldable pub is_ctl : ℕ → Bool
unfolding vct_is
is_ctl x = vct_is x 4

unfoldable pub is_alpha : ℕ → Bool
unfolding vct_is
is_alpha x = vct_is x 8

unfoldable pub is_sep : ℕ → Bool
unfolding vct_is
is_sep x = vct_is x 16

unfoldable pub is_sepctl : ℕ → Bool
unfolding vct_is
is_sepctl x = vct_is x 20

unfoldable pub is_xmlnamestart : ℕ → Bool
unfolding vct_is
is_xmlnamestart x = vct_is x 128

unfoldable pub is_xmlname : ℕ → Bool
unfolding vct_is
is_xmlname x = vct_is x 384
