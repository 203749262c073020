-- ===== src/Ctype.antt =====
-- The C library's character classes in the "C" locale, on a byte. A `char` above 127 is negative
-- where `char` is signed; those bytes belong to no class.
use varnish.Prelude.{ℕ, Bool, leb, ◌==◌, ◌&&◌, ◌||◌}

unfoldable pub is_space : ℕ → Bool
is_space c = c == 32 || (leb 9 c && leb c 13)

unfoldable pub is_digit : ℕ → Bool
is_digit c = leb 48 c && leb c 57

unfoldable pub is_graph : ℕ → Bool
is_graph c = leb 33 c && leb c 126
