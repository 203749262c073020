-- ===== src/Argv/Tests.antt =====
-- Examples for the words of a command line.
use varnish.Prelude.{◌≡◌, refl, false, [], ◌∷◌, List}
use varnish.Prelude.Checked.{ok, panic}
use varnish.Http.{Text}
use varnish.Argv.{
  parse_argv, parse_from, scan_word, back_slash_decode, decode, backslash, octal, scan_hex,
  hex_digit, skip_space, first_hex, words, bad_backslash,
}
use varnish.Argv.Quote.{quote, needs_quote, escape_all, escape, print_octal}
use varnish.Argv.Words.{line, parse_argv-quote}

-- req.url == "a b"
abbrev ban : List Text
ban = (b'u' ∷ b'r' ∷ b'l' ∷ []) ∷ (b'=' ∷ b'=' ∷ []) ∷ (b'a' ∷ 32 ∷ 92 ∷ 200 ∷ []) ∷ []

parse_argv-quote_example : parse_argv false false (line ban) ≡ ok (words ban)
unfolding needs_quote varnish.Ctype.is_graph
parse_argv-quote_example = parse_argv-quote ban refl

-- \.a is written without quotes, and cannot be read again.
quote_test : parse_argv false false (quote (92 ∷ b'.' ∷ b'a' ∷ [])) ≡ ok bad_backslash
unfolding parse_argv parse_from scan_word back_slash_decode decode backslash octal scan_hex quote
    needs_quote escape_all escape varnish.Ctype.is_graph varnish.Ctype.is_space
quote_test = refl

-- An empty word is written as nothing.
quote_test_empty :
    parse_argv false false (line ((b'a' ∷ []) ∷ [] ∷ [])) ≡ ok (words ((b'a' ∷ []) ∷ []))
unfolding parse_argv parse_from scan_word back_slash_decode decode backslash octal scan_hex quote
    needs_quote escape_all escape varnish.Ctype.is_graph varnish.Ctype.is_space
quote_test_empty = refl

-- The bytes 1 and `7` are written as \17, which is one byte.
quote_test_octal : parse_argv false false (quote (1 ∷ b'7' ∷ [])) ≡ ok (words ((15 ∷ []) ∷ []))
unfolding parse_argv parse_from scan_word back_slash_decode decode backslash octal scan_hex quote
    needs_quote escape_all escape print_octal varnish.Ctype.is_graph varnish.Ctype.is_space
quote_test_octal = refl

-- \x-1 fails the assertion in BackSlash.
backslash_test : backslash (b'x' ∷ b'-' ∷ b'1' ∷ []) ≡ panic
unfolding backslash octal scan_hex hex_digit skip_space first_hex varnish.Ctype.is_space
backslash_test = refl

-- \x4 at the end of a line passes the NUL.
scan_word_test : parse_argv false false (92 ∷ b'x' ∷ b'4' ∷ []) ≡ panic
unfolding parse_argv parse_from scan_word back_slash_decode decode backslash octal scan_hex
    hex_digit skip_space first_hex varnish.Ctype.is_space
scan_word_test = refl
