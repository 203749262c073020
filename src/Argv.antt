-- ===== src/Argv.antt =====
-- The words of a command line: lib/libvarnish/argv.c, and vsb_quote of lib/libvarnish/vsb.c, which
-- writes a word for it. A string is the list of its bytes before the NUL. A pointer that passes the
-- NUL is a fault, as a failed assertion is. Memory does not run out.
pub mod Quote
pub mod Escapes
pub mod Rounds
pub mod Words
mod Tests
use varnish.Prelude.{
  ℕ, zero, suc, ◌+◌, ◌-◌, ◌*◌, ◌%◌, ◌^◌, Bool, true, false, not, ltb, leb, ◌==◌, ◌&&◌, ◌||◌,
  if◌then◌else◌, Option, none, some, List, [], ◌∷◌, ◌++◌, length, take, drop,
}
use varnish.Prelude.Checked.{Checked, panic, ok, assert, ◌>>=◌, ◌>>◌}
use varnish.Ctype.{is_space}
use varnish.Http.{Text}

-- isdigit(c) && c - '0' <= 7
abbrev pub is_octal : ℕ → Bool
is_octal c = leb b'0' c && leb c b'7'

-- The loop over the octal digits: `r` and `c`.
unfoldable pub octal : ℕ → ℕ → ℕ → Text → ℕ × ℕ
octal zero r c s = (r, c)
octal (suc n) r c [] = (r, c)
octal (suc n) r c (d ∷ s) =
    let rest = octal n (r + 1) ((c * 8 + (d - b'0')) % 256) s in if is_octal d then rest else (r, c)

unfoldable pub hex_digit : ℕ → Option ℕ
hex_digit c =
    if leb b'0' c && leb c b'9'
    then some (c - b'0')
    else if leb b'a' c && leb c b'f'
    then some (c - b'a' + 10)
    else if leb b'A' c && leb c b'F'
    then some (c - b'A' + 10)
    else none

unfoldable pub skip_space : Text → Text
skip_space [] = []
skip_space (c ∷ s) = let rest = skip_space s in if is_space c then rest else c ∷ s

unfoldable pub first_hex : Text → Option ℕ
unfolding hex_digit
first_hex [] = none
first_hex (c ∷ s) = hex_digit c

-- sscanf(s, "%02x", &u): white space, then a sign and a digit or up to two digits; `0x` is none.
unfoldable pub scan_hex : Text → Option ℕ
unfolding hex_digit skip_space first_hex
scan_hex s = elim (skip_space s) [
  | [] ↦ none
  | c ∷ t ↦
      if c == b'-'
      then elim (first_hex t) [ none ↦ none | some d ↦ some ((2 ^ 32 - d) % 2 ^ 32) ]
      else if c == b'+'
      then first_hex t
      else elim (hex_digit c) [
        | none ↦ none
        | some d ↦ elim t [
          | [] ↦ some d
          | c2 ∷ _ ↦
              if c == b'0' && (c2 == b'x' || c2 == b'X')
              then none
              else elim (hex_digit c2) [ none ↦ some d | some e ↦ some (d * 16 + e) ]
        ]
      ]
]

-- BackSlash, on what follows the backslash: how many characters the sequence has, 0 for none, and
-- the character that it stands for.
unfoldable pub backslash : Text → Checked (ℕ × ℕ)
unfolding octal scan_hex
backslash [] = ok (0, 0)
backslash (c ∷ s) =
    if c == b'n'
    then ok (2, 10)
    else if c == b'r'
    then ok (2, 13)
    else if c == b't'
    then ok (2, 9)
    else if c == 34
    then ok (2, 34)
    else if c == 92
    then ok (2, 92)
    else if is_octal c
    then ok (octal 3 1 0 (c ∷ s))
    else if c == b'x'
    then elim (scan_hex s) [ none ↦ ok (0, 0) | some u ↦ assert (ltb u 256) >> ok (4, u) ]
    else ok (0, 0)

-- The loop of BackSlashDecode: `k` characters are left before `e`. A round takes one or more.
unfoldable pub decode : ℕ → ℕ → Text → Checked Text
unfolding backslash
decode zero k s = ok []
decode (suc n) zero s = ok []
decode (suc n) (suc k) [] = panic
decode (suc n) (suc k) (c ∷ s) = elim (c == 92) [
  | false ↦ decode n k s >>= (λ t. ok (c ∷ t))
  | true ↦ backslash s >>= (λ (r, d). decode n (suc k - r) (drop r (c ∷ s)) >>= (λ t. ok (d ∷ t)))
]

unfoldable pub back_slash_decode : Text → ℕ → Checked Text
unfolding decode
back_slash_decode s k = decode k k s

-- How the inner loop of ParseArgv ends: after so many characters, or with an error.
pub data Scan : Type 0 where
  ends : ℕ → Scan
  invalid_backslash : Scan
  missing_quote : Scan

abbrev pub further : ℕ → Checked Scan → Checked Scan
further k m = m >>= (λ e. elim e [
  | ends n ↦ ok (ends (k + n))
  | invalid_backslash ↦ ok invalid_backslash
  | missing_quote ↦ ok missing_quote
])

-- The inner loop of ParseArgv: a round takes one character or more, or is the last.
unfoldable pub scan_word : Bool → Bool → ℕ → Text → Checked Scan
unfolding backslash
scan_word comma quote zero s = panic
scan_word comma quote (suc n) [] = elim quote [ true ↦ ok missing_quote | false ↦ ok (ends 0) ]
scan_word comma quote (suc n) (c ∷ s) = elim (c == 92) [
  | true ↦ backslash s >>= (λ (r, d). elim (r == 0) [
    | true ↦ ok invalid_backslash
    | false ↦
        assert (leb r (length (c ∷ s))) >> further r (scan_word comma quote n (drop r (c ∷ s)))
  ])
  | false ↦ elim (if quote then c == 34 else (is_space c || (comma && c == b','))) [
    | true ↦ ok (ends 0)
    | false ↦ further 1 (scan_word comma quote n s)
  ]
]

-- argv: the error in argv[0], or the words
pub data Argv : Type 0 where
  bad_backslash : Argv
  no_quote : Argv
  words : List Text → Argv

abbrev pub cons_word : Text → Argv → Argv
cons_word w bad_backslash = bad_backslash
cons_word w no_quote = no_quote
cons_word w (words ws) = words (w ∷ ws)

-- The outer loop of ParseArgv: a round takes one character or more, or is the last.
unfoldable pub parse_from : Bool → Bool → ℕ → Text → Checked Argv
unfolding scan_word back_slash_decode
parse_from comment comma zero s = panic
parse_from comment comma (suc n) [] = ok (words [])
parse_from comment comma (suc n) (c ∷ s) = elim (is_space c) [
  | true ↦ parse_from comment comma n s
  | false ↦ elim (comment && c == b'#') [
    | true ↦ ok (words [])
    | false ↦
        let quote = c == 34 in
        let p = if quote then s else c ∷ s in
        scan_word comma quote (length p + 1) p >>= (λ e. elim e [
          | invalid_backslash ↦ ok bad_backslash
          | missing_quote ↦ ok no_quote
          | ends k ↦
              back_slash_decode p k
              >>= (λ w. parse_from comment comma n (drop (k + 1) p) >>= (λ a. ok (cons_word w a)))
        ])
  ]
]

unfoldable pub parse_argv : Bool → Bool → Text → Checked Argv
unfolding parse_from
parse_argv comment comma s = parse_from comment comma (length s + 1) s
