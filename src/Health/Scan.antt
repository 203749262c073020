-- ===== src/Health/Scan.antt =====
-- What bin/varnishd/cache_backend_poll.c uses of C's string functions: strchr, and sscanf with the
-- format "HTTP/%*f %u %s". The version is digits with at most one point; the other numbers that a %f
-- takes, with an exponent, in hexadecimal, or infinite, are not modelled.
use varnish.Prelude.{
  ℕ, ◌+◌, ◌-◌, ◌*◌, ◌%◌, ◌^◌, Bool, false, Option, none, some, List, [], ◌∷◌, ◌==◌, ◌&&◌,
  if◌then◌else◌, length,
}
use varnish.Prelude.Options.{◌>>=◌}
use varnish.Ctype.{is_space, is_digit}

-- the bytes before the NUL
unfoldable pub c_string : List ℕ → List ℕ
c_string [] = []
c_string (c ∷ s) = if c == 0 then [] else c ∷ c_string s

-- p = strchr(s, c); if (p != NULL) *p = '\0';
unfoldable pub cut : ℕ → List ℕ → List ℕ
cut c [] = []
cut c (d ∷ s) = if d == 0 then d ∷ s else (if d == c then 0 ∷ s else d ∷ cut c s)

unfoldable pub skip_space : List ℕ → List ℕ
skip_space [] = []
skip_space (c ∷ s) = if is_space c then skip_space s else c ∷ s

unfoldable pub literal : List ℕ → List ℕ → Option (List ℕ)
literal [] s = some s
literal (c ∷ w) [] = none
literal (c ∷ w) (d ∷ s) = if c == d then literal w s else none

unfoldable pub skip_digits : List ℕ → List ℕ
skip_digits [] = []
skip_digits (c ∷ s) = if is_digit c then skip_digits s else c ∷ s

unfoldable pub skip_sign : List ℕ → List ℕ
skip_sign [] = []
skip_sign (c ∷ s) = if c == b'+' then s else (if c == b'-' then s else c ∷ s)

unfoldable pub skip_point : List ℕ → List ℕ
skip_point [] = []
skip_point (c ∷ s) = if c == b'.' then s else c ∷ s

-- %*f: there is a digit before the point or behind it.
unfoldable pub scan_version : List ℕ → Option (List ℕ)
unfolding skip_space skip_sign skip_digits skip_point
scan_version s =
    let s1 = skip_sign (skip_space s) in
    let s2 = skip_digits s1 in
    let s3 = skip_point s2 in
    let s4 = skip_digits s3 in
    if (length s1 == length s2) && (length s3 == length s4) then none else some s4

-- the digits of a %u, above the value `acc` read so far
unfoldable pub scan_digits : ℕ → List ℕ → ℕ × List ℕ
scan_digits acc [] = (acc, [])
scan_digits acc (c ∷ s) = if is_digit c then scan_digits (acc * 10 + (c - b'0')) s else (acc, c ∷ s)

-- %u, 32 bits wide; a minus sign negates.
unfoldable pub scan_unsigned : List ℕ → Option (ℕ × List ℕ)
unfolding skip_space skip_sign scan_digits
scan_unsigned s =
    let s0 = skip_space s in
    let s1 = skip_sign s0 in
    let r = scan_digits 0 s1 in
    if length r.1 == length s1
    then none
    else some ((if starts_minus s0 then (2 ^ 32 - r.0 % 2 ^ 32) % 2 ^ 32 else r.0 % 2 ^ 32), r.1)
  where
    starts_minus : List ℕ → Bool
    starts_minus [] = false
    starts_minus (c ∷ t) = c == b'-'

-- the status, when sscanf(s, "HTTP/%*f %u %s", &resp, buf) == 2
unfoldable pub scan_status : List ℕ → Option ℕ
unfolding c_string literal scan_version scan_unsigned skip_space
scan_status buf = do
  let s = c_string buf
  version ← literal (b'H' ∷ b'T' ∷ b'T' ∷ b'P' ∷ b'/' ∷ []) s
  rest ← scan_version version
  (resp, end) ← scan_unsigned rest
  if length (skip_space end) == 0 then none else some resp
