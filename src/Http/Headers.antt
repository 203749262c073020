-- ===== src/Http/Headers.antt =====
-- The table of headers of include/http_headers.h: each name with its length before it and the colon
-- behind it, as HTTP_Init makes it, and the operations that suppress the header.
use varnish.Prelude.{ℕ, ◌+◌, List, [], ◌∷◌}

abbrev pub r_pass : ℕ
r_pass = 1

abbrev pub a_pass : ℕ
a_pass = 2

abbrev pub r_pipe : ℕ
r_pipe = 4

abbrev pub r_fetch : ℕ
r_fetch = 8

abbrev pub a_ins : ℕ
a_ins = 16

abbrev pub a_deliver : ℕ
a_deliver = 32

unfoldable pub headers : List (List ℕ × ℕ)
headers =
    (
      11 ∷ b'K' ∷ b'e' ∷ b'e' ∷ b'p' ∷ b'-' ∷ b'A' ∷ b'l' ∷ b'i' ∷ b'v' ∷ b'e' ∷ b':' ∷ [],
      r_pass + a_pass + r_fetch,
    )
    ∷ (7 ∷ b'A' ∷ b'c' ∷ b'c' ∷ b'e' ∷ b'p' ∷ b't' ∷ b':' ∷ [], 0)
    ∷ (
      15 ∷ b'A' ∷ b'c' ∷ b'c' ∷ b'e' ∷ b'p' ∷ b't' ∷ b'-' ∷ b'C' ∷ b'h' ∷ b'a' ∷ b'r' ∷ b's' ∷ b'e'
          ∷ b't' ∷ b':' ∷ [],
      0,
    )
    ∷ (
      16 ∷ b'A' ∷ b'c' ∷ b'c' ∷ b'e' ∷ b'p' ∷ b't' ∷ b'-' ∷ b'E' ∷ b'n' ∷ b'c' ∷ b'o' ∷ b'd' ∷ b'i'
          ∷ b'n' ∷ b'g' ∷ b':' ∷ [],
      0,
    )
    ∷ (
      16 ∷ b'A' ∷ b'c' ∷ b'c' ∷ b'e' ∷ b'p' ∷ b't' ∷ b'-' ∷ b'L' ∷ b'a' ∷ b'n' ∷ b'g' ∷ b'u' ∷ b'a'
          ∷ b'g' ∷ b'e' ∷ b':' ∷ [],
      0,
    )
    ∷ (
      14 ∷ b'A' ∷ b'c' ∷ b'c' ∷ b'e' ∷ b'p' ∷ b't' ∷ b'-' ∷ b'R' ∷ b'a' ∷ b'n' ∷ b'g' ∷ b'e' ∷ b's'
          ∷ b':' ∷ [],
      r_pass + a_pass + r_fetch + a_ins,
    )
    ∷ (4 ∷ b'A' ∷ b'g' ∷ b'e' ∷ b':' ∷ [], a_ins)
    ∷ (6 ∷ b'A' ∷ b'l' ∷ b'l' ∷ b'o' ∷ b'w' ∷ b':' ∷ [], 0)
    ∷ (
      14 ∷ b'A' ∷ b'u' ∷ b't' ∷ b'h' ∷ b'o' ∷ b'r' ∷ b'i' ∷ b'z' ∷ b'a' ∷ b't' ∷ b'i' ∷ b'o' ∷ b'n'
          ∷ b':' ∷ [],
      0,
    )
    ∷ (
      14 ∷ b'C' ∷ b'a' ∷ b'c' ∷ b'h' ∷ b'e' ∷ b'-' ∷ b'C' ∷ b'o' ∷ b'n' ∷ b't' ∷ b'r' ∷ b'o' ∷ b'l'
          ∷ b':' ∷ [],
      r_pass + r_fetch,
    )
    ∷ (
      11 ∷ b'C' ∷ b'o' ∷ b'n' ∷ b'n' ∷ b'e' ∷ b'c' ∷ b't' ∷ b'i' ∷ b'o' ∷ b'n' ∷ b':' ∷ [],
      r_pass + a_pass + r_fetch + a_ins,
    )
    ∷ (
      17 ∷ b'C' ∷ b'o' ∷ b'n' ∷ b't' ∷ b'e' ∷ b'n' ∷ b't' ∷ b'-' ∷ b'E' ∷ b'n' ∷ b'c' ∷ b'o' ∷ b'd'
          ∷ b'i' ∷ b'n' ∷ b'g' ∷ b':' ∷ [],
      0,
    )
    ∷ (
      17 ∷ b'C' ∷ b'o' ∷ b'n' ∷ b't' ∷ b'e' ∷ b'n' ∷ b't' ∷ b'-' ∷ b'L' ∷ b'a' ∷ b'n' ∷ b'g' ∷ b'u'
          ∷ b'g' ∷ b'a' ∷ b'e' ∷ b':' ∷ [],
      0,
    )
    ∷ (
      15 ∷ b'C' ∷ b'o' ∷ b'n' ∷ b't' ∷ b'e' ∷ b'n' ∷ b't' ∷ b'-' ∷ b'L' ∷ b'e' ∷ b'n' ∷ b'g' ∷ b't'
          ∷ b'h' ∷ b':' ∷ [],
      r_fetch + a_ins,
    )
    ∷ (
      17 ∷ b'C' ∷ b'o' ∷ b'n' ∷ b't' ∷ b'e' ∷ b'n' ∷ b't' ∷ b'-' ∷ b'L' ∷ b'o' ∷ b'c' ∷ b'a' ∷ b't'
          ∷ b'i' ∷ b'o' ∷ b'n' ∷ b':' ∷ [],
      0,
    )
    ∷ (
      12 ∷ b'C' ∷ b'o' ∷ b'n' ∷ b't' ∷ b'e' ∷ b'n' ∷ b't' ∷ b'-' ∷ b'M' ∷ b'D' ∷ b'5' ∷ b':' ∷ [],
      0,
    )
    ∷ (
      14 ∷ b'C' ∷ b'o' ∷ b'n' ∷ b't' ∷ b'e' ∷ b'n' ∷ b't' ∷ b'-' ∷ b'R' ∷ b'a' ∷ b'n' ∷ b'g' ∷ b'e'
          ∷ b':' ∷ [],
      r_pass + a_pass + r_fetch + a_ins,
    )
    ∷ (
      13 ∷ b'C' ∷ b'o' ∷ b'n' ∷ b't' ∷ b'e' ∷ b'n' ∷ b't' ∷ b'-' ∷ b'T' ∷ b'y' ∷ b'p' ∷ b'e' ∷ b':'
          ∷ [],
      0,
    )
    ∷ (5 ∷ b'D' ∷ b'a' ∷ b't' ∷ b'e' ∷ b':' ∷ [], a_deliver)
    ∷ (5 ∷ b'E' ∷ b'T' ∷ b'a' ∷ b'g' ∷ b':' ∷ [], 0)
    ∷ (7 ∷ b'E' ∷ b'x' ∷ b'p' ∷ b'e' ∷ b'c' ∷ b't' ∷ b':' ∷ [], 0)
    ∷ (8 ∷ b'E' ∷ b'x' ∷ b'p' ∷ b'i' ∷ b'r' ∷ b'e' ∷ b's' ∷ b':' ∷ [], 0)
    ∷ (5 ∷ b'F' ∷ b'r' ∷ b'o' ∷ b'm' ∷ b':' ∷ [], 0)
    ∷ (5 ∷ b'H' ∷ b'o' ∷ b's' ∷ b't' ∷ b':' ∷ [], 0)
    ∷ (9 ∷ b'I' ∷ b'f' ∷ b'-' ∷ b'M' ∷ b'a' ∷ b't' ∷ b'c' ∷ b'h' ∷ b':' ∷ [], r_fetch)
    ∷ (
      18 ∷ b'I' ∷ b'f' ∷ b'-' ∷ b'M' ∷ b'o' ∷ b'd' ∷ b'i' ∷ b'f' ∷ b'i' ∷ b'e' ∷ b'd' ∷ b'-' ∷ b'S'
          ∷ b'i' ∷ b'n' ∷ b'c' ∷ b'e' ∷ b':' ∷ [],
      r_fetch,
    )
    ∷ (
      14 ∷ b'I' ∷ b'f' ∷ b'-' ∷ b'N' ∷ b'o' ∷ b'n' ∷ b'e' ∷ b'-' ∷ b'M' ∷ b'a' ∷ b't' ∷ b'c' ∷ b'h'
          ∷ b':' ∷ [],
      r_fetch,
    )
    ∷ (9 ∷ b'I' ∷ b'f' ∷ b'-' ∷ b'R' ∷ b'a' ∷ b'n' ∷ b'g' ∷ b'e' ∷ b':' ∷ [], r_fetch)
    ∷ (
      20 ∷ b'I' ∷ b'f' ∷ b'-' ∷ b'U' ∷ b'n' ∷ b'm' ∷ b'o' ∷ b'd' ∷ b'i' ∷ b'f' ∷ b'i' ∷ b'e' ∷ b'd'
          ∷ b'-' ∷ b'S' ∷ b'i' ∷ b'n' ∷ b'c' ∷ b'e' ∷ b':' ∷ [],
      r_fetch,
    )
    ∷ (
      14 ∷ b'L' ∷ b'a' ∷ b's' ∷ b't' ∷ b'-' ∷ b'M' ∷ b'o' ∷ b'd' ∷ b'i' ∷ b'f' ∷ b'i' ∷ b'e' ∷ b'd'
          ∷ b':' ∷ [],
      0,
    )
    ∷ (9 ∷ b'L' ∷ b'o' ∷ b'c' ∷ b'a' ∷ b't' ∷ b'i' ∷ b'o' ∷ b'n' ∷ b':' ∷ [], 0)
    ∷ (
      13 ∷ b'M' ∷ b'a' ∷ b'x' ∷ b'-' ∷ b'F' ∷ b'o' ∷ b'r' ∷ b'w' ∷ b'a' ∷ b'r' ∷ b'd' ∷ b's' ∷ b':'
          ∷ [],
      0,
    )
    ∷ (7 ∷ b'P' ∷ b'r' ∷ b'a' ∷ b'g' ∷ b'm' ∷ b'a' ∷ b':' ∷ [], 0)
    ∷ (
      19 ∷ b'P' ∷ b'r' ∷ b'o' ∷ b'x' ∷ b'y' ∷ b'-' ∷ b'A' ∷ b'u' ∷ b't' ∷ b'h' ∷ b'e' ∷ b'n' ∷ b't'
          ∷ b'i' ∷ b'c' ∷ b'a' ∷ b't' ∷ b'e' ∷ b':' ∷ [],
      r_fetch + a_ins,
    )
    ∷ (
      20 ∷ b'P' ∷ b'r' ∷ b'o' ∷ b'x' ∷ b'y' ∷ b'-' ∷ b'A' ∷ b'u' ∷ b't' ∷ b'h' ∷ b'o' ∷ b'r' ∷ b'i'
          ∷ b'z' ∷ b'a' ∷ b't' ∷ b'i' ∷ b'o' ∷ b'n' ∷ b':' ∷ [],
      r_fetch + a_ins,
    )
    ∷ (6 ∷ b'R' ∷ b'a' ∷ b'n' ∷ b'g' ∷ b'e' ∷ b':' ∷ [], r_fetch + a_ins)
    ∷ (8 ∷ b'R' ∷ b'e' ∷ b'f' ∷ b'e' ∷ b'r' ∷ b'e' ∷ b'r' ∷ b':' ∷ [], 0)
    ∷ (
      12 ∷ b'R' ∷ b'e' ∷ b't' ∷ b'r' ∷ b'y' ∷ b'-' ∷ b'A' ∷ b'f' ∷ b't' ∷ b'e' ∷ b'r' ∷ b':' ∷ [],
      0,
    )
    ∷ (7 ∷ b'S' ∷ b'e' ∷ b'r' ∷ b'v' ∷ b'e' ∷ b'r' ∷ b':' ∷ [], 0)
    ∷ (3 ∷ b'T' ∷ b'E' ∷ b':' ∷ [], r_pass + a_pass + r_fetch + a_ins)
    ∷ (
      8 ∷ b'T' ∷ b'r' ∷ b'a' ∷ b'i' ∷ b'l' ∷ b'e' ∷ b'r' ∷ b':' ∷ [],
      r_pass + a_pass + r_fetch + a_ins,
    )
    ∷ (
      18 ∷ b'T' ∷ b'r' ∷ b'a' ∷ b'n' ∷ b's' ∷ b'f' ∷ b'e' ∷ b'r' ∷ b'-' ∷ b'E' ∷ b'n' ∷ b'c' ∷ b'o'
          ∷ b'd' ∷ b'i' ∷ b'n' ∷ b'g' ∷ b':' ∷ [],
      r_pass + a_pass + r_fetch + a_ins,
    )
    ∷ (
      8 ∷ b'U' ∷ b'p' ∷ b'g' ∷ b'r' ∷ b'a' ∷ b'd' ∷ b'e' ∷ b':' ∷ [],
      r_pass + a_pass + r_fetch + a_ins,
    )
    ∷ (11 ∷ b'U' ∷ b's' ∷ b'e' ∷ b'r' ∷ b'-' ∷ b'A' ∷ b'g' ∷ b'e' ∷ b'n' ∷ b't' ∷ b':' ∷ [], 0)
    ∷ (5 ∷ b'V' ∷ b'a' ∷ b'r' ∷ b'y' ∷ b':' ∷ [], 0)
    ∷ (4 ∷ b'V' ∷ b'i' ∷ b'a' ∷ b':' ∷ [], 0)
    ∷ (8 ∷ b'W' ∷ b'a' ∷ b'r' ∷ b'n' ∷ b'i' ∷ b'n' ∷ b'g' ∷ b':' ∷ [], 0)
    ∷ (
      17 ∷ b'W' ∷ b'W' ∷ b'W' ∷ b'-' ∷ b'A' ∷ b'u' ∷ b't' ∷ b'h' ∷ b'e' ∷ b'n' ∷ b't' ∷ b'i' ∷ b'c'
          ∷ b'a' ∷ b't' ∷ b'e' ∷ b':' ∷ [],
      0,
    )
    ∷ []
