-- ===== src/HttpConn.antt =====
-- Receiving the header of a request or a response: bin/varnishd/cache_httpconn.c. A `txt` is an
-- address and the bytes from there on; memory that nothing else writes to keeps them. What read(2)
-- gives is an argument: its bytes, none of them where it returns 0 or less.
pub mod Prefix
pub mod Steps
pub mod Pieces
mod Tests
use varnish.Prelude.{
  ℕ, zero, suc, ◌+◌, ◌-◌, ◌/◌, Bool, true, false, not, ltb, leb, ◌==◌, ◌&&◌, ◌||◌, if◌then◌else◌,
  Option, none, some, List, [], ◌∷◌, ◌++◌, length, take, drop,
}
use varnish.Prelude.Checked.{Checked, panic, ok, assert, ◌>>=◌, ◌>>◌}
use varnish.Ctype.{is_space}
use varnish.Http.{Text}
use varnish.Ws.{Ws, reserve, release_p, add_ptr, pdiff}

pub record Txt : Type 0 where
  pub b : ℕ
  pub bytes : Text

-- `e` of a txt
abbrev pub end_of : Txt → ℕ
end_of t = add_ptr t.b (length t.bytes)

-- `struct http_conn`, less its file; a pipeline that is NULL is none.
pub record HttpConn : Type 0 where
  pub ws : Ws
  pub rxbuf : Txt
  pub pipeline : Option Txt

-- for (; isspace(*p); p++); a NUL stands at the end.
unfoldable pub skip_white : Text → Text
skip_white [] = []
skip_white (c ∷ p) = let rest = skip_white p in if is_space c then rest else c ∷ p

-- strchr(p, '\n') + 1; a NUL ends the string.
unfoldable pub after_newline : Text → Option Text
after_newline [] = none
after_newline (c ∷ p) =
    let rest = after_newline p in if c == 0 then none else if c == 10 then some p else rest

-- if (*p == '\r') p++;
unfoldable pub skip_cr : Text → Text
skip_cr [] = []
skip_cr (c ∷ p) = if c == 13 then p else c ∷ p

-- The loop of htc_header_complete, and the p++ behind it: a round takes one byte or more.
unfoldable pub header_end : ℕ → Text → Option Text
unfolding after_newline skip_cr
header_end zero p = none
header_end (suc n) p = elim (after_newline p) [
  | none ↦ none
  | some q ↦ elim (skip_cr q) [
    | [] ↦ header_end n []
    | c ∷ r ↦ elim (c == 10) [ true ↦ some r | false ↦ header_end n (c ∷ r) ]
  ]
]

-- htc_header_complete: the length of the header, 0 for none, and the bytes of the txt after it.
unfoldable pub header_complete : Text → ℕ × Text
unfolding skip_white header_end
header_complete t = elim (skip_white t) [
  | [] ↦ (0, [])
  | c ∷ p ↦ elim (c == 0) [
    | true ↦ (0, [])
    | false ↦ elim (header_end (length (c ∷ p)) (c ∷ p)) [
      | none ↦ (0, t)
      | some r ↦ (length t - length r, t)
    ]
  ]
]

-- HTC_Complete after htc_header_complete: `i` bytes of the txt are the header.
unfoldable pub split_at : HttpConn → ℕ → Txt → Checked (Bool × HttpConn)
split_at htc i t = elim (i == 0) [
  | true ↦ ok (false, record htc { rxbuf = t })
  | false ↦ release_p htc.ws (end_of t) >>= (λ ws. ok (
    true,
    if ltb i (length t.bytes)
        then record htc {
          ws = ws;
          rxbuf = record t { bytes = take i t.bytes };
          pipeline = some (record { b = add_ptr t.b i; bytes = drop i t.bytes });
        }
        else record htc { ws = ws; rxbuf = t },
  ))
]

unfoldable pub complete : HttpConn → Checked (Bool × HttpConn)
unfolding header_complete split_at
complete htc =
    let (i, bytes) = header_complete htc.rxbuf.bytes in
    split_at htc i (record htc.rxbuf { bytes = bytes })

unfoldable pub init : Ws → Checked HttpConn
init ws = reserve ws (pdiff ws.s ws.e / 2) >>= (λ (size, ws1).
    ok (record { ws = ws1; rxbuf = record { b = ws1.f; bytes = [] }; pipeline = none }))

abbrev pub bytes_of : Option Txt → Text
bytes_of none = []
bytes_of (some t) = t.bytes

unfoldable pub reinit : HttpConn → Checked (Bool × HttpConn)
unfolding complete
reinit htc = reserve htc.ws (pdiff htc.ws.s htc.ws.e / 2) >>= (λ (size, ws1). complete (record {
  ws = ws1;
  rxbuf = record { b = ws1.f; bytes = bytes_of htc.pipeline };
  pipeline = none;
}))

-- What HTC_Rx returns: -2, -1, 0 and 1.
pub data Rx : Type 0 where
  overflow : Rx
  failed : Rx
  more : Rx
  got : Rx

-- HTC_Rx, where read would give the bytes `input` if there was room for them.
unfoldable pub rx : HttpConn → Text → Checked (Rx × HttpConn)
unfolding complete
rx htc input =
    let room = htc.ws.r - end_of htc.rxbuf - 1 in
    assert (not (htc.ws.r == 0)) >> (elim (room == 0) [
      | true ↦ release_p htc.ws htc.rxbuf.b >>= (λ ws. ok (overflow, record htc { ws = ws }))
      | false ↦ elim (take room input) [
        | [] ↦ release_p htc.ws htc.rxbuf.b >>= (λ ws. ok (failed, record htc { ws = ws }))
        | c ∷ cs ↦
            complete (record htc { rxbuf = record htc.rxbuf { bytes = htc.rxbuf.bytes ++ c ∷ cs } })
            >>= (λ (done, htc1). ok (if done then got else more, htc1))
      ]
    ])

-- The pipeline without its first `l` bytes; NULL when nothing is left.
unfoldable pub advance : ℕ → Option Txt → Option Txt
advance l none = none
advance l (some t) = elim (drop l t.bytes) [
  | [] ↦ none
  | c ∷ cs ↦ some (record { b = add_ptr t.b l; bytes = c ∷ cs })
]

-- HTC_Read of `len` bytes: what stands in the pipeline, then what one read(2) of the rest gives, none
-- where it fails. (The pipelined bytes are gone then too.)
unfoldable pub read : HttpConn → ℕ → Option Text → Option Text × HttpConn
unfolding advance
read htc len input =
    let piped = take len (bytes_of htc.pipeline) in
    let htc1 = record htc { pipeline = advance (length piped) htc.pipeline } in
    if len - length piped == 0
    then (some piped, htc1)
    else (elim input [ none ↦ none | some i ↦ some (piped ++ take (len - length piped) i) ], htc1)
