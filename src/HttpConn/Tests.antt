-- ===== src/HttpConn/Tests.antt =====
-- Examples for the receipt of a header: G, a line end, an empty line, and an X behind it.
use varnish.Prelude.{◌≡◌, refl, [], ◌∷◌, List, none, some, arith, inr}
use varnish.Prelude.Checked.{ok}
use varnish.Http.{Text}
use varnish.Ws.{Ws, release_p, check, is_sane, reserve}
use varnish.Ws.Inv.{IsValid}
use varnish.HttpConn.{
  HttpConn, rx, more, got, overflow, complete, split_at, header_complete, header_end, skip_white,
  after_newline, skip_cr, init,
}
use varnish.HttpConn.Pieces.{rx_all, rx_all-HasHeader, HasHeader}

abbrev space : Ws
space = record { s = 1000; f = 1000; r = 1100; e = 1200; overflow = 0 }

abbrev conn : HttpConn
conn = record { ws = space; rxbuf = record { b = 1000; bytes = [] }; pipeline = none }

abbrev pieces : List Text
pieces = (b'G' ∷ 13 ∷ []) ∷ (10 ∷ 13 ∷ []) ∷ (10 ∷ b'X' ∷ []) ∷ []

init_test : init (record space { r = 0 }) ≡ ok conn
unfolding init reserve check is_sane
init_test = refl

-- The X waits in the pipeline.
rx_all_test :
    rx_all conn pieces
    ≡ ok (
      got,
      record {
        ws = record space { f = 1006; r = 0 };
        rxbuf = record { b = 1000; bytes = b'G' ∷ 13 ∷ 10 ∷ 13 ∷ 10 ∷ [] };
        pipeline = some (record { b = 1005; bytes = b'X' ∷ [] });
      },
    )
unfolding rx_all rx complete split_at header_complete header_end skip_white after_newline skip_cr
    release_p check is_sane varnish.Ctype.is_space
rx_all_test = refl

-- White space alone is dropped.
rx_test_white : rx conn (10 ∷ 32 ∷ []) ≡ ok (more, conn)
unfolding rx complete split_at header_complete skip_white varnish.Ctype.is_space
rx_test_white = refl

rx_test_overflow :
    rx (record conn { ws = record space { r = 1001 } }) (b'G' ∷ [])
    ≡ ok (overflow, record conn { ws = record space { r = 0 } })
unfolding rx release_p check is_sane
rx_test_overflow = refl

space-IsValid : IsValid space
space-IsValid = record {
  start = omega arith;
  room = omega arith;
  low = omega arith;
  high = omega arith;
  reserved = inr (omega arith, omega arith, omega arith);
  address = omega arith;
  size = omega arith;
}

rx_all-HasHeader_example :
    (htc1 : HttpConn) × (rx_all conn pieces ≡ ok (got, htc1))
    × HasHeader conn.rxbuf.bytes pieces (b'G' ∷ 13 ∷ 10 ∷ 13 ∷ 10 ∷ b'X' ∷ []) 5 htc1
unfolding header_complete header_end skip_white after_newline skip_cr varnish.Ctype.is_space
rx_all-HasHeader_example =
    rx_all-HasHeader conn pieces b'G' (13 ∷ 10 ∷ 13 ∷ 10 ∷ b'X' ∷ []) 5
      (space-IsValid, omega arith, refl, omega arith, refl)
      (omega arith, (omega arith, (omega arith, tt))) refl refl refl refl (omega arith) refl
