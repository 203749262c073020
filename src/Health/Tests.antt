-- ===== src/Health/Tests.antt =====
-- Examples for the health of a backend: a window of 8 pokes with a threshold of 3.
use varnish.Prelude.{
  ℕ, ◌≡◌, refl, Bool, true, false, some, List, [], ◌∷◌, ◌++◌, arith, replicate, drop, length,
}
use varnish.Health.{Target, shift, set_newest}
use varnish.Health.Scan.{
  c_string, cut, skip_space, literal, skip_digits, skip_sign, skip_point, scan_version, scan_digits,
  scan_unsigned, scan_status,
}
use varnish.Health.Poke.{
  Talk, Recv, got, timed_out, connect_ipv6, connect_ipv4, connect, store, receive, first_line,
  likes, judge, receive_all, send, poke,
}
use varnish.Health.Window.{
  start_poke, ones, has_poked, set_defaults, pretend, round, rounds, poll_backend,
}
use varnish.Health.Layers.{IsLayered, round-IsLayered}
use varnish.Health.Reply.{pieces, bytes, receive_all-pieces, receive_all_truncated}

-- "HTTP/1.1 200 OK\r\n"
abbrev reply : List ℕ
reply =
    b'H' ∷ b'T' ∷ b'T' ∷ b'P' ∷ b'/' ∷ b'1' ∷ b'.' ∷ b'1' ∷ 32 ∷ b'2' ∷ b'0' ∷ b'0' ∷ 32 ∷ b'O'
    ∷ b'K' ∷ 13 ∷ 10 ∷ []

abbrev target : Target
target = record {
  window = 0;
  threshold = 0;
  initial = 1;
  exp_status = 0;
  req_len = 40;
  resp_buf = replicate 128 0;
  good = 0;
  good_ipv4 = 0;
  good_ipv6 = 0;
  err_xmit = 0;
  good_xmit = 0;
  err_recv = 0;
  good_recv = 0;
  happy = 0;
  healthy = false;
}

abbrev talk : List Recv → Talk
talk rs = record {
  prefer_ipv6 = false;
  ipv6 = false;
  ipv4 = true;
  in_time = true;
  preferred = record { connected = false; in_time = true };
  by_ipv4 = record { connected = true; in_time = true };
  by_ipv6 = record { connected = false; in_time = true };
  written = some 40;
  rounds = rs;
}

scan_test : scan_status reply ≡ some 200
unfolding c_string literal scan_version scan_unsigned skip_space skip_sign skip_digits skip_point
    scan_digits scan_status varnish.Ctype.is_space varnish.Ctype.is_digit
scan_test = refl

abbrev two_good : List Talk
two_good = talk (got reply ∷ []) ∷ talk (timed_out ∷ []) ∷ talk (got reply ∷ []) ∷ []

abbrev state : Target → Bool × ℕ × ℕ
state t = (t.healthy, t.good, t.happy)

poll_test : state (poll_backend two_good target) ≡ (true, 3, 13)
unfolding poll_backend rounds round pretend set_defaults has_poked ones start_poke shift set_newest
    poke send connect connect_ipv4 connect_ipv6 receive_all receive store judge first_line likes cut
    c_string literal scan_version scan_unsigned skip_space skip_sign skip_digits skip_point
    scan_digits scan_status varnish.Ctype.is_space varnish.Ctype.is_digit
poll_test = refl

round-IsLayered_example : IsLayered (round (talk (got reply ∷ [])) target)
round-IsLayered_example = round-IsLayered (talk (got reply ∷ [])) target

abbrev halves : List (ℕ × List ℕ)
halves = (b'H', b'T' ∷ b'T' ∷ []) ∷ (b'P', b'/' ∷ []) ∷ []

abbrev polled : Target
polled = record target { exp_status = 200; resp_buf = reply ++ replicate 111 0 }

receive_all-pieces_example :
    receive_all (pieces halves) polled
    ≡ judge
        (record polled { resp_buf = bytes halves ++ drop (length (bytes halves)) polled.resp_buf })
receive_all-pieces_example = receive_all-pieces halves polled refl (omega arith) (omega arith)

receive_all_truncated_example :
    receive_all (pieces halves) (start_poke polled)
    ≡ judge (record (start_poke polled) { resp_buf = polled.resp_buf })
receive_all_truncated_example =
    receive_all_truncated halves 5 polled refl (omega arith) (omega arith) refl

-- "HTTP/" alone is liked, for what the buffer has behind it.
truncated_test : (receive_all (pieces halves) (start_poke polled)).happy ≡ 1
unfolding start_poke shift set_newest receive_all receive store judge first_line likes cut c_string
    literal scan_version scan_unsigned skip_space skip_sign skip_digits skip_point scan_digits
    scan_status varnish.Ctype.is_space varnish.Ctype.is_digit
truncated_test = refl
