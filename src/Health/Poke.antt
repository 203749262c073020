-- ===== src/Health/Poke.antt =====
-- vbp_poke of bin/varnishd/cache_backend_poll.c: connect, send the request, read the answer, judge it.
use varnish.Prelude.{
  ℕ, ◌+◌, ◌-◌, ◌%◌, ◌^◌, Bool, false, not, Option, none, some, List, [], ◌∷◌, ◌++◌, ltb, ◌==◌, ◌&&◌,
  if◌then◌else◌, length, take, drop, set,
}
use varnish.Health.{Target, set_newest}
use varnish.Health.Scan.{cut, scan_status}

-- an attempt to connect: whether it gave a socket, and whether time is left behind it
pub record Attempt : Type 0 where
  pub connected : Bool
  pub in_time : Bool

-- one round of the loop that receives: the poll timed out, or the read failed or gave bytes (as many as
-- were asked for at most; none at the end)
pub data Recv : Type 0 where
  timed_out : Recv
  failed : Recv
  got : List ℕ → Recv

-- What a poke meets: the parameter prefer_ipv6, the addresses the backend has, the attempts to connect,
-- what write returns (none is -1), and the rounds of the loop that receives.
pub record Talk : Type 0 where
  pub prefer_ipv6 : Bool
  pub ipv6 : Bool
  pub ipv4 : Bool
  pub in_time : Bool
  pub preferred : Attempt
  pub by_ipv4 : Attempt
  pub by_ipv6 : Attempt
  pub written : Option ℕ
  pub rounds : List Recv

-- the socket `s >= 0`, the time `tmo > 0` and the target, while vbp_poke connects
pub record Link : Type 0 where
  pub socket : Bool
  pub in_time : Bool
  pub target : Target

unfoldable pub connect_ipv6 : Attempt → Link → Link
unfolding set_newest
connect_ipv6 a k = record {
  socket = a.connected;
  in_time = a.in_time;
  target =
      if a.connected
      then record k.target { good_ipv6 = set_newest k.target.good_ipv6 }
      else k.target;
}

unfoldable pub connect_ipv4 : Attempt → Link → Link
unfolding set_newest
connect_ipv4 a k = record {
  socket = a.connected;
  in_time = a.in_time;
  target =
      if a.connected
      then record k.target { good_ipv4 = set_newest k.target.good_ipv4 }
      else k.target;
}

unfoldable pub connect : Talk → Target → Link
unfolding connect_ipv6 connect_ipv4
connect c vt =
    let k0 : Link = record { socket = false; in_time = c.in_time; target = vt } in
    let k1 = if c.prefer_ipv6 && c.ipv6 then connect_ipv6 c.preferred k0 else k0 in
    let k2 = if k1.in_time && (not k1.socket && c.ipv4) then connect_ipv4 c.by_ipv4 k1 else k1 in
    if k2.in_time && (not k2.socket && c.ipv6) then connect_ipv6 c.by_ipv6 k2 else k2

-- sizeof vt->resp_buf and sizeof buf
abbrev pub resp_size : ℕ
resp_size = 128

abbrev pub buf_size : ℕ
buf_size = 8192

-- a read to resp_buf + rlen
unfoldable pub store : List ℕ → ℕ → List ℕ → List ℕ
store buf rlen t = take rlen buf ++ (t ++ drop (rlen + length t) buf)

-- how the receiving ends: out of time, with a read error, or at the end with the bytes' number
pub data Received : Type 0 where
  late : Received
  broken : Received
  whole : ℕ → Received

-- The loop that receives. No rounds left is the end of the stream.
unfoldable pub receive : List Recv → ℕ → List ℕ → Received × List ℕ
unfolding store
receive [] rlen buf = (whole rlen, buf)
receive (timed_out ∷ rounds) rlen buf = (late, buf)
receive (failed ∷ rounds) rlen buf = (broken, buf)
receive (got [] ∷ rounds) rlen buf = (whole rlen, buf)
receive (got (b ∷ t) ∷ rounds) rlen buf =
    if ltb rlen resp_size
    then (let t' = take (resp_size - rlen) (b ∷ t) in
        receive rounds ((rlen + length t') % 2 ^ 32) (store buf rlen t'))
    else receive rounds ((rlen + length (take buf_size (b ∷ t))) % 2 ^ 32) buf

-- Do we like the response? The buffer is cut into a string, and then into its first line.
unfoldable pub first_line : List ℕ → List ℕ
unfolding cut
first_line buf = cut b'\n' (cut b'\r' (set buf (resp_size - 1) 0))

unfoldable pub likes : ℕ → Option ℕ → Bool
likes exp_status none = false
likes exp_status (some resp) = resp == exp_status

unfoldable pub judge : Target → Target
unfolding first_line likes set_newest
judge vt =
    let line = first_line vt.resp_buf in
    let vt' = record vt { resp_buf = line; good_recv = set_newest vt.good_recv } in
    if likes vt.exp_status (scan_status line)
    then record vt' { happy = set_newest vt.happy }
    else vt'

unfoldable pub receive_all : List Recv → Target → Target
unfolding receive set_newest
receive_all rounds vt =
    let r = receive rounds 0 vt.resp_buf in
    let vt' = record vt { resp_buf = r.1 } in
    elim r.0 [
      | late ↦ vt'
      | broken ↦ record vt' { err_recv = set_newest vt.err_recv }
      | whole rlen ↦ if rlen == 0 then vt' else judge vt'
    ]

unfoldable pub send : Talk → Target → Target
unfolding set_newest receive_all
send c vt = elim c.written [
  | none ↦ record vt { err_xmit = set_newest vt.err_xmit }
  | some i ↦
      if i == vt.req_len
      then receive_all c.rounds (record vt { good_xmit = set_newest vt.good_xmit })
      else vt
]

unfoldable pub poke : Talk → Target → Target
unfolding connect send
poke c vt = let k = connect c vt in if k.socket && k.in_time then send c k.target else k.target
