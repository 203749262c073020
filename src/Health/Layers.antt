-- ===== src/Health/Layers.antt =====
-- A poke passes through the layers of the conversation: no layer is good unless those below it are.
use varnish.Prelude.{ℕ, ◌%◌, ◌≡◌, ◌⊎◌, inl, inr, true, List, ◌&&◌, if◌then◌else◌, arith, Bool-cases}
use varnish.Health.{Target, shift, set_newest}
use varnish.Health.Poke.{
  Talk, Recv, Link, poke, connect, connect_ipv4, connect_ipv6, send, receive_all, judge,
}
use varnish.Health.Window.{start_poke, has_poked, round}

-- A target as a poke of `vt` may leave it: the probe's settings and the verdict are as before, and
-- a bit of a bitmap is only ever set.
pub record Poked (vt t : Target) : Type 0 where
  pub window : t.window ≡ vt.window
  pub threshold : t.threshold ≡ vt.threshold
  pub good : t.good ≡ vt.good
  pub healthy : t.healthy ≡ vt.healthy
  pub happy : (t.happy ≡ vt.happy) ⊎ (t.happy ≡ set_newest vt.happy)

judge-Poked : (vt : Target) → Poked vt (judge vt)
unfolding judge
judge-Poked vt = ground arith

receive_all-Poked : (rounds : List Recv) (vt : Target) → Poked vt (receive_all rounds vt)
unfolding receive_all judge
receive_all-Poked rounds vt = ground arith

send-Poked : (c : Talk) (vt : Target) → Poked vt (send c vt)
unfolding send receive_all judge
send-Poked c vt = ground arith

connect-Poked : (c : Talk) (vt : Target) → Poked vt (connect c vt).target
unfolding connect connect_ipv4 connect_ipv6
connect-Poked c vt = ground arith

connect-happy : (c : Talk) (vt : Target) → (connect c vt).target.happy ≡ vt.happy
unfolding connect connect_ipv4 connect_ipv6
connect-happy c vt = ground arith

talk-Poked :
    (c : Talk) (vt : Target) (k : Link)
    → Poked vt k.target
    → k.target.happy ≡ vt.happy
    → Poked vt (if k.socket && k.in_time then send c k.target else k.target)
talk-Poked c vt k p same = let q = send-Poked c k.target in ground (arith, q, set_newest)

pub poke-Poked : (c : Talk) (vt : Target) → Poked vt (poke c vt)
unfolding poke
poke-Poked c vt = talk-Poked c vt (connect c vt) (connect-Poked c vt) (connect-happy c vt)

-- Each layer of the poke that is recorded last was reached over a good one below it: a happy answer
-- was received whole, what was received or broke off followed a request that was sent, and a
-- request was sent, or broke off, on a connection over IPv4 or IPv6.
pub record IsLayered (t : Target) : Type 0 where
  pub happy : t.happy % 2 ≡ 1 → t.good_recv % 2 ≡ 1
  pub received : t.good_recv % 2 ≡ 1 → t.good_xmit % 2 ≡ 1
  pub broken_receive : t.err_recv % 2 ≡ 1 → (t.good_xmit % 2 ≡ 1) × (t.good_recv % 2 ≡ 0)
  pub sent : t.good_xmit % 2 ≡ 1 → (t.good_ipv4 % 2 ≡ 1) ⊎ (t.good_ipv6 % 2 ≡ 1)
  pub broken_send :
      t.err_xmit % 2 ≡ 1 → ((t.good_ipv4 % 2 ≡ 1) ⊎ (t.good_ipv6 % 2 ≡ 1)) × (t.good_xmit % 2 ≡ 0)

record IsBlank (t : Target) : Type 0 where
  happy : t.happy % 2 ≡ 0
  good_recv : t.good_recv % 2 ≡ 0
  err_recv : t.err_recv % 2 ≡ 0
  good_xmit : t.good_xmit % 2 ≡ 0
  err_xmit : t.err_xmit % 2 ≡ 0

record IsLinked (k : Link) : Type 0 where
  blank : IsBlank k.target
  socket : k.socket ≡ true → (k.target.good_ipv4 % 2 ≡ 1) ⊎ (k.target.good_ipv6 % 2 ≡ 1)

set_newest_odd : (u : ℕ) → set_newest u % 2 ≡ 1
unfolding set_newest
set_newest_odd u = ground arith

shift_even : (u : ℕ) → shift u % 2 ≡ 0
unfolding shift
shift_even u = omega arith

start_poke-IsBlank : (vt : Target) → IsBlank (start_poke vt)
unfolding start_poke
start_poke-IsBlank vt = record {
  happy = shift_even vt.happy;
  good_recv = shift_even vt.good_recv;
  err_recv = shift_even vt.err_recv;
  good_xmit = shift_even vt.good_xmit;
  err_xmit = shift_even vt.err_xmit;
}

connect-IsLinked : (c : Talk) (vt : Target) → IsBlank vt → IsLinked (connect c vt)
unfolding connect connect_ipv4 connect_ipv6 set_newest
connect-IsLinked c vt blank = ground arith

receive_all-IsLayered :
    (rounds : List Recv) (t : Target)
    → IsBlank (record t { good_xmit = 0 })
    → t.good_xmit % 2 ≡ 1
    → (t.good_ipv4 % 2 ≡ 1) ⊎ (t.good_ipv6 % 2 ≡ 1)
    → IsLayered (receive_all rounds t)
unfolding receive_all judge set_newest
receive_all-IsLayered rounds t blank sent linked = ground arith

send-IsLayered :
    (c : Talk) (t : Target)
    → IsBlank t
    → (t.good_ipv4 % 2 ≡ 1) ⊎ (t.good_ipv6 % 2 ≡ 1)
    → IsLayered (send c t)
unfolding send receive_all judge set_newest
send-IsLayered c t blank linked = ground arith

unlinked-IsLayered : (t : Target) → IsBlank t → IsLayered t
unlinked-IsLayered t blank = ground arith

linked-IsLayered :
    (c : Talk) (k : Link)
    → IsLinked k
    → IsLayered (if k.socket && k.in_time then send c k.target else k.target)
linked-IsLayered c k l = elim (Bool-cases (k.socket && k.in_time)) [
  | inl e ↦
      let socket : k.socket ≡ true = ground arith in
      rw (e) (send-IsLayered c k.target l.blank (l.socket socket))
  | inr e ↦ rw (e) (unlinked-IsLayered k.target l.blank)
]

poke-IsLayered : (c : Talk) (vt : Target) → IsBlank vt → IsLayered (poke c vt)
unfolding poke
poke-IsLayered c vt blank = linked-IsLayered c (connect c vt) (connect-IsLinked c vt blank)

-- One round of polling, whatever the network does and whatever the bitmaps were: in the newest bits
-- of the bitmaps a happy answer was received, a receipt or a failure to receive (never both)
-- followed a request that was sent, and a request that was sent or failed (never both) had a
-- connection over IPv4 or over IPv6.
pub round-IsLayered : (c : Talk) (vt : Target) → IsLayered (round c vt)
unfolding round has_poked
round-IsLayered c vt =
    let l = poke-IsLayered c (start_poke vt) (start_poke-IsBlank vt) in
    record {
      happy = l.happy;
      received = l.received;
      broken_receive = l.broken_receive;
      sent = l.sent;
      broken_send = l.broken_send;
    }
