-- ===== src/HttpConn/Steps.antt =====
-- One call of HTC_Rx and HTC_Complete with room in the reservation.
use varnish.Prelude.{
  ℕ, zero, suc, ◌+◌, ◌-◌, ◌^◌, ◌≡◌, ◌<◌, ◌≤◌, inl, inr, refl, sym, ap, ◌∙◌, true, false, ltb, ◌==◌,
  if◌then◌else◌, none, some, [], ◌∷◌, ◌++◌, length, length-append, append-nil, take-append-drop,
  take, drop, arith, Bool-cases, Option-cases,
}
use varnish.Prelude.Checked.{ok, ◌>>=◌}
use varnish.Ctype.{is_space}
use varnish.Http.{Text}
use varnish.Ws.{Ws, release_p, add_ptr}
use varnish.Ws.Inv.{IsValid}
use varnish.HttpConn.{
  HttpConn, end_of, header_end, header_complete, skip_white, split_at, complete, rx, more, got,
  bytes_of,
}
use varnish.HttpConn.Prefix.{complete_none, complete_some}

-- The buffer is the start of the reservation, which has room for `n` bytes of it and a NUL.
abbrev pub IsOpen : HttpConn → ℕ → Type 0
IsOpen htc n =
    IsValid htc.ws
    × (0 < htc.ws.r)
    × (htc.rxbuf.b ≡ htc.ws.f)
    × (htc.rxbuf.b + n < htc.ws.r)
    × (htc.pipeline ≡ none)

pub take_all : (n : ℕ) (p : Text) → length p ≤ n → take n p ≡ p
take_all zero [] h = refl
take_all zero (c ∷ p) h = absurd (omega arith)
take_all (suc n) [] h = refl
take_all (suc n) (c ∷ p) h = ap (λ q. c ∷ q) (take_all n p (omega arith))

reserved_bound : (w : Ws) → IsValid w → 0 < w.r → (w.r < 2 ^ 63) × (w.f ≤ w.r)
reserved_bound w v r = (ground arith, ground arith)

release_run :
    (w : Ws) (p : ℕ)
    → IsValid w
    → 0 < w.r
    → w.f ≤ p
    → p ≤ w.r
    → release_p w p ≡ ok (record w { f = p; r = 0 })
unfolding release_p
release_run w p v r lo hi = ground arith

-- A read that gives a piece
pub rx_piece :
    (htc : HttpConn) (g : Text)
    → IsOpen htc (length (htc.rxbuf.bytes ++ g))
    → 0 < length g
    → rx htc g ≡ (
        complete (record htc { rxbuf = record htc.rxbuf { bytes = htc.rxbuf.bytes ++ g } })
        >>= (λ (done, htc1). ok (if done then got else more, htc1)))
unfolding rx
rx_piece htc [] ready full = absurd (omega arith)
rx_piece htc (c ∷ cs) ready full =
    let len = length-append htc.rxbuf.bytes (c ∷ cs) in
    let v = ready.0 in
    let bound = reserved_bound htc.ws v ready.1 in
    let edge : end_of htc.rxbuf ≡ htc.rxbuf.b + length htc.rxbuf.bytes =
      omega (arith, bound.0, ready.3, len) in
    let room : suc (length cs) ≤ htc.ws.r - end_of htc.rxbuf - 1 =
      omega (arith, edge, ready.3, len) in
    let r1 : (htc.ws.r == 0) ≡ false = ground (arith, ready.1) in
    let r2 : (htc.ws.r - end_of htc.rxbuf - 1 == 0) ≡ false = ground (arith, room) in
    let all = take_all (htc.ws.r - end_of htc.rxbuf - 1) (c ∷ cs) (omega (arith, room)) in
    rw (r1, r2, all) refl

pub nonspace_stays :
    (h : ℕ) (y : Text)
    → is_space h ≡ false
    → (h == 0) ≡ false
    → (i : ℕ) × (header_complete (h ∷ y) ≡ (i, h ∷ y))
unfolding skip_white
nonspace_stays h y s z =
    let w : skip_white (h ∷ y) ≡ h ∷ y = rw (s, skip_white) refl in
    elim (Option-cases (header_end (length (h ∷ y)) (h ∷ y))) [
      | inl e ↦ (0, complete_none (h ∷ y) y h w z e)
      | inr (r, e) ↦ (_, complete_some (h ∷ y) y r h w z e)
    ]

pub starts :
    (t g rest : Text) (h : ℕ) (x : Text)
    → 0 < length g
    → (t ++ g) ++ rest ≡ h ∷ x
    → (y : Text) × (t ++ g ≡ h ∷ y)
starts [] [] rest h x full e = absurd (omega arith)
starts [] (c ∷ g) rest h x full e = (g, ap (λ k. k ∷ g) (ap (λ l. elim l [ [] ↦ h | a ∷ _ ↦ a ]) e))
starts (c ∷ t) g rest h x full e =
    (t ++ g, ap (λ k. k ∷ (t ++ g)) (ap (λ l. elim l [ [] ↦ h | a ∷ _ ↦ a ]) e))

-- HTC_Complete, where no header is there yet, and where one is.
pub complete_more :
    (htc : HttpConn)
    → header_complete htc.rxbuf.bytes ≡ (0, htc.rxbuf.bytes)
    → complete htc ≡ ok (false, htc)
unfolding complete split_at
complete_more htc e = ap (λ p. split_at htc p.0 (record htc.rxbuf { bytes = p.1 })) e

pub complete_got :
    (htc : HttpConn) (n : ℕ)
    → IsOpen htc (length htc.rxbuf.bytes)
    → header_complete htc.rxbuf.bytes ≡ (n, htc.rxbuf.bytes)
    → 0 < n
    → n ≤ length htc.rxbuf.bytes
    → (htc1 : HttpConn) × (complete htc ≡ ok (true, htc1))
      × (htc1.rxbuf.bytes ≡ take n htc.rxbuf.bytes)
      × (htc1.rxbuf.bytes ++ bytes_of htc1.pipeline ≡ htc.rxbuf.bytes)
      × (htc1.ws.r ≡ 0)
unfolding complete split_at
complete_got htc n ready e pos le =
    let bound = reserved_bound htc.ws ready.0 ready.1 in
    let edge : end_of htc.rxbuf ≡ htc.rxbuf.b + length htc.rxbuf.bytes =
      omega (arith, bound.0, ready.3) in
    let rel =
      release_run htc.ws (end_of htc.rxbuf) ready.0 ready.1 (omega (arith, edge, ready.2))
        (omega (arith, edge, ready.3)) in
    let ws : Ws = record htc.ws { f = end_of htc.rxbuf; r = 0 } in
    let z : (n == 0) ≡ false = ground (arith, pos) in
    let first = ap (λ p. split_at htc p.0 (record htc.rxbuf { bytes = p.1 })) e in
    elim (Bool-cases (ltb n (length htc.rxbuf.bytes))) [
      | inl t ↦ (
        record htc {
          ws = ws;
          rxbuf = record htc.rxbuf { bytes = take n htc.rxbuf.bytes };
          pipeline = some (record { b = add_ptr htc.rxbuf.b n; bytes = drop n htc.rxbuf.bytes });
        },
        first ∙ rw (z, split_at) (rw (rel, ◌>>=◌) (rw t refl)),
        refl,
        take-append-drop n htc.rxbuf.bytes,
        refl,
      )
      | inr t ↦ (
        record htc { ws = ws },
        first ∙ rw (z, split_at) (rw (rel, ◌>>=◌) (rw t refl)),
        sym (take_all n htc.rxbuf.bytes (ground (arith, t))),
        ap (λ p. htc.rxbuf.bytes ++ bytes_of p) ready.4 ∙ append-nil htc.rxbuf.bytes,
        refl,
      )
    ]
