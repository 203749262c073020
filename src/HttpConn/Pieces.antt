-- ===== src/HttpConn/Pieces.antt =====
-- HTC_Rx again and again: the header is the same in whatever pieces it arrives.
use varnish.Prelude.{
  ℕ, zero, suc, ◌≡◌, ◌<◌, ◌≤◌, inl, inr, refl, sym, ap, ◌∙◌, false, ◌==◌, ==_iff, List, [], ◌∷◌,
  ◌++◌, length, length-append, append-nil, take, arith, Bool-cases,
}
use mathlib.Core.List.{append_assoc}
use varnish.Prelude.Checked.{Checked, ok, ◌>>=◌}
use varnish.Ctype.{is_space}
use varnish.Http.{Text}
use varnish.HttpConn.{HttpConn, header_complete, rx, Rx, more, got, overflow, failed, bytes_of}
use varnish.HttpConn.Prefix.{header_complete-append}
use varnish.HttpConn.Steps.{IsOpen, rx_piece, nonspace_stays, starts, complete_more, complete_got}

-- The calls of HTC_Rx that a caller makes until one returns anything but 0.
unfoldable pub rx_all : HttpConn → List Text → Checked (Rx × HttpConn)
unfolding rx
rx_all htc [] = ok (more, htc)
rx_all htc (g ∷ gs) = rx htc g >>= (λ (v, htc1). elim v [
  | more ↦ rx_all htc1 gs
  | got ↦ ok (got, htc1)
  | overflow ↦ ok (overflow, htc1)
  | failed ↦ ok (failed, htc1)
])

abbrev pub join : List Text → Text
join [] = []
join (g ∷ gs) = g ++ join gs

abbrev pub AllFull : List Text → Type 0
AllFull [] = Unit {0}
AllFull (g ∷ gs) = (0 < length g) × AllFull gs

rx_all_more :
    (htc htc1 : HttpConn) (g : Text) (gs : List Text)
    → rx htc g ≡ ok (more, htc1)
    → rx_all htc (g ∷ gs) ≡ rx_all htc1 gs
unfolding rx_all
rx_all_more htc htc1 g gs e = rw (e, rx_all) refl

rx_all_got :
    (htc htc1 : HttpConn) (g : Text) (gs : List Text)
    → rx htc g ≡ ok (got, htc1)
    → rx_all htc (g ∷ gs) ≡ ok (got, htc1)
unfolding rx_all
rx_all_got htc htc1 g gs e = rw (e, rx_all) refl

-- From the bytes `start` the pieces up to that at `j` have been read, the first with which the header
-- was complete. They are the header and the pipeline, one behind the other.
abbrev pub KeepsRead : Text → List Text → HttpConn → Type 0
KeepsRead start gs htc =
    (j : ℕ) × (j < length gs)
    × ((header_complete (start ++ join (take j gs))).0 ≡ 0)
    × (htc.rxbuf.bytes ++ bytes_of htc.pipeline ≡ start ++ join (take (suc j) gs))

-- The connection has the header, which are the first `n` of the bytes `all`; what has been read
-- beyond it stands in the pipeline, and the reservation is over.
abbrev pub HasHeader : Text → List Text → Text → ℕ → HttpConn → Type 0
HasHeader start gs all n htc =
    (htc.rxbuf.bytes ≡ take n all) × KeepsRead start gs htc × (htc.ws.r ≡ 0)

KeepsRead-cons :
    (start g : Text) (gs : List Text) (htc : HttpConn)
    → KeepsRead (start ++ g) gs htc
    → KeepsRead start (g ∷ gs) htc
KeepsRead-cons start g gs htc (j, lt, yet, read) = (
  suc j,
  omega arith,
  ap (λ t. (header_complete t).0) (sym (append_assoc start g (join (take j gs)))) ∙ yet,
  read ∙ append_assoc start g (join (take (suc j) gs)),
)

take-append : (n : ℕ) (p q : Text) → n ≤ length p → take n (p ++ q) ≡ take n p
take-append zero p q le = refl
take-append (suc n) [] q le = absurd (omega arith)
take-append (suc n) (c ∷ p) q le = ap (λ t. c ∷ t) (take-append n p q (omega arith))

-- A header whose first byte is neither white space nor NUL, with whatever stands behind it: in
-- whatever pieces of one byte or more the bytes arrive, as long as the reservation has room for
-- them, HTC_Rx asks for more until it has the header that htc_header_complete finds in the whole. It
-- stops with the first piece that completes the header, and the header and the pipeline behind it
-- are exactly what has been read up to there.
pub rx_all-HasHeader :
    (htc : HttpConn) (gs : List Text) (h : ℕ) (x : Text) (n : ℕ)
    → IsOpen htc (length (h ∷ x))
    → AllFull gs
    → htc.rxbuf.bytes ++ join gs ≡ h ∷ x
    → is_space h ≡ false
    → (h == 0) ≡ false
    → header_complete (h ∷ x) ≡ (n, h ∷ x)
    → 0 < n
    → header_complete htc.rxbuf.bytes ≡ (0, htc.rxbuf.bytes)
    → (htc1 : HttpConn) × (rx_all htc gs ≡ ok (got, htc1))
      × HasHeader htc.rxbuf.bytes gs (h ∷ x) n htc1
unfolding rx_all
rx_all-HasHeader htc [] h x n ready full e s z fin pos yet =
    let same : htc.rxbuf.bytes ≡ h ∷ x = sym (append-nil htc.rxbuf.bytes) ∙ e in
    let zero_n = ap (λ r. r.0) (sym yet ∙ ap header_complete same ∙ fin) in
    absurd (omega (arith, zero_n, pos))
rx_all-HasHeader htc (g ∷ gs) h x n ready full e s z fin pos yet =
    let e1 : (htc.rxbuf.bytes ++ g) ++ join gs ≡ h ∷ x =
      append_assoc htc.rxbuf.bytes g (join gs) ∙ e in
    let (y, start) = starts htc.rxbuf.bytes g (join gs) h x full.0 e1 in
    let (i, found0) = nonspace_stays h y s z in
    let found : header_complete (htc.rxbuf.bytes ++ g) ≡ (i, htc.rxbuf.bytes ++ g) =
      ap header_complete start ∙ found0 ∙ ap (λ p. (i, p)) (sym start) in
    let len = length-append (htc.rxbuf.bytes ++ g) (join gs) in
    let whole : length ((htc.rxbuf.bytes ++ g) ++ join gs) ≡ length (h ∷ x) = ap length e1 in
    let next : HttpConn = record htc {
      rxbuf = record htc.rxbuf { bytes = htc.rxbuf.bytes ++ g };
    } in
    let ready_u : IsOpen htc (length (htc.rxbuf.bytes ++ g)) =
      (ready.0, ready.1, ready.2, omega (arith, ready.3, len, whole), ready.4) in
    let step = rx_piece htc g ready_u full.0 in
    elim (Bool-cases (i == 0)) [
      | inl t ↦
          let i0 : i ≡ 0 = (==_iff i 0).0 t in
          let found1 : header_complete next.rxbuf.bytes ≡ (0, next.rxbuf.bytes) =
            found ∙ ap (λ k. (k, htc.rxbuf.bytes ++ g)) i0 in
          let run : rx htc g ≡ ok (more, next) = step ∙ rw (complete_more next found1) refl in
          let (htc1, runs, has) =
            rx_all-HasHeader next gs h x n (ready.0, ready.1, ready.2, ready.3, ready.4) full.1 e1 s
              z fin pos found1 in
          (
            htc1,
            rx_all_more htc next g gs run ∙ runs,
            (has.0, KeepsRead-cons htc.rxbuf.bytes g gs htc1 has.1, has.2),
          )
      | inr t ↦
          let pos_i : 0 < i = ground arith in
          let (later, same, le) =
            header_complete-append (htc.rxbuf.bytes ++ g) (join gs) i (htc.rxbuf.bytes ++ g) found
              pos_i in
          let i_n : i ≡ n = ap (λ r. r.0) (sym later ∙ ap header_complete e1 ∙ fin) in
          let (htc1, done, taken, kept, free) = complete_got next i ready_u found pos_i le in
          let run : rx htc g ≡ ok (got, htc1) = step ∙ rw done refl in
          (
            htc1,
            rx_all_got htc htc1 g gs run,
            (
              taken
                  ∙ sym (take-append i (htc.rxbuf.bytes ++ g) (join gs) le)
                  ∙ ap (take i) e1
                  ∙ ap (λ k. take k (h ∷ x)) i_n,
              (
                0,
                omega arith,
                ap (λ t. (header_complete t).0) (append-nil htc.rxbuf.bytes) ∙ ap (λ p. p.0) yet,
                kept ∙ ap (λ t. htc.rxbuf.bytes ++ t) (sym (append-nil g)),
              ),
              free,
            ),
          )
    ]
