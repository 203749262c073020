-- ===== src/Health/Reply.antt =====
-- What vbp_poke of bin/varnishd/cache_backend_poll.c judges: the reply, and behind it what the
-- buffer has of the replies before.
use varnish.Prelude.{
  ℕ, zero, suc, ◌+◌, ◌-◌, ◌%◌, ◌^◌, ◌≤◌, ◌<◌, ◌≡◌, refl, ap, sym, ◌∙◌, true, false, List, [], ◌∷◌,
  ◌++◌, ltb, ◌==◌, length, take, drop, set, arith, length-append, append-nil, length-take,
  length-set,
}
use varnish.Vsb.Inv.{take-all}
use native.Mathlib.Nat.{mod-eq_of_lt}
use varnish.Health.{Target}
use varnish.Health.Poke.{Recv, got, whole, receive, receive_all, judge, store, resp_size}
use varnish.Health.Window.{start_poke}

-- a reply in the pieces that the reads give, each of one byte or more
abbrev pub pieces : List (ℕ × List ℕ) → List Recv
pieces [] = []
pieces ((b, t) ∷ ps) = got (b ∷ t) ∷ pieces ps

abbrev pub bytes : List (ℕ × List ℕ) → List ℕ
bytes [] = []
bytes ((b, t) ∷ ps) = (b ∷ t) ++ bytes ps

-- the buffer with `t` at `rlen`
over : List ℕ → ℕ → List ℕ → List ℕ
over buf zero [] = buf
over [] zero (c ∷ t) = c ∷ t
over (b ∷ buf) zero (c ∷ t) = c ∷ over buf zero t
over [] (suc rlen) t = t
over (b ∷ buf) (suc rlen) t = b ∷ over buf rlen t

store-over : (buf : List ℕ) (rlen : ℕ) (t : List ℕ) → store buf rlen t ≡ over buf rlen t
unfolding store over
store-over buf zero [] = refl
store-over [] zero (c ∷ t) =
    let e : 0 + suc (length t) ≡ suc (length t) = omega arith in
    rw e (ap (λ l. c ∷ l) (append-nil t))
store-over (b ∷ buf) zero (c ∷ t) =
    let e : 0 + suc (length t) ≡ suc (0 + length t) = omega arith in
    rw e (ap (λ l. c ∷ l) (store-over buf zero t))
store-over [] (suc rlen) t =
    let e : suc rlen + length t ≡ suc (rlen + length t) = omega arith in rw e (append-nil t)
store-over (b ∷ buf) (suc rlen) t =
    let e : suc rlen + length t ≡ suc (rlen + length t) = omega arith in
    rw e (ap (λ l. b ∷ l) (store-over buf rlen t))

over-over :
    (buf : List ℕ) (rlen : ℕ) (s t : List ℕ)
    → rlen + length s ≤ length buf
    → over (over buf rlen s) (rlen + length s) t ≡ over buf rlen (s ++ t)
unfolding over
over-over buf zero [] t le = refl
over-over [] zero (c ∷ s) t le = absurd (omega arith)
over-over (b ∷ buf) zero (c ∷ s) t le =
    let e : 0 + suc (length s) ≡ suc (0 + length s) = omega arith in
    rw e (ap (λ l. c ∷ l) (over-over buf zero s t (omega arith)))
over-over [] (suc rlen) s t le = absurd (omega arith)
over-over (b ∷ buf) (suc rlen) s t le =
    let e : suc rlen + length s ≡ suc (rlen + length s) = omega arith in
    rw e (ap (λ l. b ∷ l) (over-over buf rlen s t (omega arith)))

length-over :
    (buf : List ℕ) (rlen : ℕ) (t : List ℕ)
    → rlen + length t ≤ length buf
    → length (over buf rlen t) ≡ length buf
unfolding over
length-over buf zero [] le = refl
length-over [] zero (c ∷ t) le = absurd (omega arith)
length-over (b ∷ buf) zero (c ∷ t) le = ap suc (length-over buf zero t (omega arith))
length-over [] (suc rlen) t le = absurd (omega arith)
length-over (b ∷ buf) (suc rlen) t le = ap suc (length-over buf rlen t (omega arith))

over_none : (buf : List ℕ) (rlen : ℕ) → rlen ≤ length buf → over buf rlen [] ≡ buf
unfolding over
over_none buf zero le = refl
over_none [] (suc rlen) le = absurd (omega arith)
over_none (b ∷ buf) (suc rlen) le = ap (λ l. b ∷ l) (over_none buf rlen (omega arith))

receive-pieces :
    (ps : List (ℕ × List ℕ)) (rlen : ℕ) (buf : List ℕ)
    → length buf ≡ resp_size
    → rlen + length (bytes ps) ≤ resp_size
    → receive (pieces ps) rlen buf ≡ (whole (rlen + length (bytes ps)), over buf rlen (bytes ps))
unfolding receive
receive-pieces [] rlen buf len le =
    let e : rlen + 0 ≡ rlen = omega arith in rw (e, over_none buf rlen (omega arith)) refl
receive-pieces ((b, t) ∷ ps) rlen buf len le =
    let sum = length-append (b ∷ t) (bytes ps) in
    let n : ℕ = length (b ∷ t) in
    let fits : rlen + n ≤ length buf = omega arith in
    let room : ltb rlen resp_size ≡ true = ground arith in
    let all : take (resp_size - rlen) (b ∷ t) ≡ b ∷ t =
      take-all (resp_size - rlen) (b ∷ t) (omega arith) in
    let small : (rlen + n) % 2 ^ 32 ≡ rlen + n = mod-eq_of_lt (omega arith) in
    let rest =
      receive-pieces ps (rlen + n) (over buf rlen (b ∷ t)) (length-over buf rlen (b ∷ t) fits ∙ len)
        (omega arith) in
    let total : rlen + n + length (bytes ps) ≡ rlen + length (bytes ((b, t) ∷ ps)) = omega arith in
    rw
      (
        room,
        all,
        small,
        store-over buf rlen (b ∷ t),
        rest,
        total,
        over-over buf rlen (b ∷ t) (bytes ps) fits,
      )
      refl

over_prefix : (k : ℕ) (buf : List ℕ) → over buf 0 (take k buf) ≡ buf
unfolding over
over_prefix zero buf = refl
over_prefix (suc k) [] = refl
over_prefix (suc k) (b ∷ buf) = ap (λ l. b ∷ l) (over_prefix k buf)

over_prefix-set : (k : ℕ) (buf : List ℕ) → 0 < k → over (set buf 0 0) 0 (take k buf) ≡ buf
unfolding over
over_prefix-set zero buf pos = absurd (omega arith)
over_prefix-set (suc k) [] pos = refl
over_prefix-set (suc k) (b ∷ buf) pos = ap (λ l. b ∷ l) (over_prefix k buf)

over_start : (buf t : List ℕ) → over buf 0 t ≡ t ++ drop (length t) buf
unfolding over
over_start buf [] = refl
over_start [] (c ∷ t) = ap (λ l. c ∷ l) (sym (append-nil t))
over_start (b ∷ buf) (c ∷ t) = ap (λ l. c ∷ l) (over_start buf t)

receive_all-over :
    (ps : List (ℕ × List ℕ)) (vt : Target)
    → length vt.resp_buf ≡ resp_size
    → 0 < length (bytes ps)
    → length (bytes ps) ≤ resp_size
    → receive_all (pieces ps) vt ≡ judge (record vt { resp_buf = over vt.resp_buf 0 (bytes ps) })
unfolding receive_all
receive_all-over ps vt len pos le =
    let run = receive-pieces ps 0 vt.resp_buf len (omega arith) in
    let some_bytes : ((0 + length (bytes ps)) == 0) ≡ false = ground arith in
    rw (receive_all, run, some_bytes, run) refl

-- Where a backend sends a reply of 1 to 128 bytes and closes the connection, in whatever pieces the
-- reply arrives, the verdict is on the reply followed by the bytes that the 128 bytes of the buffer
-- had behind it before.
pub receive_all-pieces :
    (ps : List (ℕ × List ℕ)) (vt : Target)
    → length vt.resp_buf ≡ resp_size
    → 0 < length (bytes ps)
    → length (bytes ps) ≤ resp_size
    → receive_all (pieces ps) vt
      ≡ judge (record vt { resp_buf = bytes ps ++ drop (length (bytes ps)) vt.resp_buf })
receive_all-pieces ps vt len pos le =
    receive_all-over ps vt len pos le
    ∙ ap (λ l. judge (record vt { resp_buf = l })) (over_start vt.resp_buf (bytes ps))

-- A backend that sends only the first `k` bytes of what the poke before has left in the buffer, one
-- byte or more, is judged as if it had sent all of it.
pub receive_all_truncated :
    (ps : List (ℕ × List ℕ)) (k : ℕ) (vt : Target)
    → length vt.resp_buf ≡ resp_size
    → 0 < k
    → k ≤ resp_size
    → bytes ps ≡ take k vt.resp_buf
    → receive_all (pieces ps) (start_poke vt)
      ≡ judge (record (start_poke vt) { resp_buf = vt.resp_buf })
unfolding start_poke
receive_all_truncated ps k vt len pos le e =
    let n = length-take k vt.resp_buf in
    let long : length (bytes ps) ≡ k = ap length e ∙ (n ∙ omega arith) in
    receive_all-over ps (start_poke vt) (length-set vt.resp_buf 0 0 ∙ len) (omega arith)
      (omega arith)
    ∙ ap (λ l. judge (record (start_poke vt) { resp_buf = l }))
        (ap (over (set vt.resp_buf 0 0) 0) e ∙ over_prefix-set k vt.resp_buf pos)
