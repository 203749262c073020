-- ===== src/Ws/Trace.antt =====
-- Sequences of calls of cache_ws.c on one workspace.
use varnish.Prelude.{
  ℕ, ◌+◌, ◌-◌, ◌%◌, ◌^◌, ◌≤◌, ◌++◌, length, take, ◌<◌, ◌≡◌, inl, inr, refl, List, [], ◌∷◌, arith,
  ◌==◌, if◌then◌else◌,
}
use varnish.Prelude.Checked.{Checked, ok, panic, ◌>>=◌}
use mathlib.Core.Path.{subst}
use varnish.Ws.{
  Ws, Memory, copy_to, init, dup, free, reset, alloc, snapshot, reserve, release, release_p,
}
use varnish.Ws.Inv.{
  IsValid, alloc_lem, reserve_lem, release_lem, snapshot_lem, alloc-IsValid, reset-IsValid,
  reserve-IsValid, release-IsValid, release_p-IsValid,
}

-- A call that a client can make, with its arguments.
pub data Op : Type 0 where
  do_init : ℕ → ℕ → Op
  do_reset do_alloc do_reserve do_release do_release_p : ℕ → Op
  do_dup : Memory → List ℕ → Op
  do_free do_snapshot : Op

abbrev pub state {ℓ} : {A : Type ℓ} → Checked (A × Ws) → Checked Ws
state m = m >>= λ x. ok x.1

-- WS_Init ignores what the workspace was; WS_Free and WS_Snapshot leave it.
unfoldable pub step : Op → Ws → Checked Ws
step (do_init space len) w = init space len
step (do_dup m t) w = dup w m t >>= λ x. ok x.1
step do_free w = free w >>= λ _. ok w
step do_snapshot w = snapshot w >>= λ _. ok w
step (do_reset p) w = reset w p
step (do_alloc n) w = state (alloc w n)
step (do_reserve n) w = state (reserve w n)
step (do_release n) w = release w n
step (do_release_p p) w = release_p w p

-- The `unsigned` argument of a call fits 32 bits, and the block given to WS_Init lies below 2 ^ 63.
abbrev pub InRange : Op → Type 0
InRange (do_init space len) = (len < 2 ^ 32) × (space + len < 2 ^ 63)
InRange (do_dup m t) = Unit
InRange do_free = Unit
InRange do_snapshot = Unit
InRange (do_reset p) = Unit
InRange (do_alloc n) = n < 2 ^ 32
InRange (do_reserve n) = n < 2 ^ 32
InRange (do_release n) = n < 2 ^ 32
InRange (do_release_p p) = Unit

state-eq-ok {ℓ} :
    {A : Type ℓ} (m : Checked (A × Ws)) {w : Ws} → state m ≡ ok w → (a : A) × (m ≡ ok (a, w))
state-eq-ok (ok (a, w')) h = (a, ground arith)
state-eq-ok panic h = cc

kept-eq-ok : {A : Type 0} (m : Checked A) {w w' : Ws} → (m >>= λ _. ok w) ≡ ok w' → w ≡ w'
kept-eq-ok (ok a) h = ground arith
kept-eq-ok panic h = cc

dup-IsValid :
    (m : Memory) (t : List ℕ) {w w' : Ws}
    → IsValid w
    → (dup w m t >>= λ x. ok x.1) ≡ ok w'
    → IsValid w'
unfolding dup
dup-IsValid m t {w} {w'} v h =
    go (alloc w ((length t + 1) % 2 ^ 32)) (λ p u e. alloc-IsValid _ (omega arith) v e) h
  where
    go :
        (r : Checked (ℕ × Ws))
        → ((p : ℕ) (u : Ws) → r ≡ ok (p, u) → IsValid u)
        → (◌>>=◌ {A = ℕ × Ws × Memory}
            (r >>= λ (p, u). ok (
              p,
              u,
              if p == 0 then m else copy_to m p (take ((length t + 1) % 2 ^ 32) (t ++ 0 ∷ [])),
            ))
            (λ x. ok x.1))
          ≡ ok w'
        → IsValid w'
    go (ok (p, u)) valid e = let same : u ≡ w' = ground arith in subst IsValid same (valid p u refl)
    go panic valid e = absurd cc

made-IsValid :
    (space len : ℕ) {w' : Ws}
    → (len < 2 ^ 32) × (space + len < 2 ^ 63)
    → init space len ≡ ok w'
    → IsValid w'
unfolding init
made-IsValid space len b h = ground arith

-- From a valid workspace every call of WS_Init (anew, with a block that lies below 2 ^ 63), WS_Reset,
-- WS_Alloc, WS_Dup, WS_Free, WS_Snapshot, WS_Reserve, WS_Release or WS_ReleaseP that does not fail an
-- assertion leaves a valid workspace, whatever its other arguments are.
pub step-IsValid : (op : Op) {w w' : Ws} → InRange op → IsValid w → step op w ≡ ok w' → IsValid w'
unfolding step
step-IsValid (do_init space len) b v h = made-IsValid space len b h
step-IsValid (do_dup m t) b v h = dup-IsValid m t v h
step-IsValid do_free b v h = subst IsValid (kept-eq-ok (free _) h) v
step-IsValid do_snapshot b v h = subst IsValid (kept-eq-ok (snapshot _) h) v
step-IsValid (do_reset p) b v h = reset-IsValid p v h
step-IsValid (do_alloc n) b v h = let (a, e) = state-eq-ok (alloc _ n) h in alloc-IsValid n b v e
step-IsValid (do_reserve n) b v h =
    let (a, e) = state-eq-ok (reserve _ n) h in reserve-IsValid n b v e
step-IsValid (do_release n) b v h = release-IsValid n b v h
step-IsValid (do_release_p p) b v h = release_p-IsValid p v h

-- A block that was handed out: its address and its size.
abbrev pub Block : Type 0
Block = ℕ × ℕ

-- WS_Alloc for each of the sizes in turn; the blocks are those that were not refused.
unfoldable pub alloc_all : List ℕ → Ws → Checked (List Block × Ws)
alloc_all [] w = ok ([], w)
alloc_all (n ∷ ns) w = alloc w n >>= λ (p, w').
    alloc_all ns w' >>= λ (bs, w2). ok (if p == 0 then bs else (p, n) ∷ bs, w2)

-- The blocks lie one behind the other, from `from` to `to`.
abbrev pub Packed : ℕ → List Block → ℕ → Type 0
Packed from [] to = from ≡ to
Packed from ((p, n) ∷ bs) to = (p ≡ from) × Packed (p + n) bs to

abbrev pub AllInRange : List ℕ → Type 0
AllInRange [] = Unit
AllInRange (n ∷ ns) = (n < 2 ^ 32) × AllInRange ns

-- WS_Alloc for any sizes, on a valid workspace with no reservation: no assertion fails, the blocks
-- that are granted lie one behind the other without a gap or an overlap, the first at the old free
-- pointer and the last up to the new one, the new free pointer is still within the workspace, and
-- nothing but the free pointer and the overflow counter has changed.
pub alloc_all-Packed :
    (ns : List ℕ) (w : Ws)
    → AllInRange ns
    → IsValid w
    → w.r ≡ 0
    → (bs : List Block) × (w' : Ws) × (alloc_all ns w ≡ ok (bs, w'))
      × Packed w.f bs w'.f
      × IsValid w'
      × (w'.s ≡ w.s)
      × (w'.e ≡ w.e)
      × (w'.r ≡ 0)
unfolding alloc_all
alloc_all-Packed [] w b v h = ([], w, refl, refl, v, refl, refl, h)
alloc_all-Packed (n ∷ ns) w b v h = elim (alloc_lem w n v h b.0) [
  | inl (full, e) ↦
      let w1 : Ws = record w { overflow = w.overflow + 1 } in
      let (bs, w2, run, packed, valid, es, ee, er) =
        alloc_all-Packed ns w1 b.1 (alloc-IsValid n b.0 v e) h in
      (bs, w2, rw (e, run), packed, valid, es, ee, er)
  | inr (fits, e) ↦
      let w1 : Ws = record w { f = w.f + n } in
      let (bs, w2, run, packed, valid, es, ee, er) =
        alloc_all-Packed ns w1 b.1 (alloc-IsValid n b.0 v e) h in
      ((w.f, n) ∷ bs, w2, rw (e, run) (ground arith), (refl, packed), valid, es, ee, er)
]

-- WS_Reserve of `n` bytes (or, of 0, of all that is left), then WS_Release of the first `k` of
-- them, on a valid workspace with no reservation: no assertion fails, the free pointer has moved by
-- exactly `k` and nothing else has changed.
pub release-reserve :
    (w : Ws) (n k : ℕ)
    → IsValid w
    → w.r ≡ 0
    → n ≤ w.e - w.f
    → k ≤ (if n == 0 then w.e - w.f else n)
    → (reserve w n >>= λ x. release x.1 k) ≡ ok (record w { f = w.f + k; r = 0 })
release-reserve w n k v h fits part = rw (reserve_lem w n v h fits) (
    release_lem (record w { r = w.f + (if n == 0 then w.e - w.f else n) }) k (ground arith)
      (ground arith))

reset_lem :
    (w : Ws) (p : ℕ) → IsValid w → w.r ≡ 0 → w.s ≤ p → p < w.e → reset w p ≡ ok (record w { f = p })
unfolding reset
reset_lem w p v h low high = ground arith

reset_at_end : (w : Ws) (p : ℕ) → IsValid w → w.r ≡ 0 → p ≡ w.e → reset w p ≡ panic
unfolding reset
reset_at_end w p v h at = ground arith

-- WS_Snapshot of a valid workspace with no reservation, any allocations, then WS_Reset to the
-- snapshot. If the workspace had room left when the snapshot was taken, the free pointer is back
-- where it was and the block is the same; if it was full, WS_Reset fails its assertion.
pub reset-snapshot :
    (ns : List ℕ) (w : Ws)
    → AllInRange ns
    → IsValid w
    → w.r ≡ 0
    → (bs : List Block) × (w' : Ws) × (alloc_all ns w ≡ ok (bs, w'))
      × (w.f < w.e → (snapshot w >>= reset w') ≡ ok (record w { overflow = w'.overflow }))
      × (w.f ≡ w.e → (snapshot w >>= reset w') ≡ panic)
reset-snapshot ns w b v h =
    let (bs, w', run, packed, valid, es, ee, er) = alloc_all-Packed ns w b v h in
    (
      bs,
      w',
      run,
      (λ lt.
          rw (snapshot_lem w v h, reset_lem w' w.f valid er (omega arith) (omega arith))
            (ground arith)),
      (λ eq. rw (snapshot_lem w v h) (reset_at_end w' w.f valid er (omega arith))),
    )
