-- ===== src/Ws/Inv.antt =====
-- The invariant of a workspace, what each operation does under it, and that each keeps it.
use varnish.Prelude.{ℕ, ◌+◌, ◌-◌, ◌^◌, ◌≤◌, ◌<◌, ◌≡◌, ◌⊎◌, ◌==◌, if◌then◌else◌, refl, arith}
use varnish.Prelude.Checked.{ok}
use varnish.Ws.{Ws, init, reset, alloc, free, snapshot, reserve, release, release_p}

-- WS_Assert, and that the block lies below 2 ^ 63 and that an `unsigned` can hold its size, as
-- WS_Init is given it. A reservation starts at the free pointer.
pub record IsValid (w : Ws) : Type 0 where
  pub start : 0 < w.s
  pub room : w.s < w.e
  pub low : w.s ≤ w.f
  pub high : w.f ≤ w.e
  pub reserved : (w.r ≡ 0) ⊎ ((w.s < w.r) × (w.f ≤ w.r) × (w.r ≤ w.e))
  pub address : w.e < 2 ^ 63
  pub size : w.e < w.s + 2 ^ 32

pub init-IsValid :
    (space len : ℕ)
    → 0 < space
    → 0 < len
    → len < 2 ^ 32
    → space + len < 2 ^ 63
    → (w : Ws) × (init space len ≡ ok w) × IsValid w × (w.f ≡ space) × (w.e ≡ space + len)
unfolding init
init-IsValid space len a b c d = (
  record { s = space; f = space; r = 0; e = space + len; overflow = 0 },
  ground arith,
  ground arith,
  refl,
  refl,
)

pub alloc_lem :
    (w : Ws) (bytes : ℕ)
    → IsValid w
    → w.r ≡ 0
    → bytes < 2 ^ 32
    → ((w.e < w.f + bytes) × (alloc w bytes ≡ ok (0, record w { overflow = w.overflow + 1 })))
      ⊎ ((w.f + bytes ≤ w.e) × (alloc w bytes ≡ ok (w.f, record w { f = w.f + bytes })))
unfolding alloc
alloc_lem w bytes v h b = ground arith

pub alloc-IsValid :
    {w w' : Ws} {p : ℕ} (bytes : ℕ)
    → bytes < 2 ^ 32
    → IsValid w
    → alloc w bytes ≡ ok (p, w')
    → IsValid w'
unfolding alloc
alloc-IsValid bytes b v h = ground arith

pub free_lem : (w : Ws) → IsValid w → (free w ≡ ok (w.e - w.f))
unfolding free
free_lem w v = ground arith

pub snapshot_lem : (w : Ws) → IsValid w → w.r ≡ 0 → snapshot w ≡ ok w.f
unfolding snapshot
snapshot_lem w v h = ground arith

-- What WS_Reserve returns, on an unreserved workspace.
pub reserve_lem :
    (w : Ws) (bytes : ℕ)
    → IsValid w
    → w.r ≡ 0
    → bytes ≤ w.e - w.f
    → let n = (if bytes == 0 then w.e - w.f else bytes) in
      reserve w bytes ≡ ok (n, record w { r = w.f + n })
unfolding reserve
reserve_lem w bytes v h b = ground arith

pub release_lem :
    (w : Ws) (bytes : ℕ)
    → IsValid w
    → w.f + bytes ≤ w.r
    → release w bytes ≡ ok (record w { f = w.f + bytes; r = 0 })
unfolding release
release_lem w bytes v h = ground arith

pub reset-IsValid : {w w' : Ws} (p : ℕ) → IsValid w → reset w p ≡ ok w' → IsValid w'
unfolding reset
reset-IsValid p v h = ground arith

pub reserve-IsValid :
    {w w' : Ws} {n : ℕ} (bytes : ℕ)
    → bytes < 2 ^ 32
    → IsValid w
    → reserve w bytes ≡ ok (n, w')
    → IsValid w'
unfolding reserve
reserve-IsValid bytes b v h = ground arith

pub release-IsValid :
    {w w' : Ws} (bytes : ℕ) → bytes < 2 ^ 32 → IsValid w → release w bytes ≡ ok w' → IsValid w'
unfolding release
release-IsValid bytes b v h = ground arith

pub release_p-IsValid : {w w' : Ws} (p : ℕ) → IsValid w → release_p w p ≡ ok w' → IsValid w'
unfolding release_p
release_p-IsValid p v h = ground arith
