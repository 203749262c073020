-- ===== src/Ws/Tests.antt =====
-- Runs of cache_ws.c on a workspace of 16 bytes, and the theorems at them.
use varnish.Prelude.{ℕ, ◌+◌, ◌<◌, ◌≤◌, ◌≡◌, ◌⊎◌, refl, List, [], ◌∷◌, ◌++◌, arith, length}
use varnish.Prelude.Checked.{ok, panic, ◌>>=◌}
use varnish.Ws.{Ws, Memory, init, alloc, reset, snapshot, reserve, release, dup}
use varnish.Ws.Inv.{IsValid, alloc_lem}
use varnish.Ws.Trace.{
  Block, Packed, step, do_alloc, step-IsValid, alloc_all, alloc_all-Packed, release-reserve,
  reset-snapshot,
}
use varnish.Ws.Dup.{Holds, dup_lem}

abbrev fresh : Ws
fresh = record { s = 4096; f = 4096; r = 0; e = 4112; overflow = 0 }

fresh-IsValid : IsValid fresh
fresh-IsValid = ground arith

init-fresh : init 4096 16 ≡ ok fresh
unfolding init
init-fresh = refl

init_empty : init 4096 0 ≡ panic
unfolding init
init_empty = refl

abbrev memory : Memory
memory = λ a. 7

abbrev text : List ℕ
text = b'a' ∷ b'b' ∷ []

alloc-alloc :
    alloc_all (10 ∷ 10 ∷ 6 ∷ []) fresh
    ≡ ok ((4096, 10) ∷ (4106, 6) ∷ [], record fresh { f = 4112; overflow = 1 })
unfolding alloc_all alloc
alloc-alloc = refl

alloc_lem_example :
    ((4112 < 4096 + 20) × (alloc fresh 20 ≡ ok (0, record fresh { overflow = 1 })))
    ⊎ ((4096 + 20 ≤ 4112) × (alloc fresh 20 ≡ ok (4096, record fresh { f = 4116 })))
alloc_lem_example = alloc_lem fresh 20 fresh-IsValid refl (omega arith)

step-IsValid_example : IsValid (record fresh { f = 4100 })
step-IsValid_example =
    step-IsValid (do_alloc 4) (omega arith) fresh-IsValid (unfold step alloc in refl)

alloc_all-Packed_example :
    (bs : List Block) × (w' : Ws) × (alloc_all (10 ∷ 10 ∷ 6 ∷ []) fresh ≡ ok (bs, w'))
    × Packed 4096 bs w'.f
    × IsValid w'
    × (w'.s ≡ 4096)
    × (w'.e ≡ 4112)
    × (w'.r ≡ 0)
alloc_all-Packed_example =
    alloc_all-Packed (10 ∷ 10 ∷ 6 ∷ []) fresh (omega arith) fresh-IsValid refl

release-reserve_example : (reserve fresh 0 >>= λ x. release x.1 5) ≡ ok (record fresh { f = 4101 })
release-reserve_example = release-reserve fresh 0 5 fresh-IsValid refl (omega arith) (omega arith)

reset-snapshot_example :
    (bs : List Block) × (w' : Ws) × (alloc_all (16 ∷ []) fresh ≡ ok (bs, w'))
    × (4096 < 4112 → (snapshot fresh >>= reset w') ≡ ok (record fresh { overflow = w'.overflow }))
    × (◌≡◌ {A = ℕ} 4096 4112 → (snapshot fresh >>= reset w') ≡ panic)
reset-snapshot_example = reset-snapshot (16 ∷ []) fresh (omega arith) fresh-IsValid refl

dup_lem_example :
    ((4112 < 4096 + (length text + 1))
      × (dup fresh memory text ≡ ok (0, record fresh { overflow = 1 }, memory)))
    ⊎ ((4096 + (length text + 1) ≤ 4112)
        × ((m' : Memory) × (dup fresh memory text
              ≡ ok (4096, record fresh { f = 4096 + (length text + 1) }, m'))
            × Holds m' 4096 (text ++ 0 ∷ [])
            × ((a : ℕ) → (a < 4096) ⊎ (4096 + (length text + 1) ≤ a) → m' a ≡ memory a)))
dup_lem_example = dup_lem fresh memory text fresh-IsValid refl (omega arith)
