-- ===== src/Critbit.antt =====
-- The critical-bit tree of bin/varnishd/hash_critbit.c, which finds the objhead of a digest. An
-- objhead is a number, the place it has in memory; `digest` and `refcnt` are those fields of every
-- objhead. A `uintptr_t` that points to an objhead or to a `struct hcb_y`, told apart by its low
-- bits, is a tree with two constructors, and the y of an objhead (`oh->u`) carries that objhead as
-- its `owner`. `DIGEST_LEN` is 32.
pub mod Bits
pub mod Crit
pub mod Inv
pub mod Branch
pub mod Insert
pub mod Delete
pub mod Table
pub mod Hash
pub mod Refs
pub mod Lookup
pub mod Cleaner
mod Tests
use Prim.Native.Nat.{bit_and, bit_xor}
use varnish.Prelude.{
  ℕ, zero, suc, ◌+◌, ◌-◌, ◌*◌, ◌/◌, ◌^◌, ◌%◌, Bool, true, false, not, ltb, ◌==◌, ◌&&◌,
  if◌then◌else◌, Option, none, some, List, [], ◌∷◌, ◌++◌, length, get_or, set, replicate,
}
use varnish.Prelude.Checked.{Checked, panic, ok, assert, ◌>>=◌, ◌>>◌}

abbrev pub digest_len : ℕ
digest_len = 32

-- for (; y < stop; y++) hcb_bittbl[y] = v
unfoldable pub fill_bittbl : ℕ → ℕ → ℕ → List ℕ → List ℕ
fill_bittbl zero y v tbl = tbl
fill_bittbl (suc n) y v tbl = fill_bittbl n (y + 1) v (set tbl y v)

-- The rounds of the outer loop from `x` on: `y` is where the inner loop stands.
unfoldable pub build_bittbl : ℕ → ℕ → ℕ → List ℕ → List ℕ
unfolding fill_bittbl
build_bittbl zero x y tbl = tbl
build_bittbl (suc n) x y tbl =
    build_bittbl n (x + 1) (2 ^ x) (fill_bittbl (2 ^ x - y) y (8 - x) tbl)

unfoldable pub bittbl : List ℕ
unfolding build_bittbl
bittbl = build_bittbl 8 0 0 (replicate 256 0)

unfoldable pub bits : ℕ → ℕ → ℕ
unfolding bittbl
bits x y = get_or bittbl (bit_xor x y) 0

-- `struct hcb_y`, less its leaves
pub record Y : Type 0 where
  pub critbit : ℕ
  pub ptr : ℕ
  pub bitmask : ℕ
  pub owner : ℕ

pub data Tree : Type 0 where
  node : ℕ → Tree
  y : Y → Tree → Tree → Tree

-- (digest[y->ptr] & y->bitmask) != 0
unfoldable pub side : List ℕ → Y → Bool
side d k = not (bit_and (get_or d k.ptr 0) k.bitmask == 0)

-- The loop of hcb_crit_bit: the first place from `u` on where two digests differ.
unfoldable pub first_difference : ℕ → ℕ → List ℕ → List ℕ → ℕ
first_difference zero u d1 d2 = u
first_difference (suc n) u d1 d2 =
    let rest = first_difference n (u + 1) d1 d2 in
    if get_or d1 u 0 == get_or d2 u 0 then rest else u

unfoldable pub y_at : ℕ → ℕ → ℕ → Y
y_at owner u r = record { critbit = u * 8 + r; ptr = u; bitmask = 128 / 2 ^ r; owner = owner }

unfoldable pub crit_bit : ℕ → List ℕ → List ℕ → Checked Y
unfolding first_difference y_at bits
crit_bit owner d1 d2 = do
  let u = first_difference digest_len 0 d1 d2
  assert (ltb u digest_len)
  ok (y_at owner u (bits (get_or d1 u 0) (get_or d2 u 0)))

-- memcmp(d1, d2, DIGEST_LEN) == 0
unfoldable pub same_bytes : ℕ → List ℕ → List ℕ → Bool
same_bytes zero d1 d2 = true
same_bytes (suc n) d1 d2 = get_or d1 n 0 == get_or d2 n 0 && same_bytes n d1 d2

-- The first loop of hcb_insert: the node it stops at, and by how much `cmps` grows.
unfoldable pub descend : Tree → List ℕ → Checked (ℕ × ℕ)
unfolding side
descend (node oh) d = ok (oh, 0)
descend (y k l r) d =
    assert (ltb k.ptr digest_len)
    >> (elim (side d k) [ true ↦ descend r d | false ↦ descend l d ]
        >>= (λ (oh, n). ok (oh, n + 1)))

-- y2 with its two leaves: the new node and what stood there
unfoldable pub branch : Bool → Y → ℕ → Tree → Tree
branch s y2 oh t = if s then y y2 t (node oh) else y y2 (node oh) t

-- The second loop of hcb_insert, and the writes after it.
unfoldable pub place : Tree → Y → ℕ → List ℕ → Checked (Tree × ℕ)
unfolding side branch
place (node oh2) y2 oh d = ok (branch (side d y2) y2 oh (node oh2), 0)
place (y k l r) y2 oh d = elim (ltb y2.critbit k.critbit) [
  | true ↦ ok (branch (side d y2) y2 oh (y k l r), 0)
  | false ↦ assert (ltb k.ptr digest_len) >> elim (side d k) [
    | true ↦ place r y2 oh d >>= (λ (t, n). ok (y k l t, n + 1))
    | false ↦ place l y2 oh d >>= (λ (t, n). ok (y k t r, n + 1))
  ]
]

-- `struct hcb_root`
pub record Root : Type 0 where
  pub origo : Option Tree
  pub cmps : ℕ

module _ (digest : ℕ → List ℕ) where
  -- What follows the first loop of hcb_insert, on a tree that is not empty.
  unfoldable pub insert_at : Tree → ℕ → ℕ → ℕ → Bool → Checked (Option ℕ × Root)
  unfolding same_bytes crit_bit place
  insert_at t cmps oh2 oh has_lock = elim (same_bytes digest_len (digest oh2) (digest oh)) [
    | true ↦ ok (some oh2, record { origo = some t; cmps = cmps })
    | false ↦ elim has_lock [
      | false ↦ ok (none, record { origo = some t; cmps = cmps })
      | true ↦ crit_bit oh (digest oh) (digest oh2) >>= (λ y2.
          place t y2 oh (digest oh)
          >>= (λ (t1, n). ok (some oh, record { origo = some t1; cmps = cmps + n })))
    ]
  ]

  unfoldable pub insert : Root → ℕ → Bool → Checked (Option ℕ × Root)
  unfolding descend insert_at
  insert root oh has_lock = elim root.origo [
    | none ↦ elim has_lock [
      | false ↦ ok (none, root)
      | true ↦ ok (some oh, record root { origo = some (node oh) })
    ]
    | some t ↦ descend t (digest oh) >>= (λ (oh2, n). insert_at t (root.cmps + n) oh2 oh has_lock)
  ]

-- leaf == hcb_r_node(oh)
unfoldable pub is_r_node : Tree → ℕ → Bool
is_r_node (node oh2) oh = oh2 == oh
is_r_node (y k l r) oh = false

-- The loop of hcb_delete from a pointer on that is not the root to be emptied.
unfoldable pub remove : Tree → ℕ → List ℕ → Checked (Tree × ℕ)
unfolding side is_r_node
remove (node oh2) oh d = panic
remove (y k l r) oh d = assert (ltb k.ptr digest_len) >> elim (side d k) [
  | true ↦ elim (is_r_node r oh) [
    | true ↦ ok (l, 0)
    | false ↦ remove r oh d >>= (λ (t, n). ok (y k l t, n + 1))
  ]
  | false ↦ elim (is_r_node l oh) [
    | true ↦ ok (r, 0)
    | false ↦ remove l oh d >>= (λ (t, n). ok (y k t r, n + 1))
  ]
]

unfoldable pub delete : Root → ℕ → List ℕ → Checked Root
unfolding remove
delete root oh d = elim root.origo [
  | none ↦ panic
  | some t ↦ elim (is_r_node t oh) [
    | true ↦ ok (record root { origo = none })
    | false ↦ remove t oh d >>= (λ (t1, n). ok (record { origo = some t1; cmps = root.cmps + n }))
  ]
]
