-- ===== src/Binheap.antt =====
-- The binary heap of lib/libvarnish/binary_heap.c, which orders the objects by their time of
-- expiry. Objects are numbers, and NULL is 0. The rows of the array are one map from indices to
-- objects, and memory does not run out. `&` and `|` with the page's masks are written with `/`, `%`
-- and `+`: the page's size `ps` is a power of two, and the bits that are put together are disjoint.
pub mod Layout
pub mod Order
pub mod Insert
mod Tests
use varnish.Prelude.{
  ℕ, zero, suc, ◌+◌, ◌-◌, ◌*◌, ◌/◌, ◌%◌, ◌^◌, Bool, true, false, not, ltb, leb, ◌==◌, ◌&&◌, ◌||◌,
  if◌then◌else◌,
}
use varnish.Prelude.Checked.{Checked, ok, assert, ◌>>=◌, ◌>>◌}

-- `struct binheap`; `index` is what the function `update` has told of each object.
pub record Binheap : Type 0 where
  pub cells : ℕ → ℕ
  pub rows : ℕ
  pub length : ℕ
  pub next : ℕ
  pub index : ℕ → ℕ

abbrev pub row_width : ℕ
row_width = 65536

abbrev pub root_idx : ℕ
root_idx = 1

abbrev pub put : (ℕ → ℕ) → ℕ → ℕ → ℕ → ℕ
put f i x j = if j == i then x else f j

unfoldable pub parent : ℕ → ℕ → ℕ
parent ps u =
    let po = u % ps in
    if ltb u ps || ltb 3 po
    then (u - po) + po / 2
    else if ltb po 2
    then (let v = (u - ps) / ps in v + v / (ps / 2) * (ps / 2) + ps / 2)
    else u - 2

-- The two children of `u`; `b` is what *b holds before.
unfoldable pub child : ℕ → ℕ → ℕ → ℕ × ℕ
child ps u b =
    if ltb (ps - 1) u && ltb (u % ps) 2
    then ((u + 2) % 2 ^ 32, (u + 2) % 2 ^ 32)
    else if u / (ps / 2) % 2 == 1
    then (let a = ((u / ps * ps / 2 + u % (ps / 2) + 1) * ps) % 2 ^ 32 in (a, (a + 1) % 2 ^ 32))
    else ((u + u % ps) % 2 ^ 32, (b + 1) % 2 ^ 32)

unfoldable pub add_row : Binheap → Binheap
add_row bh =
    let rows = if leb bh.rows (bh.length / row_width) then bh.rows * 2 else bh.rows in
    record bh { rows = rows; length = (bh.length + row_width) % 2 ^ 32 }

unfoldable pub new : Binheap
unfolding add_row
new = add_row (record { cells = λ i. 0; rows = 16; length = 0; next = root_idx; index = λ i. 0 })

unfoldable pub update : Binheap → ℕ → Checked Binheap
update bh u = do
  assert (ltb u bh.next)
  assert (not (bh.cells u == 0))
  ok (record bh { index = put bh.index (bh.cells u) u })

unfoldable pub swap : Binheap → ℕ → ℕ → Checked Binheap
unfolding update
swap bh u v = do
  assert (ltb u bh.next)
  assert (ltb v bh.next)
  let cells = put (put bh.cells u (bh.cells v)) v (bh.cells u)
  bh1 ← update (record bh { cells = cells }) u
  update bh1 v

unfoldable pub root : Binheap → ℕ
root bh = bh.cells root_idx

module _ (ps : ℕ) (cmp : ℕ → ℕ → Bool) where
  -- binheap_trickleup with fuel: a parent's index is smaller, so that `u` rounds are enough.
  unfoldable pub trickle_up : ℕ → Binheap → ℕ → Checked (ℕ × Binheap)
  unfolding swap parent
  trickle_up zero bh u = ok (u, bh)
  trickle_up (suc n) bh u =
      let v = parent ps u in
      elim (ltb root_idx u && cmp (bh.cells u) (bh.cells v)) [
        | true ↦ swap bh u v >>= (λ bh1. trickle_up n bh1 v)
        | false ↦ ok (u, bh)
      ]

  unfoldable pub insert : Binheap → ℕ → Checked Binheap
  unfolding add_row update trickle_up
  insert bh p = do
    assert (leb bh.next bh.length)
    let bh1 = if bh.length == bh.next then add_row bh else bh
    let u = bh.next
    bh2 ← update (record bh1 { cells = put bh1.cells u p; next = (u + 1) % 2 ^ 32 }) u
    r ← trickle_up u bh2 u
    ok r.1

  -- binheap_trickledown with fuel: a child's index is greater. `v2` is an automatic variable that the
  -- first call of child may read before it is set.
  unfoldable pub trickle_down : ℕ → Binheap → ℕ → ℕ → Checked Binheap
  unfolding swap child
  trickle_down zero bh u v2 = ok bh
  trickle_down (suc n) bh u v2 =
      let c = child ps u v2 in
      let second = ltb c.1 bh.next && cmp (bh.cells c.1) (bh.cells c.0) in
      let v1 = if second then c.1 else c.0 in
      elim (leb bh.next c.0 || cmp (bh.cells u) (bh.cells v1)) [
        | true ↦ ok bh
        | false ↦ swap bh u v1 >>= (λ bh1. trickle_down n bh1 v1 c.1)
      ]

  unfoldable pub delete : Binheap → ℕ → ℕ → Checked Binheap
  unfolding update trickle_up trickle_down
  delete bh idx v2 = do
    assert (ltb root_idx bh.next)
    assert (ltb idx bh.next)
    assert (ltb 0 idx)
    assert (not (bh.cells idx == 0))
    let last = bh.next - 1
    let bh1 = record bh { index = put bh.index (bh.cells idx) 0; next = last }
    if idx == last then ok (record bh1 { cells = put bh1.cells last 0 }) else (do
      bh2 ← update (record bh1 { cells = put (put bh1.cells idx (bh1.cells last)) last 0 }) idx
      up ← trickle_up idx bh2 idx
      bh3 ← trickle_down last up.1 up.0 v2
      let shrunk = record bh3 { length = bh3.length - row_width }
      ok (if leb (bh3.next + 2 * row_width) bh3.length then shrunk else bh3))
