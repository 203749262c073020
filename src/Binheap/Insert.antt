-- ===== src/Binheap/Insert.antt =====
-- binheap_insert of lib/libvarnish/binary_heap.c keeps the heap in order.
use varnish.Prelude.{
  ℕ, ◌+◌, ◌%◌, ◌^◌, ◌≤◌, ◌<◌, ◌≡◌, inl, inr, refl, ap, ◌∙◌, Bool, true, false, arith, ltb, leb,
  ◌==◌, if◌then◌else◌, Bool-cases,
}
use native.Mathlib.Nat.{mod-eq_of_lt}
use varnish.Prelude.Checked.{ok, ◌>>=◌}
use varnish.Binheap.{Binheap, put, add_row, update, trickle_up, insert, root, row_width}
use varnish.Binheap.Layout.{parent-lt}
use varnish.Binheap.Order.{IsOrder, IsFilled, Holds, IsHeap, IsHeapBut, IsHeap-root, trickle_up_lem}

-- A heap between two operations: filled, in order, with room counted right, and below 2 ^ 32 elements.
pub record IsValid (cmp : ℕ → ℕ → Bool) (bh : Binheap) : Type 0 where
  pub filled : IsFilled bh
  pub heap : IsHeap cmp bh
  pub next : 0 < bh.next
  pub room : bh.next ≤ bh.length
  pub small : bh.length + row_width < 2 ^ 32

-- The heap with `p` in the cell behind the last, told to `p`.
abbrev append : Binheap → ℕ → Binheap
append bh p =
    let bh1 = if bh.length == bh.next then add_row bh else bh in
    record bh1 {
      cells = put bh1.cells bh.next p;
      next = bh.next + 1;
      index = put bh1.index p bh.next;
    }

append-IsFilled :
    (bh : Binheap) (p : ℕ) → IsFilled bh → (p == 0) ≡ false → ¬ Holds bh p → IsFilled (append bh p)
unfolding add_row
append-IsFilled bh p f obj new = record {
  objects = λ w pos lt. (let a = f.objects w pos in ground arith);
  indices = λ w pos lt.
      (let a = f.indices w pos in
        let b : w < bh.next → (bh.cells w == p) ≡ false = λ old. different w pos old in
        ground arith);
}
  where
    different : (w : ℕ) → 0 < w → w < bh.next → (bh.cells w == p) ≡ false
    different w pos old = elim (Bool-cases (bh.cells w == p)) [
      | inl e ↦ let same : bh.cells w ≡ p = ground arith in absurd (new (w, pos, old, same))
      | inr e ↦ e
    ]

append-IsHeapBut :
    (cmp : ℕ → ℕ → Bool) (bh : Binheap) (p : ℕ)
    → IsHeap cmp bh
    → IsHeapBut cmp bh.next (append bh p)
unfolding add_row
append-IsHeapBut cmp bh p h = record {
  others = λ w pw lw ne. (let a = h w pw in let below = parent-lt w pw in ground arith);
  children = λ w big pw lw e. (let below = parent-lt w pw in absurd (ground arith));
}

append-Holds : (bh : Binheap) (p x : ℕ) → Holds bh x → Holds (append bh p) x
unfolding add_row
append-Holds bh p x (w, pos, lt, e) = (w, pos, ground arith, ground arith)

insert-trickle_up :
    (cmp : ℕ → ℕ → Bool) (bh : Binheap) (p : ℕ)
    → IsValid cmp bh
    → (p == 0) ≡ false
    → insert 512 cmp bh p ≡ (trickle_up 512 cmp bh.next (append bh p) bh.next >>= (λ r. ok r.1))
unfolding insert add_row update
insert-trickle_up cmp bh p v obj =
    let no_wrap : (bh.next + 1) % 2 ^ 32 ≡ bh.next + 1 =
      mod-eq_of_lt (omega (arith, v.room, v.small)) in
    let room : leb bh.next bh.length ≡ true = ground (arith, v.room) in
    let fits : ltb bh.next (bh.next + 1) ≡ true = ground arith in
    let here : (bh.next == bh.next) ≡ true = ground arith in
    rw (room, no_wrap, fits, here, obj) refl

append-length :
    (cmp : ℕ → ℕ → Bool) (bh : Binheap) (p : ℕ)
    → IsValid cmp bh
    → (append bh p).next ≤ (append bh p).length
unfolding add_row
append-length cmp bh p v =
    let no_wrap : (bh.length + row_width) % 2 ^ 32 ≡ bh.length + row_width = mod-eq_of_lt v.small in
    ground (arith, no_wrap, v.room)

-- binheap_insert of an object that is not yet in a valid heap, for pages of 512 elements: no
-- assertion fails; the heap has one more element, holds the object and all that it held before;
-- each object was last told its own index; every element is in order with its parent, and none
-- comes before the root; and there is room for what is held.
pub insert_lem :
    (cmp : ℕ → ℕ → Bool) (bh : Binheap) (p : ℕ)
    → IsOrder cmp
    → IsValid cmp bh
    → (p == 0) ≡ false
    → ¬ Holds bh p
    → (bh' : Binheap) × (insert 512 cmp bh p ≡ ok bh')
      × (bh'.next ≡ bh.next + 1)
      × Holds bh' p
      × ((x : ℕ) → Holds bh x → Holds bh' x)
      × IsFilled bh'
      × IsHeap cmp bh'
      × ((u : ℕ) → 0 < u → u < bh'.next → cmp (bh'.cells u) (root bh') ≡ false)
      × (bh'.next ≤ bh'.length)
unfolding root
insert_lem cmp bh p o v obj new =
    let (r, run, filled, heap, next, len, kept) =
      trickle_up_lem cmp bh.next (append bh p) bh.next o (omega arith) v.next (omega arith)
        (append-IsFilled bh p v.filled obj new) (append-IsHeapBut cmp bh p v.heap) in
    let room = append-length cmp bh p v in
    let step : insert 512 cmp bh p ≡ ok r.1 =
      insert-trickle_up cmp bh p v obj ∙ ap (λ m. m >>= (λ q. ok q.1)) run in
    let first = IsHeap-root cmp r.1 o heap in
    (
      r.1,
      step,
      next,
      kept p (bh.next, v.next, omega arith, ground arith),
      (λ x at. kept x (append-Holds bh p x at)),
      filled,
      heap,
      (λ u pos lt. first u u (omega arith) pos lt),
      (omega (arith, room, next, len)),
    )
