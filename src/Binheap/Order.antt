-- ===== src/Binheap/Order.antt =====
-- The order of the heap of lib/libvarnish/binary_heap.c: binheap_trickleup restores it.
use varnish.Prelude.{
  ℕ, zero, suc, ◌≤◌, ◌<◌, ◌≡◌, ◌≢◌, inl, inr, refl, Bool, true, false, arith, ltb, ◌==◌, ◌&&◌,
  Bool-cases,
}
use varnish.Prelude.Checked.{ok}
use varnish.Binheap.{Binheap, parent, put, swap, update, trickle_up}
use varnish.Binheap.Layout.{parent-lt}

-- What cmp must be: no object comes before itself, and "does not come before" is transitive.
pub record IsOrder (cmp : ℕ → ℕ → Bool) : Type 0 where
  pub asym : (a b : ℕ) → cmp a b ≡ true → cmp b a ≡ false
  pub trans : (a b c : ℕ) → cmp b a ≡ false → cmp c b ≡ false → cmp c a ≡ false

-- There are objects from the root on, and each object is told its own index.
pub record IsFilled (bh : Binheap) : Type 0 where
  pub objects : (u : ℕ) → 0 < u → u < bh.next → (bh.cells u == 0) ≡ false
  pub indices : (u : ℕ) → 0 < u → u < bh.next → bh.index (bh.cells u) ≡ u

-- The object is in the heap.
abbrev pub Holds : Binheap → ℕ → Type 0
Holds bh x = (u : ℕ) × (0 < u) × (u < bh.next) × (bh.cells u ≡ x)

module _ (cmp : ℕ → ℕ → Bool) where
  -- The object at `u` does not come before the one at its parent.
  abbrev pub InOrder : (ℕ → ℕ) → ℕ → Type 0
  InOrder cells u = cmp (cells u) (cells (parent 512 u)) ≡ false

  abbrev pub IsHeap : Binheap → Type 0
  IsHeap bh = (u : ℕ) → 1 < u → u < bh.next → InOrder bh.cells u

  -- In order but for `u`, whose children are in order with its parent.
  pub record IsHeapBut (u : ℕ) (bh : Binheap) : Type 0 where
    pub others : (w : ℕ) → 1 < w → w < bh.next → w ≢ u → InOrder bh.cells w
    pub children :
        (w : ℕ)
        → 1 < u
        → 1 < w
        → w < bh.next
        → parent 512 w ≡ u
        → cmp (bh.cells w) (bh.cells (parent 512 u)) ≡ false

  -- Two cells exchanged, and their objects told.
  abbrev exchange : Binheap → ℕ → ℕ → Binheap
  exchange bh u v = record bh {
    cells = put (put bh.cells u (bh.cells v)) v (bh.cells u);
    index = put (put bh.index (bh.cells v) u) (bh.cells u) v;
  }

  swap-exchange :
      (bh : Binheap) (u v : ℕ)
      → IsFilled bh
      → 0 < u
      → u < bh.next
      → 0 < v
      → v < bh.next
      → u ≢ v
      → swap bh u v ≡ ok (exchange bh u v)
  unfolding swap update
  swap-exchange bh u v f pu lu pv lv ne =
      let ou = f.objects u pu lu in let ov = f.objects v pv lv in ground arith

  exchange-IsFilled :
      (bh : Binheap) (u v : ℕ)
      → IsFilled bh
      → 0 < u
      → u < bh.next
      → 0 < v
      → v < bh.next
      → u ≢ v
      → IsFilled (exchange bh u v)
  exchange-IsFilled bh u v f pu lu pv lv ne = record {
    objects = λ w pos lt.
        (let a = f.objects u pu lu in
          let b = f.objects v pv lv in let c = f.objects w pos lt in ground arith);
    indices = λ w pos lt.
        (let a = f.indices u pu lu in
          let b = f.indices v pv lv in let c = f.indices w pos lt in ground arith);
  }

  exchange-Holds :
      (bh : Binheap) (u v x : ℕ)
      → 0 < u
      → u < bh.next
      → 0 < v
      → v < bh.next
      → Holds bh x
      → Holds (exchange bh u v) x
  exchange-Holds bh u v x pu lu pv lv (w, pos, lt, e) = elim (Bool-cases (w == u)) [
    | inl a ↦ (v, pv, lv, ground arith)
    | inr a ↦ elim (Bool-cases (w == v)) [
      | inl b ↦ (u, pu, lu, ground arith)
      | inr b ↦ (w, pos, lt, ground arith)
    ]
  ]

  exchange-IsHeapBut :
      (bh : Binheap) (u : ℕ)
      → IsOrder cmp
      → 1 < u
      → u < bh.next
      → cmp (bh.cells u) (bh.cells (parent 512 u)) ≡ true
      → IsHeapBut u bh
      → IsHeapBut (parent 512 u) (exchange bh u (parent 512 u))
  exchange-IsHeapBut bh u o pos lt less h =
      let (up, pv) = parent-lt u pos in
      let v : ℕ = parent 512 u in
      record {
        others = λ w pw lw ne.
            (let below = parent-lt w pw in
              let a = h.children w pos pw lw in
              let b = h.others w pw lw in
              let c = o.asym (bh.cells u) (bh.cells v) less in
              let d = o.trans (bh.cells u) (bh.cells v) (bh.cells w) c in ground arith);
        children = λ w pv pw lw e.
            (let below = parent-lt v pv in
              let a = h.others v pv (omega arith) (omega arith) in
              let b = h.others w pw lw in
              let d = o.trans (bh.cells (parent 512 v)) (bh.cells v) (bh.cells w) a in
              ground arith);
      }

  stays-IsHeap :
      (bh : Binheap) (u : ℕ)
      → IsHeapBut u bh
      → (1 < u → cmp (bh.cells u) (bh.cells (parent 512 u)) ≡ false)
      → IsHeap bh
  stays-IsHeap bh u h here w pw lw = elim (Bool-cases (w == u)) [
    | inl e ↦ let same : w ≡ u = ground arith in rw (same) (here (omega arith))
    | inr e ↦ h.others w pw lw (λ same. absurd (ground arith))
  ]

  pub IsHeap-root :
      (bh : Binheap)
      → IsOrder cmp
      → IsHeap bh
      → (n u : ℕ) → u ≤ n
      → 0 < u
      → u < bh.next
      → cmp (bh.cells u) (bh.cells 1) ≡ false
  IsHeap-root bh o h zero u le pos lt = absurd (omega arith)
  IsHeap-root bh o h (suc n) u le pos lt = elim (Bool-cases (ltb 1 u)) [
    | inl e ↦
        let big : 1 < u = ground arith in
        let (below, above) = parent-lt u big in
        let up = IsHeap-root bh o h n (parent 512 u) (omega arith) above (omega arith) in
        o.trans (bh.cells 1) (bh.cells (parent 512 u)) (bh.cells u) up (h u big lt)
    | inr e ↦
        let here : u ≡ 1 = ground arith in
        let a = o.asym (bh.cells 1) (bh.cells 1) in rw (here) (ground arith)
  ]

  -- Enough rounds bring `u` up to where it is in order.
  pub trickle_up_lem :
      (n : ℕ) (bh : Binheap) (u : ℕ)
      → IsOrder cmp
      → u ≤ n
      → 0 < u
      → u < bh.next
      → IsFilled bh
      → IsHeapBut u bh
      → (r : ℕ × Binheap) × (trickle_up 512 cmp n bh u ≡ ok r)
        × IsFilled r.1
        × IsHeap r.1
        × (r.1.next ≡ bh.next)
        × (r.1.length ≡ bh.length)
        × ((x : ℕ) → Holds bh x → Holds r.1 x)
  unfolding trickle_up
  trickle_up_lem zero bh u o le pos lt f h = absurd (omega arith)
  trickle_up_lem (suc n) bh u o le pos lt f h =
      elim (Bool-cases (ltb 1 u && cmp (bh.cells u) (bh.cells (parent 512 u)))) [
        | inl e ↦
            let big : 1 < u = ground arith in
            let less : cmp (bh.cells u) (bh.cells (parent 512 u)) ≡ true = ground arith in
            let (below, above) = parent-lt u big in
            let v : ℕ = parent 512 u in
            let swapped =
              swap-exchange bh u v f pos lt above (omega arith) (λ eq. absurd (omega arith)) in
            let filled =
              exchange-IsFilled bh u v f pos lt above (omega arith) (λ eq. absurd (omega arith)) in
            let (r, run, filled', heap, next, len, kept) =
              trickle_up_lem n (exchange bh u v) v o (omega arith) above (omega arith) filled
                (exchange-IsHeapBut bh u o big lt less h) in
            (
              r,
              rw (trickle_up, e, swapped) run,
              filled',
              heap,
              next,
              len,
              λ x at. kept x (exchange-Holds bh u v x pos lt above (omega arith) at),
            )
        | inr e ↦ (
          (u, bh),
          rw (trickle_up, e) refl,
          f,
          stays-IsHeap bh u h (ground arith),
          refl,
          refl,
          λ x at. at,
        )
      ]
