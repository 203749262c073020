-- ===== src/Binheap/Layout.antt =====
-- The index arithmetic of lib/libvarnish/binary_heap.c, for pages of 512 elements, which 4096 bytes and
-- pointers of 8 bytes make: the tree that is laid out in pages.
use varnish.Prelude.{ℕ, ◌+◌, ◌-◌, ◌/◌, ◌%◌, ◌^◌, ◌≤◌, ◌<◌, ◌≡◌, ◌⊎◌, arith}
use varnish.Binheap.{parent, child}

pub parent-lt : (u : ℕ) → 1 < u → (parent 512 u < u) × (0 < parent 512 u)
unfolding parent
parent-lt u pos = ground arith

-- The two first elements of a page but the first have one child; those of a page's bottom row have
-- their children in another page. The other elements have theirs within the page.
abbrev pub IsMagic : ℕ → Type 0
IsMagic u = ((511 < u) × (u % 512 < 2)) ⊎ (u / 256 % 2 ≡ 1)

-- For an element with an index from 1 to 2 ^ 24 - 2: parent leads from the first child that child
-- gives back to the element, and the child has the greater index. So it is with the second child of
-- the elements that `IsMagic` names; for the others child sets the second to one more than what the
-- variable held before.
pub parent-child :
    (u b : ℕ)
    → 0 < u
    → u < 2 ^ 24 - 1
    → (parent 512 (child 512 u b).0 ≡ u)
      × (u < (child 512 u b).0)
      × (IsMagic u → (parent 512 (child 512 u b).1 ≡ u) × (u < (child 512 u b).1))
      × ((u / 256 % 2 ≡ 0) → (u < 512) ⊎ (1 < u % 512) → (child 512 u b).1 ≡ (b + 1) % 2 ^ 32)
unfolding parent child
parent-child u b pos small = ground arith

-- An element of a page's bottom row with an index from 2 ^ 24 - 1 to 2 ^ 24 + 2 ^ 15 - 1: the
-- computation of its children wraps around, and the first child that child gives comes before the
-- element.
pub child_wrapped :
    (u b : ℕ)
    → 2 ^ 24 - 1 ≤ u
    → u < 2 ^ 24 + 2 ^ 15
    → u / 256 % 2 ≡ 1
    → 1 < u % 512
    → (child 512 u b).0 < u
unfolding child
child_wrapped u b lo hi bottom inner = ground arith
