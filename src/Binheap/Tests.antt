-- ===== src/Binheap/Tests.antt =====
-- Examples for the heap: objects that come in the order of their numbers, pages of 512 elements.
use varnish.Prelude.{
  ℕ, ◌+◌, ◌<◌, ◌^◌, ◌≤◌, ◌≡◌, ◌⊎◌, refl, false, List, [], ◌∷◌, ltb, arith, ◌/◌, ◌%◌,
}
use varnish.Prelude.Checked.{Checked, ok, panic, ◌>>=◌}
use varnish.Binheap.{
  Binheap, parent, child, new, add_row, put, update, swap, trickle_up, insert, root, trickle_down,
  delete,
}
use varnish.Binheap.Layout.{IsMagic, parent-child, child_wrapped}
use varnish.Binheap.Order.{IsOrder, IsFilled, Holds, IsHeap}
use varnish.Binheap.Insert.{IsValid, insert_lem}

abbrev insert_all : Binheap → List ℕ → Checked Binheap
insert_all bh [] = ok bh
insert_all bh (p ∷ ps) = insert 512 ltb bh p >>= (λ bh'. insert_all bh' ps)

abbrev layer : Checked Binheap → List ℕ
layer panic = []
layer (ok bh) = bh.cells 1 ∷ bh.cells 2 ∷ bh.cells 3 ∷ bh.cells 4 ∷ []

abbrev four : Checked Binheap
four = insert_all new (5 ∷ 2 ∷ 1 ∷ 6 ∷ [])

insert_test : layer four ≡ 1 ∷ 5 ∷ 2 ∷ 6 ∷ []
unfolding insert update trickle_up swap parent new add_row
insert_test = refl

-- With 0 in the variable v2, the object 5 becomes the root before the object 2.
delete_test : layer (four >>= (λ bh. delete 512 ltb bh 1 0)) ≡ 5 ∷ 6 ∷ 2 ∷ 0 ∷ []
unfolding insert update trickle_up swap parent new add_row delete trickle_down child
delete_test = refl

-- With 2 in it, all is well.
delete_test_lucky : layer (four >>= (λ bh. delete 512 ltb bh 1 2)) ≡ 2 ∷ 5 ∷ 6 ∷ 0 ∷ []
unfolding insert update trickle_up swap parent new add_row delete trickle_down child
delete_test_lucky = refl

ltb-IsOrder : IsOrder ltb
ltb-IsOrder = record { asym = λ a b h. ground arith; trans = λ a b c h k. ground arith }

-- one object, 7
abbrev one : Binheap
one = record {
  cells = put (λ i. 0) 1 7;
  rows = 16;
  length = 65536;
  next = 2;
  index = put (λ i. 0) 7 1;
}

one-IsValid : IsValid ltb one
one-IsValid = record {
  filled = record { objects = λ u pos lt. ground arith; indices = λ u pos lt. ground arith };
  heap = λ u pos lt. absurd (omega arith);
  next = omega arith;
  room = omega arith;
  small = omega arith;
}

three-new : ¬ Holds one 3
three-new (u, pos, lt, e) = absurd (ground arith)

insert_lem_example :
    (bh' : Binheap) × (insert 512 ltb one 3 ≡ ok bh')
    × (bh'.next ≡ 2 + 1)
    × Holds bh' 3
    × ((x : ℕ) → Holds one x → Holds bh' x)
    × IsFilled bh'
    × IsHeap ltb bh'
    × ((u : ℕ) → 0 < u → u < bh'.next → ltb (bh'.cells u) (root bh') ≡ false)
    × (bh'.next ≤ bh'.length)
insert_lem_example = insert_lem ltb one 3 ltb-IsOrder one-IsValid refl three-new

parent-child_example :
    (parent 512 (child 512 700 0).0 ≡ 700)
    × (700 < (child 512 700 0).0)
    × (IsMagic 700 → (parent 512 (child 512 700 0).1 ≡ 700) × (700 < (child 512 700 0).1))
    × ((700 / 256 % 2 ≡ 0) → (700 < 512) ⊎ (1 < 700 % 512) → (child 512 700 0).1 ≡ (0 + 1) % 2 ^ 32)
parent-child_example = parent-child 700 0 (omega arith) (omega arith)

child_wrapped_example : (child 512 16777215 0).0 < 16777215
child_wrapped_example =
    child_wrapped 16777215 0 (omega arith) (omega arith) (omega arith) (omega arith)
