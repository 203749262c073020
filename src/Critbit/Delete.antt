-- ===== src/Critbit/Delete.antt =====
-- hcb_delete: the leaf that the digest leads to goes, and its sibling takes the place of the y.
use varnish.Prelude.{
  ℕ, ◌+◌, ◌≡◌, ◌≢◌, ◌⊎◌, ◌↔◌, refl, ◌∙◌, Bool, true, false, not, ltb, lt→ltb, arith, List,
  Bool-cases, inl, inr, ==_iff,
}
use varnish.Prelude.Checked.{ok}
use varnish.Critbit.{Y, Tree, node, y, remove, is_r_node}
use varnish.Critbit.Crit.{bit, side_lem}
use varnish.Critbit.Inv.{Holds, IsTree, IsTree-IsDigest}

pub is_r_node-Holds : (t : Tree) (oh x : ℕ) → is_r_node t oh ≡ true → Holds x t → x ≡ oh
unfolding is_r_node
is_r_node-Holds (node o) oh x e h = h ∙ (==_iff o oh).0 e
is_r_node-Holds (y k l r) oh x e h = cc

module _ (digest : ℕ → List ℕ) where
  -- `t1` is a tree of what stands in `t`, less `oh`.
  abbrev pub Drops : Tree → ℕ → Tree → Type 0
  Drops t oh t1 = IsTree digest t1 × ((x : ℕ) → Holds x t1 ↔ (Holds x t × (x ≢ oh)))

  other_side :
      (c : ℕ) {x z : ℕ} {b : Bool} → bit (digest x) c ≡ b → bit (digest z) c ≡ not b → x ≢ z
  other_side c {x = x} {z = z} {b = true} p q e = cc
  other_side c {x = x} {z = z} {b = false} p q e = cc

  -- The sibling, where one leaf of a y is `oh`.
  left_stays :
      (k : Y) (l r : Tree) (oh : ℕ)
      → IsTree digest (y k l r)
      → is_r_node r oh ≡ true
      → Holds oh r
      → Drops (y k l r) oh l
  left_stays k l r oh w e h = (
    w.4,
    λ x. (
      λ hx. (inl hx, other_side k.critbit (w.1 x hx) (w.2 oh h)),
      λ (hx, ne). elim hx [ inl g ↦ g | inr g ↦ absurd (ne (is_r_node-Holds r oh x e g)) ],
    ),
  )

  right_stays :
      (k : Y) (l r : Tree) (oh : ℕ)
      → IsTree digest (y k l r)
      → is_r_node l oh ≡ true
      → Holds oh l
      → Drops (y k l r) oh r
  right_stays k l r oh w e h = (
    w.5,
    λ x. (
      λ hx. (inr hx, other_side k.critbit (w.2 x hx) (w.1 oh h)),
      λ (hx, ne). elim hx [ inr g ↦ g | inl g ↦ absurd (ne (is_r_node-Holds l oh x e g)) ],
    ),
  )

  right-Drops :
      (k : Y) (l r t1 : Tree) (oh : ℕ)
      → IsTree digest (y k l r)
      → Holds oh r
      → Drops r oh t1
      → Drops (y k l r) oh (y k l t1)
  right-Drops k l r t1 oh w h drops = (
    (
      w.0,
      w.1,
      λ x hx. w.2 x ((drops.1 x).0 hx).0,
      λ x z hx hz. w.3 x z (from x hx).0 (from z hz).0,
      w.4,
      drops.0,
    ),
    λ x. (from x, to x),
  )
    where
      from : (x : ℕ) → Holds x l ⊎ Holds x t1 → (Holds x l ⊎ Holds x r) × (x ≢ oh)
      from x (inl g) = (inl g, other_side k.critbit (w.1 x g) (w.2 oh h))
      from x (inr g) = (inr ((drops.1 x).0 g).0, ((drops.1 x).0 g).1)

      to : (x : ℕ) → (Holds x l ⊎ Holds x r) × (x ≢ oh) → Holds x l ⊎ Holds x t1
      to x (inl g, ne) = inl g
      to x (inr g, ne) = inr ((drops.1 x).1 (g, ne))

  left-Drops :
      (k : Y) (l r t1 : Tree) (oh : ℕ)
      → IsTree digest (y k l r)
      → Holds oh l
      → Drops l oh t1
      → Drops (y k l r) oh (y k t1 r)
  left-Drops k l r t1 oh w h drops = (
    (
      w.0,
      λ x hx. w.1 x ((drops.1 x).0 hx).0,
      w.2,
      λ x z hx hz. w.3 x z (from x hx).0 (from z hz).0,
      drops.0,
      w.5,
    ),
    λ x. (from x, to x),
  )
    where
      from : (x : ℕ) → Holds x t1 ⊎ Holds x r → (Holds x l ⊎ Holds x r) × (x ≢ oh)
      from x (inr g) = (inr g, other_side k.critbit (w.2 x g) (w.1 oh h))
      from x (inl g) = (inl ((drops.1 x).0 g).0, ((drops.1 x).0 g).1)

      to : (x : ℕ) → (Holds x l ⊎ Holds x r) × (x ≢ oh) → Holds x t1 ⊎ Holds x r
      to x (inr g, ne) = inr g
      to x (inl g, ne) = inl ((drops.1 x).1 (g, ne))

  on_right :
      (k : Y) (l r : Tree) (oh : ℕ)
      → IsTree digest (y k l r)
      → Holds oh (y k l r)
      → bit (digest oh) k.critbit ≡ true
      → Holds oh r
  on_right k l r oh w (inl h) b = absurd (other_side k.critbit b (w.1 oh h) refl)
  on_right k l r oh w (inr h) b = h

  on_left :
      (k : Y) (l r : Tree) (oh : ℕ)
      → IsTree digest (y k l r)
      → Holds oh (y k l r)
      → bit (digest oh) k.critbit ≡ false
      → Holds oh l
  on_left k l r oh w (inl h) b = h
  on_left k l r oh w (inr h) b = absurd (other_side k.critbit b (w.2 oh h) refl)

  pub remove_lem :
      (t : Tree) (oh : ℕ)
      → is_r_node t oh ≡ false
      → IsTree digest t
      → Holds oh t
      → (t1 : Tree) × (n : ℕ) × (remove t oh (digest oh) ≡ ok (t1, n)) × Drops t oh t1
  unfolding remove is_r_node
  remove_lem (node o) oh e w h = absurd (ground arith)
  remove_lem (y k l r) oh e w h =
      let p : ltb k.ptr 32 ≡ true = lt→ltb _ _ (omega (arith, w.0.0, w.0.1)) in
      let s = side_lem (digest oh) k (IsTree-IsDigest digest (y k l r) oh w h) w.0 in
      elim (Bool-cases (bit (digest oh) k.critbit)) [
        | inl b ↦
            let here = on_right k l r oh w h b in
            elim (Bool-cases (is_r_node r oh)) [
              | inl e ↦ (l, 0, rw (p, s, b, e) refl, left_stays k l r oh w e here)
              | inr e ↦
                  let (t1, n, run, drops) = remove_lem r oh e w.5 here in
                  (y k l t1, n + 1, rw (p, s, b, e, run) refl, right-Drops k l r t1 oh w here drops)
            ]
        | inr b ↦
            let here = on_left k l r oh w h b in
            elim (Bool-cases (is_r_node l oh)) [
              | inl e ↦ (r, 0, rw (p, s, b, e) refl, right_stays k l r oh w e here)
              | inr e ↦
                  let (t1, n, run, drops) = remove_lem l oh e w.4 here in
                  (y k t1 r, n + 1, rw (p, s, b, e, run) refl, left-Drops k l r t1 oh w here drops)
            ]
      ]
