-- ===== src/Critbit/Inv.antt =====
-- What a critical-bit tree is, and where hcb_insert's first loop ends.
use varnish.Prelude.{
  ℕ, ◌+◌, ◌≡◌, ◌⊎◌, refl, sym, ◌∙◌, true, false, ltb, lt→ltb, arith, List, Bool-cases, inl, inr,
}
use mathlib.Core.Path.{subst}
use varnish.Prelude.Checked.{ok}
use varnish.Critbit.{Y, Tree, node, y, descend, digest_len}
use varnish.Critbit.Crit.{IsDigest, Same, SameTo, Same-SameTo, IsY, bit, side_lem}

-- The objhead stands in the tree.
abbrev pub Holds : ℕ → Tree → Type 0
Holds x (node oh) = x ≡ oh
Holds x (y k l r) = Holds x l ⊎ Holds x r

-- The leaf that the bits of a digest lead to.
unfoldable pub nearest : Tree → List ℕ → ℕ
nearest (node oh) d = oh
nearest (y k l r) d = elim (bit d k.critbit) [ true ↦ nearest r d | false ↦ nearest l d ]

nearest_node : (oh : ℕ) (d : List ℕ) → nearest (node oh) d ≡ oh
unfolding nearest
nearest_node oh d = refl

pub nearest_right :
    (k : Y) (l r : Tree) (d : List ℕ) → bit d k.critbit ≡ true → nearest (y k l r) d ≡ nearest r d
unfolding nearest
nearest_right k l r d e = rw (e, nearest) refl

pub nearest_left :
    (k : Y) (l r : Tree) (d : List ℕ) → bit d k.critbit ≡ false → nearest (y k l r) d ≡ nearest l d
unfolding nearest
nearest_left k l r d e = rw (e, nearest) refl

pub nearest-Holds : (t : Tree) (d : List ℕ) → Holds (nearest t d) t
nearest-Holds (node oh) d = nearest_node oh d
nearest-Holds (y k l r) d = elim (Bool-cases (bit d k.critbit)) [
  | inl e ↦ inr (subst (λ x. Holds x r) (sym (nearest_right k l r d e)) (nearest-Holds r d))
  | inr e ↦ inl (subst (λ x. Holds x l) (sym (nearest_left k l r d e)) (nearest-Holds l d))
]

module _ (digest : ℕ → List ℕ) where
  -- At every y the leaves on the left have its bit clear and those on the right have it set, and all
  -- of them have the same bits before it.
  abbrev pub IsTree : Tree → Type 0
  IsTree (node oh) = IsDigest (digest oh)
  IsTree (y k l r) =
      IsY k
      × ((x : ℕ) → Holds x l → bit (digest x) k.critbit ≡ false)
      × ((x : ℕ) → Holds x r → bit (digest x) k.critbit ≡ true)
      × ((x z : ℕ) → Holds x (y k l r) → Holds z (y k l r) → SameTo k.critbit (digest x) (digest z))
      × IsTree l
      × IsTree r

  pub IsTree-IsDigest : (t : Tree) (x : ℕ) → IsTree t → Holds x t → IsDigest (digest x)
  IsTree-IsDigest (node oh) x w h = rw h w
  IsTree-IsDigest (y k l r) x w (inl h) = IsTree-IsDigest l x w.4 h
  IsTree-IsDigest (y k l r) x w (inr h) = IsTree-IsDigest r x w.5 h

  -- Every digest is led to the leaf `nearest`, over no failing assertion.
  pub descend_lem :
      (t : Tree) (d : List ℕ)
      → IsTree t
      → IsDigest d
      → (n : ℕ) × (descend t d ≡ ok (nearest t d, n))
  unfolding descend nearest
  descend_lem (node oh) d w h = (0, refl)
  descend_lem (y k l r) d w h =
      let p : ltb k.ptr 32 ≡ true = lt→ltb _ _ (omega (arith, w.0.0, w.0.1)) in
      let s = side_lem d k h w.0 in
      elim (Bool-cases (bit d k.critbit)) [
        | inl e ↦ let (n, i) = descend_lem r d w.5 h in (n + 1, rw (p, s, e, i, nearest) refl)
        | inr e ↦ let (n, i) = descend_lem l d w.4 h in (n + 1, rw (p, s, e, i, nearest) refl)
      ]

  -- No other leaf has the bits that lead to this one.
  pub Holds-nearest :
      (t : Tree) (d : List ℕ) (x : ℕ)
      → IsTree t
      → Holds x t
      → SameTo 256 (digest x) d
      → nearest t d ≡ x
  unfolding nearest
  Holds-nearest (node oh) d x w h e = sym h
  Holds-nearest (y k l r) d x w (inl h) e =
      let b : bit d k.critbit ≡ false = sym (e k.critbit w.0.0) ∙ w.1 x h in
      rw (b, nearest) (Holds-nearest l d x w.4 h e)
  Holds-nearest (y k l r) d x w (inr h) e =
      let b : bit d k.critbit ≡ true = sym (e k.critbit w.0.0) ∙ w.2 x h in
      rw (b, nearest) (Holds-nearest r d x w.5 h e)

  -- Two objheads of a tree never have the same digest.
  pub Holds-unique :
      (t : Tree) (x z : ℕ)
      → IsTree t
      → Holds x t
      → Holds z t
      → Same digest_len (digest x) (digest z)
      → x ≡ z
  Holds-unique t x z w hx hz e =
      sym (Holds-nearest t (digest z) x w hx (Same-SameTo 32 _ _ e))
      ∙ Holds-nearest t (digest z) z w hz (λ j lt. refl)
