-- ===== src/Critbit/Insert.antt =====
-- hcb_insert: the second loop puts the new y where the tree stays a critical-bit tree.
use varnish.Prelude.{
  ℕ, ◌+◌, ◌<◌, ◌≤◌, ◌≡◌, ◌≢◌, refl, sym, ◌∙◌, Bool, true, false, not, ltb, lt→ltb, arith, List,
  Bool-cases, inl, inr,
}
use mathlib.Core.Path.{subst}
use varnish.Prelude.Checked.{ok}
use varnish.Critbit.{Y, Tree, node, y, place}
use varnish.Critbit.Crit.{IsDigest, SameTo, IsCrit, bit, side_lem}
use varnish.Critbit.Branch.{Extends, branch-Extends, right-Extends, left-Extends}
use varnish.Critbit.Inv.{Holds, IsTree, nearest, nearest_left, nearest_right, nearest-Holds}

bits_apart : {p q : Bool} → p ≢ q → p ≡ not q
bits_apart {p = true} {q = true} n = absurd (n refl)
bits_apart {p = true} {q = false} n = refl
bits_apart {p = false} {q = true} n = refl
bits_apart {p = false} {q = false} n = absurd (n refl)

module _ (digest : ℕ → List ℕ) where
  -- `k` sits where it tells `oh` from the leaf that `oh` leads to.
  abbrev pub Tells : Y → Tree → ℕ → Type 0
  Tells k t oh = IsCrit k (digest oh) (digest (nearest t (digest oh)))

  -- All leaves of a subtree that the critical bit comes before.
  leaves_agree :
      (t : Tree) (oh : ℕ) (k2 : Y)
      → Tells k2 t oh
      → ((x z : ℕ) → Holds x t → Holds z t → SameTo (k2.critbit + 1) (digest x) (digest z))
      → ((x : ℕ) → Holds x t → SameTo k2.critbit (digest x) (digest oh))
        × ((x : ℕ) → Holds x t → bit (digest x) k2.critbit ≡ not (bit (digest oh) k2.critbit))
  leaves_agree t oh k2 c all =
      let near = nearest-Holds t (digest oh) in
      (
        λ x hx j lt. all x _ hx near j (omega arith) ∙ sym (c.1 j lt),
        λ x hx. all x _ hx near k2.critbit (omega arith) ∙ bits_apart (λ e. c.2 (sym e)),
      )

  critbits_apart :
      (k k2 : Y) (oh x : ℕ)
      → k.critbit ≤ k2.critbit
      → IsCrit k2 (digest oh) (digest x)
      → bit (digest x) k.critbit ≡ bit (digest oh) k.critbit
      → k.critbit < k2.critbit
  critbits_apart k k2 oh x le c e =
      let ne : k.critbit ≢ k2.critbit =
        λ q. c.2 (sym (subst (λ j. bit (digest x) j ≡ bit (digest oh) j) q e)) in
      ground (arith, ne)

  pub place_lem :
      (t : Tree) (oh : ℕ) (k2 : Y)
      → IsTree digest t
      → IsDigest (digest oh)
      → Tells k2 t oh
      → (t1 : Tree) × (n : ℕ) × (place t k2 oh (digest oh) ≡ ok (t1, n)) × Extends digest t oh t1
  unfolding place
  place_lem (node o) oh k2 w h c =
      let (same, apart) = leaves_agree (node o) oh k2 c (λ x z hx hz j lt. rw (hx, hz) refl) in
      (_, 0, refl, branch-Extends digest (node o) oh k2 w h c.0 same apart)
  place_lem (y k l r) oh k2 w h c = elim (Bool-cases (ltb k2.critbit k.critbit)) [
    | inl e ↦
        let lt : k2.critbit < k.critbit = ground arith in
        let all : (x z : ℕ)
            → Holds x (y k l r)
            → Holds z (y k l r)
            → SameTo (k2.critbit + 1) (digest x) (digest z) =
          λ x z hx hz j le. w.3 x z hx hz j (omega (arith, lt, le)) in
        let (same, apart) = leaves_agree (y k l r) oh k2 c all in
        (_, 0, rw (e, place) refl, branch-Extends digest (y k l r) oh k2 w h c.0 same apart)
    | inr e ↦
        let le : k.critbit ≤ k2.critbit = ground arith in
        let p : ltb k.ptr 32 ≡ true = lt→ltb _ _ (omega (arith, w.0.0, w.0.1)) in
        let s = side_lem (digest oh) k h w.0 in
        elim (Bool-cases (bit (digest oh) k.critbit)) [
          | inl b ↦
              let c1 =
                subst (λ x. IsCrit k2 (digest oh) (digest x)) (nearest_right k l r (digest oh) b)
                  c in
              let near = nearest-Holds r (digest oh) in
              let lt = critbits_apart k k2 oh _ le c1 (w.2 _ near ∙ sym b) in
              let (t1, n, run, ext) = place_lem r oh k2 w.5 h c1 in
              (
                y k l t1,
                n + 1,
                rw (place, e, p, s, b, run) refl,
                right-Extends digest k l r t1 oh w ext b (_, inr near, λ j h. c1.1 j (omega arith)),
              )
          | inr b ↦
              let c1 =
                subst (λ x. IsCrit k2 (digest oh) (digest x)) (nearest_left k l r (digest oh) b)
                  c in
              let near = nearest-Holds l (digest oh) in
              let lt = critbits_apart k k2 oh _ le c1 (w.1 _ near ∙ sym b) in
              let (t1, n, run, ext) = place_lem l oh k2 w.4 h c1 in
              (
                y k t1 r,
                n + 1,
                rw (place, e, p, s, b, run) refl,
                left-Extends digest k l r t1 oh w ext b (_, inl near, λ j h. c1.1 j (omega arith)),
              )
        ]
  ]
