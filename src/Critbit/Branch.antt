-- ===== src/Critbit/Branch.antt =====
-- The trees that hcb_insert's second loop builds: the new y, and the ones above it.
use varnish.Prelude.{
  ℕ, ◌≡◌, ◌⊎◌, ◌↔◌, refl, sym, ap, ◌∙◌, true, false, not, List, Bool-cases, inl, inr,
}
use varnish.Critbit.{Y, Tree, y, side, branch}
use varnish.Critbit.Crit.{IsDigest, SameTo, IsY, bit, side_lem}
use varnish.Critbit.Inv.{Holds, IsTree}

module _ (digest : ℕ → List ℕ) where
  -- `t1` is a tree of what stands in `t`, and `oh`.
  abbrev pub Extends : Tree → ℕ → Tree → Type 0
  Extends t oh t1 = IsTree digest t1 × ((x : ℕ) → Holds x t1 ↔ (Holds x t ⊎ (x ≡ oh)))

  -- Where all leaves have the new digest's bits before the critical one, and not that bit.
  pub branch-Extends :
      (t : Tree) (oh : ℕ) (k : Y)
      → IsTree digest t
      → IsDigest (digest oh)
      → IsY k
      → ((x : ℕ) → Holds x t → SameTo k.critbit (digest x) (digest oh))
      → ((x : ℕ) → Holds x t → bit (digest x) k.critbit ≡ not (bit (digest oh) k.critbit))
      → Extends t oh (branch (side (digest oh) k) k oh t)
  unfolding branch
  branch-Extends t oh k w h i same apart =
      let s = side_lem (digest oh) k h i in
      elim (Bool-cases (bit (digest oh) k.critbit)) [
        | inl e ↦
            rw (s, e, branch)
              (
                (i, λ x hx. apart x hx ∙ ap not e, λ x hx. rw hx e, λ x z. both x z, w, h),
                λ x. (λ h. h, λ h. h),
              )
        | inr e ↦
            rw (s, e, branch)
              (
                (
                  i,
                  λ x hx. rw hx e,
                  λ x hx. apart x hx ∙ ap not e,
                  λ x z hx hz. both x z (swap x hx) (swap z hz),
                  h,
                  w,
                ),
                λ x. (swap x, back x),
              )
      ]
    where
      both :
          (x z : ℕ)
          → Holds x t ⊎ (x ≡ oh)
          → Holds z t ⊎ (z ≡ oh)
          → SameTo k.critbit (digest x) (digest z)
      both x z (inl hx) (inl hz) = λ j lt. same x hx j lt ∙ sym (same z hz j lt)
      both x z (inl hx) (inr hz) = λ j lt. rw hz (same x hx j lt)
      both x z (inr hx) (inl hz) = λ j lt. rw hx (sym (same z hz j lt))
      both x z (inr hx) (inr hz) = λ j lt. rw (hx, hz) refl

      swap : (x : ℕ) → (x ≡ oh) ⊎ Holds x t → Holds x t ⊎ (x ≡ oh)
      swap x (inl h) = inr h
      swap x (inr h) = inl h

      back : (x : ℕ) → Holds x t ⊎ (x ≡ oh) → (x ≡ oh) ⊎ Holds x t
      back x (inl h) = inr h
      back x (inr h) = inl h

  -- What an ancestor of the place needs: the new leaf has the bits that all its leaves share.
  joined :
      (t : Tree) (c oh : ℕ)
      → ((x z : ℕ) → Holds x t → Holds z t → SameTo c (digest x) (digest z))
      → (near : ℕ) × Holds near t × SameTo c (digest oh) (digest near)
      → (x z : ℕ) → Holds x t ⊎ (x ≡ oh)
      → Holds z t ⊎ (z ≡ oh)
      → SameTo c (digest x) (digest z)
  joined t c oh all near x z (inl hx) (inl hz) = all x z hx hz
  joined t c oh all (a, ha, e) x z (inl hx) (inr hz) =
      λ j lt. rw hz (all x a hx ha j lt ∙ sym (e j lt))
  joined t c oh all (a, ha, e) x z (inr hx) (inl hz) = λ j lt. rw hx (e j lt ∙ all a z ha hz j lt)
  joined t c oh all near x z (inr hx) (inr hz) = λ j lt. rw (hx, hz) refl

  pub right-Extends :
      (k : Y) (l r t1 : Tree) (oh : ℕ)
      → IsTree digest (y k l r)
      → Extends r oh t1
      → bit (digest oh) k.critbit ≡ true
      → (near : ℕ) × Holds near (y k l r) × SameTo k.critbit (digest oh) (digest near)
      → Extends (y k l r) oh (y k l t1)
  right-Extends k l r t1 oh w ext b near = (
    (
      w.0,
      w.1,
      λ x hx. elim ((ext.1 x).0 hx) [ inl h ↦ w.2 x h | inr h ↦ rw h b ],
      λ x z hx hz. joined (y k l r) k.critbit oh w.3 near x z (from x hx) (from z hz),
      w.4,
      ext.0,
    ),
    λ x. (from x, to x),
  )
    where
      from : (x : ℕ) → Holds x l ⊎ Holds x t1 → (Holds x l ⊎ Holds x r) ⊎ (x ≡ oh)
      from x (inl h) = inl (inl h)
      from x (inr h) = elim ((ext.1 x).0 h) [ inl g ↦ inl (inr g) | inr g ↦ inr g ]

      to : (x : ℕ) → (Holds x l ⊎ Holds x r) ⊎ (x ≡ oh) → Holds x l ⊎ Holds x t1
      to x (inl (inl h)) = inl h
      to x (inl (inr h)) = inr ((ext.1 x).1 (inl h))
      to x (inr h) = inr ((ext.1 x).1 (inr h))

  pub left-Extends :
      (k : Y) (l r t1 : Tree) (oh : ℕ)
      → IsTree digest (y k l r)
      → Extends l oh t1
      → bit (digest oh) k.critbit ≡ false
      → (near : ℕ) × Holds near (y k l r) × SameTo k.critbit (digest oh) (digest near)
      → Extends (y k l r) oh (y k t1 r)
  left-Extends k l r t1 oh w ext b near = (
    (
      w.0,
      λ x hx. elim ((ext.1 x).0 hx) [ inl h ↦ w.1 x h | inr h ↦ rw h b ],
      w.2,
      λ x z hx hz. joined (y k l r) k.critbit oh w.3 near x z (from x hx) (from z hz),
      ext.0,
      w.5,
    ),
    λ x. (from x, to x),
  )
    where
      from : (x : ℕ) → Holds x t1 ⊎ Holds x r → (Holds x l ⊎ Holds x r) ⊎ (x ≡ oh)
      from x (inr h) = inl (inr h)
      from x (inl h) = elim ((ext.1 x).0 h) [ inl g ↦ inl (inl g) | inr g ↦ inr g ]

      to : (x : ℕ) → (Holds x l ⊎ Holds x r) ⊎ (x ≡ oh) → Holds x t1 ⊎ Holds x r
      to x (inl (inr h)) = inr h
      to x (inl (inl h)) = inl ((ext.1 x).1 (inl h))
      to x (inr h) = inl ((ext.1 x).1 (inr h))
