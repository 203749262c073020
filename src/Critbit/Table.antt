-- ===== src/Critbit/Table.antt =====
-- hcb_insert and hcb_delete as operations on a map from digests to objheads.
use varnish.Prelude.{
  ℕ, ◌+◌, ◌≡◌, ◌≢◌, ◌⊎◌, ◌↔◌, refl, sym, ap, true, false, arith, List, Bool-cases, inl, inr, Option,
  none, some,
}
use mathlib.Core.Path.{subst}
use varnish.Prelude.Checked.{ok}
use varnish.Critbit.{Tree, node, is_r_node, digest_len, Root, insert, insert_at, delete, same_bytes}
use varnish.Critbit.Crit.{IsDigest, Same, Same-SameTo, same_bytes_iff, crit_bit_lem}
use varnish.Critbit.Inv.{
  Holds, IsTree, IsTree-IsDigest, nearest, nearest-Holds, descend_lem, Holds-nearest,
}
use varnish.Critbit.Insert.{place_lem}
use varnish.Critbit.Delete.{remove_lem, is_r_node-Holds}

-- The objhead stands in the tree below `origo`.
abbrev pub Stands : ℕ → Option Tree → Type 0
Stands x none = ⊥
Stands x (some t) = Holds x t

abbrev pub IsHash : (ℕ → List ℕ) → Option Tree → Type 0
IsHash digest none = Unit {0}
IsHash digest (some t) = IsTree digest t

abbrev root_of : Option Tree → ℕ → Root
root_of origo cmps = record { origo = origo; cmps = cmps }

module _ (digest : ℕ → List ℕ) where
  -- What a look for a digest gives: an objhead exactly where one with that digest stands.
  abbrev pub Finds : Option ℕ → Option Tree → List ℕ → Type 0
  Finds found origo d = (x : ℕ) → (found ≡ some x) ↔ (Stands x origo × Same digest_len (digest x) d)

  found_near :
      (t : Tree) (d : List ℕ)
      → IsTree digest t
      → Same digest_len (digest (nearest t d)) d
      → Finds (some (nearest t d)) (some t) d
  found_near t d w e = λ x. (
    λ q.
        let n : nearest t d ≡ x = ground (arith, q) in
        subst (λ z. Holds z t × Same digest_len (digest z) d) n (nearest-Holds t d, e),
    λ s. ap some (Holds-nearest digest t d x w s.0 (Same-SameTo 32 _ _ s.1)),
  )

  found_nothing :
      (t : Tree) (d : List ℕ)
      → IsTree digest t
      → (Same digest_len (digest (nearest t d)) d → ⊥)
      → Finds none (some t) d
  found_nothing t d w n = λ x. (
    λ q. cc,
    λ s.
        let e = Holds-nearest digest t d x w s.0 (Same-SameTo 32 _ _ s.1) in
        absurd (n (subst (λ z. Same digest_len (digest z) d) (sym e) s.1)),
  )

  lookup_from :
      (origo : Option Tree) (cmps oh : ℕ)
      → IsHash digest origo
      → IsDigest (digest oh)
      → (found : Option ℕ) × (n : ℕ) × (insert digest (root_of origo cmps) oh false
          ≡ ok (found, root_of origo n))
        × Finds found origo (digest oh)
  unfolding insert insert_at
  lookup_from none cmps oh w h = (none, cmps, refl, λ x. (λ e. cc, λ s. absurd s.0))
  lookup_from (some t) cmps oh w h =
      let (n, run) = descend_lem digest t (digest oh) w h in
      let same = same_bytes_iff 32 (digest (nearest t (digest oh))) (digest oh) in
      elim (Bool-cases (same_bytes 32 (digest (nearest t (digest oh))) (digest oh))) [
        | inl e ↦ (_, cmps + n, rw (run, e, insert_at) refl, found_near t (digest oh) w (same.0 e))
        | inr e ↦ (
          _,
          cmps + n,
          rw (run, e, insert_at) refl,
          found_nothing t (digest oh) w (λ s. ground (arith, same.1 s, e)),
        )
      ]

  -- Without the lock hcb_insert only looks. On a critical-bit tree it asserts nothing that fails,
  -- changes nothing but the count of comparisons, and finds an objhead exactly where one with the
  -- digest stands in the tree, and then that one.
  pub insert_lookup :
      (root : Root) (oh : ℕ)
      → IsHash digest root.origo
      → IsDigest (digest oh)
      → (found : Option ℕ) × (n : ℕ) × (insert digest root oh false
          ≡ ok (found, record root { cmps = n }))
        × Finds found root.origo (digest oh)
  insert_lookup root oh w h = lookup_from root.origo root.cmps oh w h

  -- What hcb_insert does with the lock: the objhead `x` that it returns has the digest and stands in
  -- the tree, in which nothing else has changed. It is `oh` unless another one stood there.
  abbrev pub Inserted : Option Tree → ℕ → ℕ → Option Tree → Type 0
  Inserted origo oh x origo1 =
      IsHash digest origo1
      × Same digest_len (digest x) (digest oh)
      × ((x ≡ oh) ⊎ Stands x origo)
      × ((z : ℕ) → Stands z origo1 ↔ (Stands z origo ⊎ (z ≡ x)))

  insert_from :
      (origo : Option Tree) (cmps oh : ℕ)
      → IsHash digest origo
      → IsDigest (digest oh)
      → (x : ℕ) × (root1 : Root) × (insert digest (root_of origo cmps) oh true ≡ ok (some x, root1))
        × Inserted origo oh x root1.origo
  unfolding insert insert_at
  insert_from none cmps oh w h = (
    oh,
    root_of (some (node oh)) cmps,
    refl,
    (h, λ i lt. refl, inl refl, λ z. (λ e. inr e, λ e. elim e [ inl f ↦ absurd f | inr e ↦ e ])),
  )
  insert_from (some t) cmps oh w h =
      let d = digest oh in
      let (n, run) = descend_lem digest t d w h in
      let near = nearest-Holds t d in
      let same = same_bytes_iff 32 (digest (nearest t d)) d in
      elim (Bool-cases (same_bytes 32 (digest (nearest t d)) d)) [
        | inl e ↦ (
          _,
          root_of (some t) (cmps + n),
          rw (run, e, insert_at) refl,
          (
            w,
            same.0 e,
            inr near,
            λ z. (
              λ s. inl s,
              λ s. elim s [ inl s ↦ s | inr q ↦ subst (λ z. Holds z t) (sym q) near ],
            ),
          ),
        )
        | inr e ↦
            let apart : Same digest_len d (digest (nearest t d)) → ⊥ =
              λ s. ground (arith, same.1 (λ i lt. sym (s i lt)), e) in
            let hn = IsTree-IsDigest digest t (nearest t d) w near in
            let (k2, crit, is, own) = crit_bit_lem oh d (digest (nearest t d)) h hn apart in
            let (t1, m, put, ext) = place_lem digest t oh k2 w h is in
            (
              oh,
              root_of (some t1) (cmps + n + m),
              rw (run, e, crit, put, insert_at) refl,
              (ext.0, λ i lt. refl, inl refl, ext.1),
            )
      ]

  -- With the lock hcb_insert keeps the critical-bit tree, asserts nothing that fails, and returns the
  -- one objhead of the tree that has the digest: `oh`, which it has put there, unless another stood
  -- there before. Nothing else comes or goes.
  pub insert-IsHash :
      (root : Root) (oh : ℕ)
      → IsHash digest root.origo
      → IsDigest (digest oh)
      → (x : ℕ) × (root1 : Root) × (insert digest root oh true ≡ ok (some x, root1))
        × Inserted root.origo oh x root1.origo
  insert-IsHash root oh w h = insert_from root.origo root.cmps oh w h

  delete_from :
      (origo : Option Tree) (cmps oh : ℕ)
      → IsHash digest origo
      → Stands oh origo
      → (root1 : Root) × (delete (root_of origo cmps) oh (digest oh) ≡ ok root1)
        × IsHash digest root1.origo
        × ((z : ℕ) → Stands z root1.origo ↔ (Stands z origo × (z ≢ oh)))
  unfolding delete
  delete_from none cmps oh w h = absurd h
  delete_from (some t) cmps oh w h = elim (Bool-cases (is_r_node t oh)) [
    | inl e ↦ (
      root_of none cmps,
      rw (e, delete) refl,
      tt,
      λ z. (λ f. absurd f, λ s. absurd (s.1 (is_r_node-Holds t oh z e s.0))),
    )
    | inr e ↦
        let (t1, n, run, drops) = remove_lem digest t oh e w h in
        (root_of (some t1) (cmps + n), rw (e, run, delete) refl, drops.0, drops.1)
  ]

  -- hcb_delete of an objhead that stands in the tree asserts nothing that fails, keeps the
  -- critical-bit tree, and takes that objhead out and no other.
  pub delete-IsHash :
      (root : Root) (oh : ℕ)
      → IsHash digest root.origo
      → Stands oh root.origo
      → (root1 : Root) × (delete root oh (digest oh) ≡ ok root1)
        × IsHash digest root1.origo
        × ((z : ℕ) → Stands z root1.origo ↔ (Stands z root.origo × (z ≢ oh)))
  delete-IsHash root oh w h = delete_from root.origo root.cmps oh w h
