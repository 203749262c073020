-- ===== src/Critbit/Refs.antt =====
-- The reference counts of the objheads, through hcb_lookup and hcb_deref.
use varnish.Prelude.{
  ℕ, ◌-◌, ◌<◌, ◌≡◌, ◌≢◌, ◌⊎◌, ◌↔◌, refl, sym, true, ltb, lt→ltb, arith, List, [], ◌∷◌, ◌++◌, set,
  Bool-cases, inl, inr, Option, none, some, ◌==◌, ==_iff,
}
use varnish.Prelude.Checked.{ok}
use varnish.Prelude.Maps.{write, write_self, write_ne}
use varnish.Critbit.{Tree, node, y}
use varnish.Critbit.Inv.{Holds, IsTree}
use varnish.Critbit.Table.{Stands, IsHash, delete-IsHash}
use varnish.Critbit.Hash.{Hash, deref}

abbrev pub In : ℕ → List ℕ → Type 0
In x [] = ⊥
In x (z ∷ zs) = (x ≡ z) ⊎ In x zs

In-append : (x : ℕ) (l m : List ℕ) → In x (l ++ m) → In x l ⊎ In x m
In-append x [] m h = inr h
In-append x (z ∷ zs) m (inl h) = inl (inl h)
In-append x (z ∷ zs) m (inr h) = elim (In-append x zs m h) [ inl g ↦ inl (inr g) | inr g ↦ inr g ]

In-last : (x : ℕ) (l : List ℕ) → In x (l ++ (x ∷ []))
In-last x [] = inl refl
In-last x (z ∷ zs) = inr (In-last x zs)

-- The tree is a critical-bit tree of objheads in use, and those on `laylow` are not in use.
abbrev pub IsCounted : Hash → Type 0
IsCounted h =
    IsHash h.digest h.root.origo
    × ((x : ℕ) → Stands x h.root.origo → 0 < h.refcnt x)
    × ((x : ℕ) → In x h.laylow → h.refcnt x ≡ 0)

-- A tree reads only the digests of its leaves.
IsTree-congr :
    (d1 d2 : ℕ → List ℕ) (t : Tree)
    → ((x : ℕ) → Holds x t → d1 x ≡ d2 x)
    → IsTree d1 t
    → IsTree d2 t
IsTree-congr d1 d2 (node oh) e w = λ i. rw (sym (e oh refl)) (w i)
IsTree-congr d1 d2 (y k l r) e w = (
  w.0,
  λ x hx. rw (sym (e x (inl hx))) (w.1 x hx),
  λ x hx. rw (sym (e x (inr hx))) (w.2 x hx),
  λ x z hx hz j lt. rw (sym (e x hx), sym (e z hz)) (w.3 x z hx hz j lt),
  IsTree-congr d1 d2 l (λ x h. e x (inl h)) w.4,
  IsTree-congr d1 d2 r (λ x h. e x (inr h)) w.5,
)

IsHash-congr :
    (d1 d2 : ℕ → List ℕ) (t : Option Tree)
    → ((x : ℕ) → Stands x t → d1 x ≡ d2 x)
    → IsHash d1 t
    → IsHash d2 t
IsHash-congr d1 d2 none e w = tt
IsHash-congr d1 d2 (some t) e w = IsTree-congr d1 d2 t e w

-- hcb_deref of an objhead that stands in the table, whose queues are empty, asserts nothing that
-- fails and gives one reference back. The last one takes the objhead out of the tree, and no other,
-- and puts it on `laylow`; any other leaves tree and list alone. The table stays in order.
pub deref-IsCounted :
    (h : Hash) (oh : ℕ)
    → IsCounted h
    → Stands oh h.root.origo
    → h.idle oh ≡ true
    → (h1 : Hash) × (deref h oh ≡ ok (1, h1))
      × IsCounted h1
      × (h1.refcnt oh ≡ h.refcnt oh - 1)
      × ((h.refcnt oh ≡ 1)
          → ((x : ℕ) → Stands x h1.root.origo ↔ (Stands x h.root.origo × (x ≢ oh)))
            × In oh h1.laylow)
      × (h.refcnt oh ≢ 1 → (h1.root ≡ h.root) × (h1.laylow ≡ h.laylow))
unfolding deref
deref-IsCounted h oh w s i =
    let pos = w.1 oh s in
    let p : ltb 0 (h.refcnt oh) ≡ true = lt→ltb _ _ pos in
    elim (Bool-cases (h.refcnt oh == 1)) [
      | inr e ↦
          let refcnt = write h.refcnt oh (h.refcnt oh - 1) in
          let live : (x : ℕ) → Stands x h.root.origo → 0 < refcnt x =
            λ x hx. ground (arith, w.1 x hx, e, pos) in
          let low : (x : ℕ) → In x h.laylow → refcnt x ≡ 0 = λ x hx. ground (arith, w.2 x hx) in
          (
            record h { refcnt = refcnt },
            rw (p, e) refl,
            (w.0, live, low),
            write_self h.refcnt oh (h.refcnt oh - 1),
            λ one. ground (arith, one, e),
            λ n. (refl, refl),
          )
      | inl e ↦
          let (root, run, is, drops) = delete-IsHash h.digest h.root oh w.0 s in
          let d = write h.digest oh (set (h.digest oh) 0 0) in
          let refcnt = write h.refcnt oh (h.refcnt oh - 1) in
          let one : h.refcnt oh ≡ 1 = (==_iff _ _).0 e in
          let kept : IsHash d root.origo =
            IsHash-congr h.digest d root.origo
              (λ x hx. sym (write_ne h.digest oh x _ ((drops x).0 hx).1)) is in
          let live : (x : ℕ) → Stands x root.origo → 0 < refcnt x = λ x hx.
            let (here, ne) = (drops x).0 hx in
            rw (write_ne h.refcnt oh x (h.refcnt oh - 1) ne) (w.1 x here) in
          let low : (x : ℕ) → In x (h.laylow ++ (oh ∷ [])) → refcnt x ≡ 0 = λ x hx.
            elim (In-append x h.laylow _ hx) [
              | inl g ↦ let z = w.2 x g in ground (arith, z)
              | inr g ↦ elim g [ inl q ↦ ground (arith, one, q) | inr f ↦ absurd f ]
            ] in
          (
            record h { root = root; digest = d; laylow = h.laylow ++ (oh ∷ []); refcnt = refcnt },
            rw (p, e, run, i) refl,
            (kept, live, low),
            write_self h.refcnt oh (h.refcnt oh - 1),
            λ _. (drops, In-last oh h.laylow),
            λ n. absurd (n one),
          )
    ]
