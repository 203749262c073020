-- ===== src/Critbit/Cleaner.antt =====
-- hcb_cleaner: an objhead that nobody uses leaves `laylow` when it is cold.
use varnish.Prelude.{
  ℕ, zero, suc, ◌+◌, ◌<◌, ◌≤◌, ◌≡◌, ◌≢◌, ◌%◌, refl, sym, ap, ◌∙◌, Bool, true, false, ltb, arith,
  List, [], ◌∷◌, set, length, Bool-cases, inl, inr, get_or, ◌==◌, ==_iff,
}
use mathlib.Core.Path.{subst}
use varnish.Prelude.Checked.{Checked, ok, ◌>>=◌}
use varnish.Prelude.Maps.{write, write_self, write_ne}
use varnish.Critbit.Hash.{Hash, sweep, sweep_list, used}
use varnish.Critbit.Refs.{In}

abbrev pub IsDistinct : List ℕ → Type 0
IsDistinct [] = Unit {0}
IsDistinct (x ∷ xs) = (In x xs → ⊥) × IsDistinct xs

abbrev age : List ℕ → ℕ
age d = (get_or d 0 0 + 1) % 256

-- What one round does to an objhead on the list whose y is out of the tree, and digest `d`.
abbrev Ages : ℕ → List ℕ → List ℕ → List ℕ → List ℕ → Type 0
Ages x d d1 kept gone = (d1 ≡ set d 0 (age d)) × (age d ≤ 60 → In x kept) × (60 < age d → In x gone)

Ages-cons_kept :
    (x oh : ℕ) (d d1 kept gone : List ℕ) → Ages x d d1 kept gone → Ages x d d1 (oh ∷ kept) gone
Ages-cons_kept x oh d d1 kept gone a = (a.0, λ h. inr (a.1 h), a.2)

Ages-cons_gone :
    (x oh : ℕ) (d d1 kept gone : List ℕ) → Ages x d d1 kept gone → Ages x d d1 kept (oh ∷ gone)
Ages-cons_gone x oh d d1 kept gone a = (a.0, a.1, λ h. inr (a.2 h))

-- One round over a list without repetition.
abbrev Round : (ℕ → Bool) → List ℕ → (ℕ → List ℕ) → (ℕ → List ℕ) → List ℕ → List ℕ → Type 0
Round used l d d1 kept gone =
    ((x : ℕ) → (In x l → ⊥) → d1 x ≡ d x)
    × ((x : ℕ) → In x l → used x ≡ false → Ages x (d x) (d1 x) kept gone)
    × ((x : ℕ) → In x kept → In x l)
    × IsDistinct kept

sweep_list-Round :
    (refcnt : ℕ → ℕ) (used : ℕ → Bool) (l : List ℕ) (d : ℕ → List ℕ)
    → IsDistinct l
    → ((x : ℕ) → In x l → refcnt x ≡ 0)
    → (d1 : ℕ → List ℕ) × (kept : List ℕ) × (gone : List ℕ) × (sweep_list refcnt used l d
        ≡ ok (d1, kept, gone))
      × Round used l d d1 kept gone
unfolding sweep_list
sweep_list-Round refcnt used [] d dist low =
    (d, [], [], refl, (λ x n. refl, λ x h. absurd h, λ x h. h, tt))
sweep_list-Round refcnt used (oh ∷ rest) d dist low =
    let z : (refcnt oh == 0) ≡ true = (==_iff _ _).1 (low oh (inl refl)) in
    let low1 = λ (x : ℕ) (h : In x rest). low x (inr h) in
    elim (Bool-cases (used oh)) [
      | inl u ↦
          let (d1, kept, gone, run, (same, ages, sub, dk)) =
            sweep_list-Round refcnt used rest d dist.1 low1 in
          (
            d1,
            oh ∷ kept,
            gone,
            rw (z, u, run) refl,
            (
              λ x n. same x (λ h. n (inr h)),
              λ x h un. elim h [
                | inl e ↦ absurd (let t = ap used e in cc)
                | inr h ↦ Ages-cons_kept x oh (d x) (d1 x) kept gone (ages x h un)
              ],
              λ x h. elim h [ inl e ↦ inl e | inr g ↦ inr (sub x g) ],
              (λ h. dist.0 (sub oh h), dk),
            ),
          )
      | inr u ↦
          let aged = set (d oh) 0 (age (d oh)) in
          let d2 = write d oh aged in
          let (d1, kept, gone, run, (same, ages, sub, dk)) =
            sweep_list-Round refcnt used rest d2 dist.1 low1 in
          let self : d1 oh ≡ aged = same oh dist.0 ∙ write_self d oh aged in
          let out : (x : ℕ) → (In x (oh ∷ rest) → ⊥) → d1 x ≡ d x =
            λ x n. same x (λ h. n (inr h)) ∙ write_ne d oh x aged (λ e. n (inl e)) in
          let inner : (x : ℕ) → In x rest → used x ≡ false → Ages x (d x) (d1 x) kept gone =
            λ x h un.
              let ne : x ≢ oh = λ e. dist.0 (subst (λ z. In z rest) e h) in
              subst (λ q. Ages x q (d1 x) kept gone) (write_ne d oh x aged ne) (ages x h un) in
          elim (Bool-cases (ltb 60 (age (d oh)))) [
            | inl t ↦ (
              d1,
              kept,
              oh ∷ gone,
              rw (z, u, run, t) refl,
              (
                out,
                λ x h un. elim h [
                  | inl e ↦
                      subst (λ q. Ages q (d q) (d1 q) kept (oh ∷ gone)) (sym e)
                        (self, λ le. absurd (ground (arith, le, t)), λ lt. inl refl)
                  | inr h ↦ Ages-cons_gone x oh (d x) (d1 x) kept gone (inner x h un)
                ],
                λ x h. inr (sub x h),
                dk,
              ),
            )
            | inr t ↦ (
              d1,
              oh ∷ kept,
              gone,
              rw (z, u, run, t) refl,
              (
                out,
                λ x h un. elim h [
                  | inl e ↦
                      subst (λ q. Ages q (d q) (d1 q) (oh ∷ kept) gone) (sym e)
                        (self, λ le. inl refl, λ lt. absurd (ground (arith, lt, t)))
                  | inr h ↦ Ages-cons_kept x oh (d x) (d1 x) kept gone (inner x h un)
                ],
                λ x h. elim h [ inl e ↦ inl e | inr g ↦ inr (sub x g) ],
                (λ h. dist.0 (sub oh h), dk),
              ),
            )
          ]
    ]

-- `n` rounds of the cleaner; `gone` is what the last of them deletes.
abbrev pub sweeps : ℕ → Hash → Checked Hash
sweeps zero h = ok h
sweeps (suc n) h = sweep h >>= (λ (gone, h1). sweeps n h1)

-- An objhead that waits on `laylow`, its y out of the tree, for `n` rounds so far.
abbrev pub IsWaiting : ℕ → ℕ → Hash → Type 0
IsWaiting n x h =
    IsDistinct h.laylow
    × ((z : ℕ) → In z h.laylow → h.refcnt z ≡ 0)
    × In x h.laylow
    × (used h.root.origo x ≡ false)
    × (0 < length (h.digest x))
    × (get_or (h.digest x) 0 0 ≡ n)

first_byte :
    (d : List ℕ) (v : ℕ) → 0 < length d → (get_or (set d 0 v) 0 0 ≡ v) × (0 < length (set d 0 v))
first_byte [] v h = absurd (omega arith)
first_byte (b ∷ d) v h = (refl, omega arith)

-- Before the last round
sweep-IsWaiting :
    (n x : ℕ) (h : Hash)
    → IsWaiting n x h
    → n < 60
    → (gone : List ℕ) × (h1 : Hash) × (sweep h ≡ ok (gone, h1)) × IsWaiting (n + 1) x h1
unfolding sweep
sweep-IsWaiting n x h (dist, low, on, out, len, age_n) lt =
    let (d1, kept, gone, run, (same, ages, sub, dk)) =
      sweep_list-Round h.refcnt (used h.root.origo) h.laylow h.digest dist low in
    let (dx, stays, leaves) = ages x on out in
    let now : age (h.digest x) ≡ n + 1 = omega arith in
    let (byte, long) = first_byte (h.digest x) (age (h.digest x)) len in
    (
      gone,
      record h { digest = d1; laylow = kept },
      rw run refl,
      (dk, λ z hz. low z (sub z hz), stays (omega arith), out, rw dx long, rw dx (byte ∙ now)),
    )

sweeps-IsWaiting :
    (k n x : ℕ) (h : Hash)
    → IsWaiting n x h
    → n + k ≤ 60
    → (h1 : Hash) × (sweeps k h ≡ ok h1) × IsWaiting (n + k) x h1
sweeps-IsWaiting zero n x h w le = let e : n + 0 ≡ n = omega arith in (h, refl, rw e w)
sweeps-IsWaiting (suc k) n x h w le =
    let (gone, h1, run, w1) = sweep-IsWaiting n x h w (omega arith) in
    let (h2, runs, w2) = sweeps-IsWaiting k (n + 1) x h1 w1 (omega arith) in
    let e : n + 1 + k ≡ n + suc k = omega arith in
    (h2, rw run runs, subst (λ m. IsWaiting m x h2) e w2)

-- An objhead that hcb_deref has put on `laylow`, which counts no round yet, stays there for sixty
-- rounds of hcb_cleaner and is handed to HSH_DeleteObjHead in the next one, if the tree does not
-- use its y and nothing else works on the table; no assertion fails on the way.
pub sweeps-delete :
    (x : ℕ) (h : Hash)
    → IsWaiting 0 x h
    → (h1 h2 : Hash) × (gone : List ℕ) × (sweeps 60 h ≡ ok h1)
      × In x h1.laylow
      × (sweep h1 ≡ ok (gone, h2))
      × In x gone
unfolding sweep
sweeps-delete x h w =
    let (h1, runs, (dist, low, on, out, len, age_n)) = sweeps-IsWaiting 60 0 x h w (omega arith) in
    let (d1, kept, gone, run, (same, ages, sub, dk)) =
      sweep_list-Round h1.refcnt (used h1.root.origo) h1.laylow h1.digest dist low in
    let (dx, stays, leaves) = ages x on out in
    (
      h1,
      record h1 { digest = d1; laylow = kept },
      gone,
      runs,
      on,
      rw run refl,
      leaves (omega arith),
    )
