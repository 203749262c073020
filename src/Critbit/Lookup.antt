-- ===== src/Critbit/Lookup.antt =====
-- hcb_lookup: a new objhead meets the table.
use varnish.Prelude.{
  ℕ, ◌+◌, ◌<◌, ◌≡◌, ◌⊎◌, ◌↔◌, refl, sym, true, false, ltb, lt→ltb, arith, Bool-cases, inl, inr,
  ◌==◌, ==_iff, Option-cases,
}
use mathlib.Core.Path.{subst}
use varnish.Prelude.Checked.{ok}
use varnish.Prelude.Maps.{write}
use varnish.Critbit.{digest_len}
use varnish.Critbit.Crit.{IsDigest, Same}
use varnish.Critbit.Table.{Stands, insert_lookup, insert-IsHash}
use varnish.Critbit.Hash.{Hash, lookup_nolock, lookup_lock, lookup}
use varnish.Critbit.Refs.{In, IsCounted}

-- An objhead that is ready and stands nowhere yet: its one reference is the caller's.
abbrev pub IsNew : Hash → ℕ → Type 0
IsNew h noh =
    IsDigest (h.digest noh)
    × (h.refcnt noh ≡ 1)
    × (Stands noh h.root.origo → ⊥)
    × (In noh h.laylow → ⊥)

-- `h1` is `h` with a reference to `x`, which has the digest of `noh` and is `noh` itself unless
-- another objhead with that digest stood in the table.
abbrev pub IsFound : Hash → ℕ → ℕ → Hash → Type 0
IsFound h noh x h1 =
    IsCounted h1
    × Same digest_len (h.digest x) (h.digest noh)
    × ((z : ℕ) → Stands z h1.root.origo ↔ (Stands z h.root.origo ⊎ (z ≡ x)))
    × (((x ≡ noh) × (h1.refcnt ≡ h.refcnt))
        ⊎ (Stands x h.root.origo × (h1.refcnt ≡ write h.refcnt x (h.refcnt x + 1))))

one_more_live : (f : ℕ → ℕ) (x z : ℕ) → 0 < f z → 0 < write f x (f x + 1) z
one_more_live f x z h = ground arith

one_more_low : (f : ℕ → ℕ) (x z : ℕ) → 0 < f x → f z ≡ 0 → write f x (f x + 1) z ≡ 0
one_more_low f x z h e = ground arith

lock_lem :
    (h : Hash) (noh : ℕ)
    → IsCounted h
    → IsNew h noh
    → (x : ℕ) × (h1 : Hash) × (lookup_lock h noh ≡ ok (x, h1)) × IsFound h noh x h1
unfolding lookup_lock
lock_lem h noh w new =
    let one : (h.refcnt noh == 1) ≡ true = (==_iff _ _).1 new.1 in
    let (x, root, run, (is, same, from, all)) = insert-IsHash h.digest h.root noh w.0 new.0 in
    elim (Bool-cases (x == noh)) [
      | inl e ↦
          let e1 : x ≡ noh = (==_iff _ _).0 e in
          let p : ltb 0 (h.refcnt x) ≡ true = ground (arith, e1, new.1) in
          (
            x,
            record h { root = root; hcb_insert = h.hcb_insert + 1 },
            rw (one, run, p, e) refl,
            (
              (
                is,
                λ z hz. elim ((all z).0 hz) [
                  | inl g ↦ w.1 z g
                  | inr q ↦ rw (q, e1, new.1) (omega arith)
                ],
                w.2,
              ),
              same,
              all,
              inl (e1, refl),
            ),
          )
      | inr e ↦
          let there : Stands x h.root.origo = elim from [
            | inl q ↦ absurd (let t = (==_iff x noh).1 q in cc)
            | inr s ↦ s
          ] in
          let pos = w.1 x there in
          let p : ltb 0 (h.refcnt x) ≡ true = lt→ltb _ _ pos in
          let refcnt = write h.refcnt x (h.refcnt x + 1) in
          let live : (z : ℕ) → Stands z root.origo → 0 < refcnt z = λ z hz. elim ((all z).0 hz) [
            | inl g ↦ one_more_live h.refcnt x z (w.1 z g)
            | inr q ↦ one_more_live h.refcnt x z (rw q pos)
          ] in
          let low : (z : ℕ) → In z h.laylow → refcnt z ≡ 0 =
            λ z hz. one_more_low h.refcnt x z pos (w.2 z hz) in
          (
            x,
            record h { root = root; refcnt = refcnt; hcb_lock = h.hcb_lock + 1 },
            rw (one, run, p, e) refl,
            ((is, live, low), same, all, inr (there, refl)),
          )
    ]

-- hcb_lookup with a new objhead asserts nothing that fails. It returns the objhead of the table with
-- that digest, which the table now holds, with one reference more, or the new one, which the table
-- then holds in addition; all other objheads stand as before, and the table stays in order.
pub lookup-IsCounted :
    (h : Hash) (noh : ℕ)
    → IsCounted h
    → IsNew h noh
    → (x : ℕ) × (h1 : Hash) × (lookup h noh ≡ ok (x, h1)) × IsFound h noh x h1
unfolding lookup lookup_nolock
lookup-IsCounted h noh w new =
    let (found, n, run, finds) = insert_lookup h.digest h.root noh w.0 new.0 in
    elim (Option-cases found) [
      | inl e ↦
          let (x, h1, run1, is) =
            lock_lem (record h { root = record h.root { cmps = n } }) noh w new in
          (x, h1, rw (run, e, run1) refl, is)
      | inr (x, e) ↦
          let (there, same) = (finds x).0 e in
          let pos = w.1 x there in
          let other : (x == noh) ≡ false = elim (Bool-cases (x == noh)) [
            | inl q ↦ absurd (new.2 (subst (λ z. Stands z h.root.origo) ((==_iff x noh).0 q) there))
            | inr q ↦ q
          ] in
          let p : (h.refcnt x == 0) ≡ false = ground (arith, pos) in
          let refcnt = write h.refcnt x (h.refcnt x + 1) in
          let live : (z : ℕ) → Stands z h.root.origo → 0 < refcnt z =
            λ z hz. one_more_live h.refcnt x z (w.1 z hz) in
          let low : (z : ℕ) → In z h.laylow → refcnt z ≡ 0 =
            λ z hz. one_more_low h.refcnt x z pos (w.2 z hz) in
          (
            x,
            record h {
              root = record h.root { cmps = n };
              refcnt = refcnt;
              hcb_nolock = h.hcb_nolock + 1;
            },
            rw (run, e, other, p) refl,
            (
              (w.0, live, low),
              same,
              λ z. (
                λ s. inl s,
                λ s. elim s [
                  | inl g ↦ g
                  | inr q ↦ subst (λ z. Stands z h.root.origo) (sym q) there
                ],
              ),
              inr (there, refl),
            ),
          )
    ]
