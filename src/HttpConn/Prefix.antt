-- ===== src/HttpConn/Prefix.antt =====
-- Where a header ends does not depend on what follows it.
use varnish.Prelude.{
  ℕ, zero, suc, ◌-◌, ◌≡◌, ◌<◌, ◌≤◌, ◌⊎◌, inl, inr, refl, sym, ap, ◌∙◌, true, false, ◌==◌, Option,
  none, some, [], ◌∷◌, ◌++◌, length, length-append, arith, Bool-cases, Option-cases,
}
use mathlib.Core.Path.{subst}
use varnish.Ctype.{is_space}
use varnish.Http.{Text}
use varnish.HttpConn.{skip_white, after_newline, skip_cr, header_end, header_complete}

after_newline-append :
    (p m r : Text) → after_newline p ≡ some r → after_newline (p ++ m) ≡ some (r ++ m)
unfolding after_newline
after_newline-append [] m r e = cc
after_newline-append (c ∷ p) m r e = elim (Bool-cases (c == 0)) [
  | inl z ↦ absurd (let e1 : ◌≡◌ {A = Option Text} none (some r) = rw (z, after_newline) at e in cc)
  | inr z ↦ elim (Bool-cases (c == 10)) [
    | inl n ↦
        let e1 : ◌≡◌ {A = Option Text} (some p) (some r) = rw (z, n, after_newline) at e in
        rw (z, n, after_newline) (ap (λ o. elim o [ none ↦ none | some q ↦ some (q ++ m) ]) e1)
    | inr n ↦ rw (z, n, after_newline) (after_newline-append p m r (rw (z, n, after_newline) at e))
  ]
]

after_newline-length : (p r : Text) → after_newline p ≡ some r → length r < length p
unfolding after_newline
after_newline-length [] r e = cc
after_newline-length (c ∷ p) r e = elim (Bool-cases (c == 0)) [
  | inl z ↦ absurd (let e1 : ◌≡◌ {A = Option Text} none (some r) = rw (z, after_newline) at e in cc)
  | inr z ↦ elim (Bool-cases (c == 10)) [
    | inl n ↦
        let e1 : ◌≡◌ {A = Option Text} (some p) (some r) = rw (z, n, after_newline) at e in
        subst (λ o. elim o [ none ↦ Unit {0} | some q ↦ length q < suc (length p) ]) e1
          (omega arith)
    | inr n ↦
        let rest = after_newline-length p r (rw (z, n, after_newline) at e) in omega (arith, rest)
  ]
]

skip_cr-append :
    (p m : Text) (c : ℕ) (r : Text) → skip_cr p ≡ c ∷ r → skip_cr (p ++ m) ≡ c ∷ (r ++ m)
unfolding skip_cr
skip_cr-append [] m c r e = cc
skip_cr-append (d ∷ p) m c r e = elim (Bool-cases (d == 13)) [
  | inl t ↦ let e1 : p ≡ c ∷ r = rw (t, skip_cr) at e in rw (t, skip_cr) (ap (λ q. q ++ m) e1)
  | inr t ↦ let e1 : d ∷ p ≡ c ∷ r = rw (t, skip_cr) at e in rw (t, skip_cr) (ap (λ q. q ++ m) e1)
]

skip_cr-length : (p : Text) → length (skip_cr p) ≤ length p
unfolding skip_cr
skip_cr-length [] = omega arith
skip_cr-length (d ∷ p) = ground arith

Text-cases : (p : Text) → (p ≡ []) ⊎ ((c : ℕ) × (r : Text) × (p ≡ c ∷ r))
Text-cases [] = inl refl
Text-cases (c ∷ r) = inr (c, r, refl)

-- A round of the loop, as a function of what it finds.
abbrev round : ℕ → Text → Option Text
round n [] = header_end n []
round n (c ∷ r) = elim (c == 10) [ true ↦ some r | false ↦ header_end n (c ∷ r) ]

header_end_nothing : (n : ℕ) → header_end n [] ≡ none
unfolding header_end after_newline
header_end_nothing zero = refl
header_end_nothing (suc n) = refl

header_end_next :
    (n : ℕ) (p q : Text) → after_newline p ≡ some q → header_end (suc n) p ≡ round n (skip_cr q)
unfolding header_end
header_end_next n p q e = rw (e, header_end) refl

header_end_never : (n : ℕ) (p : Text) → after_newline p ≡ none → header_end (suc n) p ≡ none
unfolding header_end
header_end_never n p e = rw (e, header_end) refl

-- A header's end leaves fewer bytes, and stays where it is when bytes follow.
header_end-append :
    (k j : ℕ) (p m r : Text)
    → k ≤ j
    → header_end k p ≡ some r
    → (header_end j (p ++ m) ≡ some (r ++ m)) × (length r < length p)
unfolding header_end
header_end-append zero j p m r le e = cc
header_end-append (suc k) zero p m r le e = absurd (omega arith)
header_end-append (suc k) (suc j) p m r le e = elim (Option-cases (after_newline p)) [
  | inl n ↦
      absurd (let e1 : ◌≡◌ {A = Option Text} none (some r) = sym (header_end_never k p n) ∙ e in cc)
  | inr (q, a) ↦
      let e1 : round k (skip_cr q) ≡ some r = sym (header_end_next k p q a) ∙ e in
      let next = header_end_next j (p ++ m) (q ++ m) (after_newline-append p m q a) in
      let shorter = after_newline-length p q a in
      let cr = skip_cr-length q in
      elim (Text-cases (skip_cr q)) [
        | inl z ↦ absurd (
            let e2 : ◌≡◌ {A = Option Text} none (some r) =
              sym (header_end_nothing k) ∙ sym (ap (round k) z) ∙ e1 in
            cc)
        | inr (c, s, z) ↦
            let z1 = skip_cr-append q m c s z in
            let e2 : round k (c ∷ s) ≡ some r = sym (ap (round k) z) ∙ e1 in
            let len : length (skip_cr q) ≡ suc (length s) = ap length z in
            elim (Bool-cases (c == 10)) [
              | inl t ↦
                  let e3 : ◌≡◌ {A = Option Text} (some s) (some r) = rw (t, round) at e2 in
                  let l3 =
                    subst (λ o. elim o [ none ↦ Unit {0} | some x ↦ length x ≤ length s ]) e3
                      (omega arith) in
                  (
                    next
                        ∙ ap (round j) z1
                        ∙ rw (t, round)
                            (ap (λ o. elim o [ none ↦ none | some x ↦ some (x ++ m) ]) e3),
                    omega (arith, shorter, cr, len, l3),
                  )
              | inr t ↦
                  let e3 : header_end k (c ∷ s) ≡ some r = rw (t, round) at e2 in
                  let (ih, l3) = header_end-append k j (c ∷ s) m r (omega arith) e3 in
                  (next ∙ ap (round j) z1 ∙ rw (t, round) ih, omega (arith, shorter, cr, len, l3))
            ]
      ]
]

skip_white-append :
    (t m : Text) (c : ℕ) (p : Text)
    → skip_white t ≡ c ∷ p
    → (skip_white (t ++ m) ≡ c ∷ (p ++ m)) × (length (c ∷ p) ≤ length t)
unfolding skip_white
skip_white-append [] m c p e = cc
skip_white-append (d ∷ t) m c p e = elim (Bool-cases (is_space d)) [
  | inl s ↦
      let (ih, len) = skip_white-append t m c p (rw (s, skip_white) at e) in
      (rw (s, skip_white) ih, omega (arith, len))
  | inr s ↦
      let e1 : d ∷ t ≡ c ∷ p = rw (s, skip_white) at e in
      let len : suc (length t) ≡ length (c ∷ p) = ap length e1 in
      (rw (s, skip_white) (ap (λ q. q ++ m) e1), omega (arith, len))
]

-- The three ways that htc_header_complete ends.
complete_white : (t : Text) → skip_white t ≡ [] → header_complete t ≡ (0, [])
unfolding header_complete
complete_white t e = rw (e, header_complete) refl

complete_nul :
    (t p : Text) (c : ℕ) → skip_white t ≡ c ∷ p → (c == 0) ≡ true → header_complete t ≡ (0, [])
unfolding header_complete
complete_nul t p c e z = rw (e, header_complete) (rw z refl)

pub complete_none :
    (t p : Text) (c : ℕ)
    → skip_white t ≡ c ∷ p
    → (c == 0) ≡ false
    → header_end (length (c ∷ p)) (c ∷ p) ≡ none
    → header_complete t ≡ (0, t)
unfolding header_complete
complete_none t p c e z h = rw (e, header_complete) (rw (z, h) refl)

pub complete_some :
    (t p r : Text) (c : ℕ)
    → skip_white t ≡ c ∷ p
    → (c == 0) ≡ false
    → header_end (length (c ∷ p)) (c ∷ p) ≡ some r
    → header_complete t ≡ (length t - length r, t)
unfolding header_complete
complete_some t p r c e z h = rw (e, header_complete) (rw (z, h) refl)

-- Where htc_header_complete finds a header, it finds the same one, neither shorter nor longer,
-- whatever bytes follow.
pub header_complete-append :
    (t m : Text) (n : ℕ) (u : Text)
    → header_complete t ≡ (n, u)
    → 0 < n
    → (header_complete (t ++ m) ≡ (n, t ++ m)) × (u ≡ t) × (n ≤ length t)
header_complete-append t m n u e pos = elim (Text-cases (skip_white t)) [
  | inl w ↦ absurd (let z = ap (λ r. r.0) (sym (complete_white t w) ∙ e) in omega (arith, z))
  | inr (c, p, w) ↦ elim (Bool-cases (c == 0)) [
    | inl z ↦ absurd (let z = ap (λ r. r.0) (sym (complete_nul t p c w z) ∙ e) in omega (arith, z))
    | inr z ↦ elim (Option-cases (header_end (length (c ∷ p)) (c ∷ p))) [
      | inl h ↦
          absurd (let z = ap (λ r. r.0) (sym (complete_none t p c w z h) ∙ e) in omega (arith, z))
      | inr (r, h) ↦
          let (w1, len) = skip_white-append t m c p w in
          let total = length-append p m in
          let (h1, shorter) =
            header_end-append (length (c ∷ p)) (length (c ∷ p ++ m)) (c ∷ p) m r
              (omega (arith, total)) h in
          let both = sym (complete_some t p r c w z h) ∙ e in
          let n1 : length t - length r ≡ n = ap (λ r. r.0) both in
          let same : length (t ++ m) - length (r ++ m) ≡ n =
            omega (arith, n1, length-append t m, length-append r m, shorter, len) in
          (
            complete_some (t ++ m) (p ++ m) (r ++ m) c w1 z h1 ∙ ap (λ k. (k, t ++ m)) same,
            sym (ap (λ r. r.1) both),
            omega (arith, n1),
          )
    ]
  ]
]
