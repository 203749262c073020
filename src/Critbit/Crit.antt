-- ===== src/Critbit/Crit.antt =====
-- The bits of a digest, the test at a y, and hcb_crit_bit.
use varnish.Prelude.{
  ℕ, zero, suc, ◌+◌, ◌*◌, ◌/◌, ◌%◌, ◌^◌, ◌≤◌, ◌<◌, ◌≡◌, ◌≢◌, refl, ap, Bool, true, ltb, ◌==◌,
  ==_iff, ◌↔◌, arith, List, get_or, Bool-cases, inl, inr,
}
use varnish.Prelude.Checked.{ok}
use varnish.Prelude.Tables.{&&-left, &&-right}
use varnish.Critbit.{Y, side, first_difference, y_at, crit_bit, same_bytes, digest_len, bits}
use varnish.Critbit.Bits.{bit_of, bits_lem, mask_lem}

abbrev pub IsDigest : List ℕ → Type 0
IsDigest d = (i : ℕ) → get_or d i 0 < 256

-- The first `n` bytes are the same: what memcmp asks.
abbrev pub Same : ℕ → List ℕ → List ℕ → Type 0
Same n d1 d2 = (i : ℕ) → i < n → get_or d1 i 0 ≡ get_or d2 i 0

-- Bit `j` of a digest, from the most significant one of its first byte.
unfoldable pub bit : List ℕ → ℕ → Bool
bit d j = bit_of (j % 8) (get_or d (j / 8) 0)

-- The first `n` bits are the same.
abbrev pub SameTo : ℕ → List ℕ → List ℕ → Type 0
SameTo n d1 d2 = (j : ℕ) → j < n → bit d1 j ≡ bit d2 j

-- A y tests the bit that its `critbit` numbers.
abbrev pub IsY : Y → Type 0
IsY k = (k.critbit < 256) × (k.ptr ≡ k.critbit / 8) × (k.bitmask ≡ 128 / 2 ^ (k.critbit % 8))

pub side_lem : (d : List ℕ) (k : Y) → IsDigest d → IsY k → side d k ≡ bit d k.critbit
unfolding side bit
side_lem d k hd hk = rw (hk.1, hk.2) (mask_lem (k.critbit % 8) _ (omega arith) (hd _))

pub same_bytes_iff : (n : ℕ) (d1 d2 : List ℕ) → (same_bytes n d1 d2 ≡ true) ↔ Same n d1 d2
unfolding same_bytes
same_bytes_iff zero d1 d2 = (λ _. λ i h. absurd (omega arith), λ _. refl)
same_bytes_iff (suc n) d1 d2 = (
  λ h. λ i lt. elim (Bool-cases (i == n)) [
    | inl e ↦ let e : i ≡ n = ground arith in rw e ((==_iff _ _).0 (&&-left _ _ h))
    | inr e ↦ (same_bytes_iff n d1 d2).0 (&&-right _ _ h) i (ground arith)
  ],
  λ h.
      let e = (==_iff _ _).1 (h n (omega arith)) in
      rw e ((same_bytes_iff n d1 d2).1 (λ i lt. h i (omega arith))),
)

pub Same-SameTo : (n : ℕ) (d1 d2 : List ℕ) → Same n d1 d2 → SameTo (n * 8) d1 d2
unfolding bit
Same-SameTo n d1 d2 h = λ j lt. ap (λ b. bit_of (j % 8) b) (h (j / 8) (omega arith))

first_difference_lem :
    (n u : ℕ) (d1 d2 : List ℕ)
    → let v = first_difference n u d1 d2 in
      (u ≤ v)
      × (v ≤ u + n)
      × ((i : ℕ) → u ≤ i → i < v → get_or d1 i 0 ≡ get_or d2 i 0)
      × (v < u + n → get_or d1 v 0 ≢ get_or d2 v 0)
unfolding first_difference
first_difference_lem zero u d1 d2 =
    (omega arith, omega arith, λ i h k. absurd (omega arith), λ h. absurd (omega arith))
first_difference_lem (suc n) u d1 d2 =
    let (above, below, same, other) = first_difference_lem n (u + 1) d1 d2 in
    elim (Bool-cases (get_or d1 u 0 == get_or d2 u 0)) [
      | inl t ↦
          let t1 : get_or d1 u 0 ≡ get_or d2 u 0 = (==_iff _ _).0 t in
          rw t (
            omega arith,
            omega arith,
            λ i h k. elim (Bool-cases (i == u)) [
              | inl e ↦ let e : i ≡ u = ground arith in rw e t1
              | inr e ↦ same i (ground arith) k
            ],
            λ h. other (omega arith),
          )
      | inr t ↦
          rw t (
            omega arith,
            omega arith,
            λ i h k. absurd (omega arith),
            λ h. λ e. ground (arith, e, t),
          )
    ]

-- What a critical bit is: a bit that differs after bits that are the same.
abbrev pub IsCrit : Y → List ℕ → List ℕ → Type 0
IsCrit k d1 d2 = IsY k × SameTo k.critbit d1 d2 × (bit d1 k.critbit ≢ bit d2 k.critbit)

y_at-IsY : (owner u r : ℕ) → u < 32 → r < 8 → IsY (y_at owner u r)
unfolding y_at
y_at-IsY owner u r hu hr =
    let e : (u * 8 + r) % 8 ≡ r = omega arith in rw e (omega arith, omega arith, refl)

bits_before :
    (d1 d2 : List ℕ) (u r : ℕ)
    → r < 8
    → Same u d1 d2
    → ((i : ℕ) → i < r → bit_of i (get_or d1 u 0) ≡ bit_of i (get_or d2 u 0))
    → SameTo (u * 8 + r) d1 d2
unfolding bit
bits_before d1 d2 u r hr same lo = λ j h. elim (Bool-cases (ltb (j / 8) u)) [
  | inl t ↦ ap (λ b. bit_of (j % 8) b) (same (j / 8) (ground arith))
  | inr t ↦ let e : j / 8 ≡ u = ground arith in rw e (lo (j % 8) (omega arith))
]

-- On two digests that differ hcb_crit_bit asserts nothing that fails, and gives the number of the
-- first of the 256 bits at which they do, with the byte and the mask to test it.
pub crit_bit_lem :
    (owner : ℕ) (d1 d2 : List ℕ)
    → IsDigest d1
    → IsDigest d2
    → (Same digest_len d1 d2 → ⊥)
    → (k : Y) × (crit_bit owner d1 d2 ≡ ok k) × IsCrit k d1 d2 × (k.owner ≡ owner)
unfolding crit_bit y_at bit
crit_bit_lem owner d1 d2 h1 h2 n =
    let u = first_difference 32 0 d1 d2 in
    let (above, below, same, other) = first_difference_lem 32 0 d1 d2 in
    elim (Bool-cases (ltb u 32)) [
      | inr t ↦ absurd (n (λ i h. same i (omega arith) (ground arith)))
      | inl t ↦
          let lt : u < 32 = ground arith in
          let r = bits (get_or d1 u 0) (get_or d2 u 0) in
          let (hr, lo, top) = bits_lem _ _ (h1 u) (h2 u) (other lt) in
          let e8 : (u * 8 + r) / 8 ≡ u = omega arith in
          let er : (u * 8 + r) % 8 ≡ r = omega arith in
          (
            y_at owner u r,
            rw t refl,
            (
              y_at-IsY owner u r lt hr,
              bits_before d1 d2 u r hr (λ i k. same i (omega arith) k) lo,
              rw (e8, er) top,
            ),
            refl,
          )
    ]
