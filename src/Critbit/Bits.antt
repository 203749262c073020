-- ===== src/Critbit/Bits.antt =====
-- The bits of a byte, counted from the most significant one, and what hcb_bits says of them.
use Prim.Native.Nat.{bit_and, bit_xor, bit_xor-bitwise, digits, differ}
use varnish.Prelude.{
  ℕ, zero, suc, ◌+◌, ◌-◌, ◌*◌, ◌/◌, ◌%◌, ◌^◌, ◌≤◌, ◌<◌, ◌≡◌, ◌≢◌, refl, sym, ap, Bool, true, not,
  ◌||◌, ◌&&◌, ltb, ◌==◌, ==_iff, arith, get_or, lt→ltb,
}
use varnish.Prelude.Tables.{holds_to, holds_to-lt, ◌<=>◌, <=>_eq}
use varnish.Critbit.{bits, bittbl, build_bittbl, fill_bittbl}

-- k times >> 1
unfoldable pub halve : ℕ → ℕ → ℕ
halve zero a = a
halve (suc k) a = halve k (a / 2)

-- Bit `i` of a byte, from the most significant one, number 0.
unfoldable pub bit_of : ℕ → ℕ → Bool
unfolding halve
bit_of i a = halve (7 - i) a % 2 == 1

-- The first number runs out of digits before either count does.
digits_agree :
    (z : ℕ → ℕ) (f : ℕ → ℕ → ℕ) (n m a b : ℕ)
    → (a ≤ n) × (a ≤ m)
    → digits z f n a b ≡ digits z f m a b
digits_agree z f zero m (suc a) b h = absurd (omega arith)
digits_agree z f (suc n) zero (suc a) b h = absurd (omega arith)
digits_agree z f zero zero zero b h = refl
digits_agree z f zero (suc m) zero b h = refl
digits_agree z f (suc n) zero zero b h = refl
digits_agree z f (suc n) (suc m) zero b h = refl
digits_agree z f (suc n) (suc m) (suc a) b h =
    let e = digits_agree z f n m (suc a / 2) (b / 2) (omega arith, omega arith) in
    ap (λ q. q * 2 + f (suc a % 2) (b % 2)) e

xor-zero : (b : ℕ) → bit_xor 0 b ≡ b
xor-zero b = bit_xor-bitwise 0 b

xor_by_digits : (a b : ℕ) → bit_xor a b ≡ bit_xor (a / 2) (b / 2) * 2 + differ (a % 2) (b % 2)
xor_by_digits zero b = omega (arith, xor-zero b, xor-zero (b / 2))
xor_by_digits (suc a) b =
    let high = bit_xor-bitwise (suc a / 2) (b / 2) in
    let e =
      digits_agree (λ b. b) differ a (suc a / 2) (suc a / 2) (b / 2) (omega arith, omega arith) in
    omega (arith, bit_xor-bitwise (suc a) b, high, e)

differ_bits :
    (p q : ℕ) → p < 2 → q < 2 → (differ p q < 2) × ((differ p q == 1) ≡ not ((p == 1) <=> (q == 1)))
differ_bits zero zero h k = (omega arith, refl)
differ_bits zero (suc zero) h k = (omega arith, refl)
differ_bits (suc zero) zero h k = (omega arith, refl)
differ_bits (suc zero) (suc zero) h k = (omega arith, refl)
differ_bits zero (suc (suc q)) h k = absurd (omega arith)
differ_bits (suc zero) (suc (suc q)) h k = absurd (omega arith)
differ_bits (suc (suc p)) q h k = absurd (omega arith)

halve-xor : (k a b : ℕ) → halve k (bit_xor a b) ≡ bit_xor (halve k a) (halve k b)
unfolding halve
halve-xor zero a b = refl
halve-xor (suc k) a b =
    let d = (differ_bits (a % 2) (b % 2) (omega arith) (omega arith)).0 in
    let e : bit_xor a b / 2 ≡ bit_xor (a / 2) (b / 2) = omega (arith, xor_by_digits a b, d) in
    rw e (halve-xor k (a / 2) (b / 2))

-- A bit of `x ^ y` is set where the two differ.
xor_odd : (a b : ℕ) → (bit_xor a b % 2 == 1) ≡ not ((a % 2 == 1) <=> (b % 2 == 1))
xor_odd a b =
    let d = differ_bits (a % 2) (b % 2) (omega arith) (omega arith) in
    let e : bit_xor a b % 2 ≡ differ (a % 2) (b % 2) = omega (arith, xor_by_digits a b, d.0) in
    rw e d.1

-- bit number 0 of the table's entry for `z`, and no bit before it
first_is_set : ℕ → Bool
first_is_set z =
    holds_to
      (λ i.
        let r = get_or bittbl z 0 in
        (not (ltb i r) || not (bit_of i z)) && (not (i == r) || bit_of i z))
      8

first_set_table : holds_to first_is_set 256 ≡ true
unfolding holds_to first_is_set bittbl build_bittbl fill_bittbl bit_of halve
first_set_table = refl

mask_agrees : ℕ → Bool
mask_agrees b = holds_to (λ i. not (bit_and b (128 / 2 ^ i) == 0) <=> bit_of i b) 8

mask_table : holds_to mask_agrees 256 ≡ true
unfolding holds_to mask_agrees bit_of halve
mask_table = refl

range_table : holds_to (λ z. (z == 0) || ltb (get_or bittbl z 0) 8) 256 ≡ true
unfolding holds_to bittbl build_bittbl fill_bittbl
range_table = refl

bit_of-xor : (i a b : ℕ) → bit_of i (bit_xor a b) ≡ not (bit_of i a <=> bit_of i b)
unfolding bit_of
bit_of-xor i a b = rw (halve-xor (7 - i) a b) (xor_odd (halve (7 - i) a) (halve (7 - i) b))

xor_bound_fuel : (n a b : ℕ) → a < 2 ^ n → b < 2 ^ n → bit_xor a b < 2 ^ n
xor_bound_fuel zero a b h k =
    let ea : a ≡ 0 = omega arith in
    let eb : b ≡ 0 = omega arith in
    let e : bit_xor a b ≡ 0 = rw (ea, eb) (xor-zero 0) in omega (arith, e)
xor_bound_fuel (suc n) a b h k =
    let d = differ_bits (a % 2) (b % 2) (omega arith) (omega arith) in
    let rest = xor_bound_fuel n (a / 2) (b / 2) (omega arith) (omega arith) in
    omega (arith, xor_by_digits a b, d.0, rest)

xor_bound : (a b : ℕ) → a < 256 → b < 256 → bit_xor a b < 256
xor_bound a b h k = xor_bound_fuel 8 a b h k

differ_zero : (p q : ℕ) → differ p q ≡ 0 → p ≡ q
differ_zero zero q h = sym h
differ_zero (suc p) zero h = h
differ_zero (suc p) (suc q) h = ap suc (differ_zero p q h)

xor_zero_eq : (n a b : ℕ) → a ≤ n → bit_xor a b ≡ 0 → a ≡ b
xor_zero_eq zero a b h e =
    let ea : a ≡ 0 = omega arith in
    let xe = ap (λ q. bit_xor q b) ea in omega (arith, xor-zero b, e, xe)
xor_zero_eq (suc n) a b h e =
    let d = differ_bits (a % 2) (b % 2) (omega arith) (omega arith) in
    let law = xor_by_digits a b in
    let high = xor_zero_eq n (a / 2) (b / 2) (omega arith) (omega (arith, law, e)) in
    let low = differ_zero (a % 2) (b % 2) (omega (arith, law, e)) in omega (arith, high, low)

low_lem :
    (lo top p q : Bool) {w : Bool}
    → ((not lo || not w) && (not top || w)) ≡ true
    → lo ≡ true
    → w ≡ not (p <=> q)
    → p ≡ q
low_lem lo top p q h l e = ground arith

top_lem :
    (lo top p q : Bool) {w : Bool}
    → ((not lo || not w) && (not top || w)) ≡ true
    → top ≡ true
    → w ≡ not (p <=> q)
    → p ≢ q
top_lem lo top p q h l e = ground arith

-- Where two bytes differ, hcb_bits gives the number of the first bit, from the most significant one,
-- at which they do.
pub bits_lem :
    (a b : ℕ)
    → a < 256
    → b < 256
    → a ≢ b
    → (bits a b < 8)
      × ((i : ℕ) → i < bits a b → bit_of i a ≡ bit_of i b)
      × (bit_of (bits a b) a ≢ bit_of (bits a b) b)
unfolding bits first_is_set
bits_lem a b ha hb n =
    let z = bit_xor a b in
    let r = get_or bittbl z 0 in
    let hz : z < 256 = xor_bound a b ha hb in
    let nz : z ≢ 0 = λ e. n (xor_zero_eq a a b (omega arith) e) in
    let hr : r < 8 = ground (arith, holds_to-lt _ 256 z hz range_table) in
    let at : (i : ℕ)
        → i < 8
        → ((not (ltb i r) || not (bit_of i z)) && (not (i == r) || bit_of i z)) ≡ true =
      λ i h. holds_to-lt _ 8 i h (holds_to-lt first_is_set 256 z hz first_set_table) in
    (
      hr,
      λ i h. low_lem _ _ _ _ (at i (omega arith)) (lt→ltb i r h) (bit_of-xor i a b),
      λ e. top_lem _ _ _ _ (at r hr) ((==_iff r r).1 refl) (bit_of-xor r a b) e,
    )

-- The test of a byte against a y's mask reads one bit.
pub mask_lem : (i b : ℕ) → i < 8 → b < 256 → not (bit_and b (128 / 2 ^ i) == 0) ≡ bit_of i b
unfolding mask_agrees
mask_lem i b hi hb = <=>_eq _ _ (holds_to-lt _ 8 i hi (holds_to-lt mask_agrees 256 b hb mask_table))
