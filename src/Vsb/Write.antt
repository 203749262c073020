-- ===== src/Vsb/Write.antt =====
-- Bytes written into the buffer of a vsb.
use varnish.Prelude.{
  ℕ, zero, suc, ◌+◌, ◌≤◌, ◌≡◌, refl, ap, ◌∙◌, sym, List, [], ◌∷◌, ◌++◌, arith, length, take, set,
  length-set,
}
use mathlib.Core.List.{append_assoc, append-nil}
use varnish.Vsb.{write_at}
use varnish.Vsb.Inv.{take-set}

pub take-set_le : (xs : List ℕ) (i n c : ℕ) → n ≤ i → take n (set xs i c) ≡ take n xs
take-set_le [] i zero c h = refl
take-set_le [] i (suc n) c h = refl
take-set_le (x ∷ xs) zero zero c h = refl
take-set_le (x ∷ xs) zero (suc n) c h = absurd (omega arith)
take-set_le (x ∷ xs) (suc i) zero c h = refl
take-set_le (x ∷ xs) (suc i) (suc n) c h = ap (λ ys. x ∷ ys) (take-set_le xs i n c (omega arith))

pub take-write_at_le :
    (bs : List ℕ) (xs : List ℕ) (i n : ℕ) → n ≤ i → take n (write_at xs i bs) ≡ take n xs
take-write_at_le [] xs i n h = refl
take-write_at_le (b ∷ bs) xs i n h =
    take-write_at_le bs (set xs i b) (i + 1) n (omega arith) ∙ take-set_le xs i n b h

pub length-write_at : (bs : List ℕ) (xs : List ℕ) (i : ℕ) → length (write_at xs i bs) ≡ length xs
length-write_at [] xs i = refl
length-write_at (b ∷ bs) xs i = length-write_at bs (set xs i b) (i + 1) ∙ length-set xs i b

-- Bytes written at `i` stand behind the first `i`, whatever is written behind them.
pub take-write_at :
    (bs cs : List ℕ) (xs : List ℕ) (i : ℕ)
    → i + length bs ≤ length xs
    → take (i + length bs) (write_at xs i (bs ++ cs)) ≡ take i xs ++ bs
take-write_at [] cs xs i h =
    let e : i + 0 ≡ i = omega arith in
    rw e (take-write_at_le cs xs i i (omega arith) ∙ sym (append-nil _))
take-write_at (b ∷ bs) cs xs i h =
    let e : i + suc (length bs) ≡ i + 1 + length bs = omega arith in
    let f : i + 1 ≡ suc i = omega arith in
    rw e (
      take-write_at bs cs (set xs i b) (i + 1) (omega (arith, length-set xs i b))
      ∙ ap (λ z. z ++ bs) (rw f (take-set xs i b (omega arith)))
      ∙ append_assoc (take i xs) (b ∷ []) bs)
