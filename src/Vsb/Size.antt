-- ===== src/Vsb/Size.antt =====
-- vsb_extendsize of lib/libvarnish/vsb.c.
use varnish.Prelude.{
  ℕ, zero, suc, ◌+◌, ◌-◌, ◌*◌, ◌%◌, ◌^◌, ◌≤◌, ◌<◌, ◌≡◌, refl, ltb, if◌then◌else◌, true, false,
  arith, ◌⊎◌, inl, inr, Bool-cases,
}
use varnish.Prelude.Checked.{Checked, ok, panic, assert, ◌>>◌}

-- A `size_t` passed as an `int`. A negative `int` reads as 0 here: vsb_extendsize only asks whether
-- it is above 16 or more.
abbrev pub to_int : ℕ → ℕ
to_int n = let m = n % 2 ^ 32 in if ltb m (2 ^ 31) then m else 0

-- The loop; the fuel bounds its rounds. An `int` above 2^31 - 1 overflows.
grow : ℕ → ℕ → ℕ → Checked ℕ
grow zero size newsize = ok newsize
grow (suc fuel) size newsize = elim (ltb newsize size) [
  | true ↦ elim (ltb newsize 4096) [
    | true ↦ grow fuel size (newsize * 2)
    | false ↦ assert (ltb (newsize + 4096) (2 ^ 31)) >> grow fuel size (newsize + 4096)
  ]
  | false ↦ ok newsize
]

unfoldable pub extend_size : ℕ → Checked ℕ
unfolding grow
extend_size size = grow size size 16

-- The sizes that the loop goes through.
abbrev IsStep : ℕ → Type 0
IsStep n =
    (n % 4096 ≡ 0)
    ⊎ ((n ≡ 16)
        ⊎ ((n ≡ 32)
            ⊎ ((n ≡ 64) ⊎ ((n ≡ 128) ⊎ ((n ≡ 256) ⊎ ((n ≡ 512) ⊎ ((n ≡ 1024) ⊎ (n ≡ 2048))))))))

-- What the loop comes to: a size, where that is an `int`, or an overflow.
abbrev pub Grown : ℕ → Checked ℕ → Type 0
Grown size r =
    ((size ≤ 2 ^ 31 - 4096)
      × ((n : ℕ) × (r ≡ ok n)
          × (size ≤ n)
          × (16 ≤ n)
          × ((n < 2 * size) ⊎ (n ≡ 16))
          × (n < size + 4096)))
    ⊎ ((2 ^ 31 - 4096 < size) × (r ≡ panic))

doubled : (n : ℕ) → IsStep n → n < 4096 → 16 ≤ n → IsStep (n * 2) × (n * 2 ≤ 4096)
doubled n st lt lo = omega arith

grow_lem :
    (fuel size n : ℕ)
    → size < fuel + n
    → 16 ≤ n
    → n < 2 ^ 31
    → IsStep n
    → (n < 2 * size) ⊎ (n ≡ 16)
    → n < size + 4096
    → Grown size (grow fuel size n)
unfolding grow
grow_lem zero size n a b st int c d = inl (omega arith, (n, refl, omega arith, b, c, d))
grow_lem (suc fuel) size n a b int st c d = elim (Bool-cases (ltb n size)) [
  | inr done ↦ rw (done, grow) (inl (ground arith, (n, refl, ground arith, b, c, d)))
  | inl less ↦ elim (Bool-cases (ltb n 4096)) [
    | inl low ↦
        let (st', le) = doubled n st (ground arith) b in
        rw (less, grow, low)
          (grow_lem fuel size (n * 2) (omega (arith, b)) (omega arith) (omega (arith, le)) st'
            (ground arith) (ground arith))
    | inr high ↦ elim (Bool-cases (ltb (n + 4096) (2 ^ 31))) [
      | inl int' ↦
          rw (less, grow, high, int')
            (grow_lem fuel size (n + 4096) (omega (arith, b)) (omega arith) (ground arith)
              (ground arith) (ground arith) (ground arith))
      | inr over ↦ rw (less, grow, high, over) (inr (ground arith, refl))
    ]
  ]
]

-- vsb_extendsize comes to its end for every size of an `int` up to 2^31 - 4096, and returns a size
-- that is large enough, at least 16, and, unless it is 16, less than twice what was asked for and
-- less than 4096 above it. For every larger size its `int` overflows.
pub extend_size_lem : (size : ℕ) → Grown size (extend_size size)
unfolding extend_size
extend_size_lem size =
    grow_lem size size 16 (omega arith) (omega arith) (omega arith) (omega arith)
      (inr (omega arith)) (omega arith)
