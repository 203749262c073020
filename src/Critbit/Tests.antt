-- ===== src/Critbit/Tests.antt =====
-- Examples for the critical-bit tree: objheads whose digests differ in the first byte.
use varnish.Prelude.{
  ℕ, zero, suc, ◌%◌, ◌≡◌, ◌≢◌, ◌⊎◌, ◌↔◌, refl, sym, inl, inr, true, false, arith, if◌then◌else◌,
  ◌==◌, ◌-◌, List, [], ◌∷◌, replicate, get_or, Option, some,
}
use mathlib.Core.Path.{subst}
use varnish.Prelude.Tables.{holds_to, holds_to-lt, ◌<=>◌, <=>_eq}
use varnish.Prelude.Checked.{ok}
use varnish.Critbit.{
  Y, Tree, node, y, Root, bits, crit_bit, insert, delete, bittbl, build_bittbl, fill_bittbl, side,
  descend, place, remove, first_difference, y_at, same_bytes, branch, insert_at, is_r_node,
  digest_len,
}
use varnish.Critbit.Crit.{IsDigest, SameTo, bit}
use varnish.Critbit.Inv.{Holds}
use varnish.Critbit.Table.{
  Finds, Inserted, IsHash, Stands, insert_lookup, insert-IsHash, delete-IsHash,
}
use varnish.Critbit.Hash.{Hash, deref, lookup, sweep, y_used}
use varnish.Critbit.Refs.{In, IsCounted, deref-IsCounted}
use varnish.Critbit.Lookup.{IsNew, IsFound, lookup-IsCounted}
use varnish.Critbit.Cleaner.{sweeps, IsWaiting, sweeps-delete}

-- The quick asserts of hcb_build_bittbl
bits_test :
    bits 0x34 0x34 ∷ bits 0xaa 0x55 ∷ bits 0x01 0x22 ∷ bits 0x10 0x0b ∷ [] ≡ 8 ∷ 0 ∷ 2 ∷ 3 ∷ []
unfolding bits bittbl build_bittbl fill_bittbl
bits_test = refl

abbrev digest_of : ℕ → List ℕ
digest_of x = x % 256 ∷ replicate 31 0

get_or-replicate : (n i : ℕ) → ◌≡◌ {A = ℕ} (get_or (replicate n 0) i 0) 0
get_or-replicate zero i = refl
get_or-replicate (suc n) zero = refl
get_or-replicate (suc n) (suc i) = get_or-replicate n i

digest_of-IsDigest : (x : ℕ) → IsDigest (digest_of x)
digest_of-IsDigest x zero = omega arith
digest_of-IsDigest x (suc i) = omega (arith, get_or-replicate 31 i)

-- 1 and 2 differ first in bit 6.
abbrev fork : Y
fork = record { critbit = 6; ptr = 0; bitmask = 2; owner = 2 }

abbrev two : Root
two = record { origo = some (y fork (node 1) (node 2)); cmps = 0 }

insert_test :
    insert digest_of (record { origo = some (node 1); cmps = 0 }) 2 true ≡ ok (some 2, two)
unfolding insert insert_at descend same_bytes crit_bit place bits bittbl build_bittbl fill_bittbl
    side first_difference y_at branch
insert_test = refl

-- 64 differs from both in bit 1, so that its y comes above.
insert_test_above :
    insert digest_of two 64 true
    ≡ ok (
      some 64,
      record {
        origo = some (
            y
              (record { critbit = 1; ptr = 0; bitmask = 64; owner = 64 })
              (y fork (node 1) (node 2))
              (node 64));
        cmps = 1;
      },
    )
unfolding insert insert_at descend same_bytes crit_bit place bits bittbl build_bittbl fill_bittbl
    side first_difference y_at branch
insert_test_above = refl

delete_test : delete two 1 (digest_of 1) ≡ ok (record { origo = some (node 2); cmps = 0 })
unfolding delete remove side is_r_node
delete_test = refl

fork_left : (x : ℕ) → Holds x (node 1) → bit (digest_of x) 6 ≡ false
unfolding bit varnish.Critbit.Bits.bit_of varnish.Critbit.Bits.halve
fork_left x h = subst (λ x. bit (digest_of x) 6 ≡ false) (sym h) refl

fork_right : (x : ℕ) → Holds x (node 2) → bit (digest_of x) 6 ≡ true
unfolding bit varnish.Critbit.Bits.bit_of varnish.Critbit.Bits.halve
fork_right x h = subst (λ x. bit (digest_of x) 6 ≡ true) (sym h) refl

before_fork : SameTo 6 (digest_of 1) (digest_of 2)
unfolding holds_to bit varnish.Critbit.Bits.bit_of varnish.Critbit.Bits.halve
before_fork j h =
    <=>_eq _ _ (holds_to-lt (λ j. bit (digest_of 1) j <=> bit (digest_of 2) j) 6 j h refl)

fork_same : (x z : ℕ) → (x ≡ 1) ⊎ (x ≡ 2) → (z ≡ 1) ⊎ (z ≡ 2) → SameTo 6 (digest_of x) (digest_of z)
fork_same x z (inl p) (inl q) = λ j h. rw (p, q) refl
fork_same x z (inl p) (inr q) = λ j h. rw (p, q) (before_fork j h)
fork_same x z (inr p) (inl q) = λ j h. rw (p, q) (sym (before_fork j h))
fork_same x z (inr p) (inr q) = λ j h. rw (p, q) refl

two-IsHash : IsHash digest_of two.origo
two-IsHash = (
  (omega arith, refl, refl),
  fork_left,
  fork_right,
  fork_same,
  digest_of-IsDigest 1,
  digest_of-IsDigest 2,
)

insert_lookup_example :
    (found : Option ℕ) × (n : ℕ) × (insert digest_of two 258 false
      ≡ ok (found, record two { cmps = n }))
    × Finds digest_of found two.origo (digest_of 258)
insert_lookup_example = insert_lookup digest_of two 258 two-IsHash (digest_of-IsDigest 258)

insert-IsHash_example :
    (x : ℕ) × (root1 : Root) × (insert digest_of two 64 true ≡ ok (some x, root1))
    × Inserted digest_of two.origo 64 x root1.origo
insert-IsHash_example = insert-IsHash digest_of two 64 two-IsHash (digest_of-IsDigest 64)

delete-IsHash_example :
    (root1 : Root) × (delete two 1 (digest_of 1) ≡ ok root1)
    × IsHash digest_of root1.origo
    × ((z : ℕ) → Stands z root1.origo ↔ (Stands z two.origo × (z ≢ 1)))
delete-IsHash_example = delete-IsHash digest_of two 1 two-IsHash (inl refl)

-- The table of 1 and 2, each with one reference; 7 is on laylow.
abbrev table : Hash
table = record {
  root = two;
  digest = digest_of;
  refcnt = λ x. if x == 7 then 0 else 1;
  idle = λ x. true;
  laylow = 7 ∷ [];
  hcb_nolock = 0;
  hcb_insert = 0;
  hcb_lock = 0;
}

table-IsCounted : IsCounted table
table-IsCounted = (
  two-IsHash,
  λ x h. elim h [ inl e ↦ rw e (omega arith) | inr e ↦ rw e (omega arith) ],
  λ x h. elim h [ inl e ↦ rw e refl | inr f ↦ absurd f ],
)

noh-IsNew : IsNew table 64
noh-IsNew = (
  digest_of-IsDigest 64,
  refl,
  λ h. elim h [ inl e ↦ omega (arith, e) | inr e ↦ omega (arith, e) ],
  λ h. elim h [ inl e ↦ omega (arith, e) | inr f ↦ f ],
)

lookup-IsCounted_example :
    (x : ℕ) × (h1 : Hash) × (lookup table 64 ≡ ok (x, h1)) × IsFound table 64 x h1
lookup-IsCounted_example = lookup-IsCounted table 64 table-IsCounted noh-IsNew

deref-IsCounted_example :
    (h1 : Hash) × (deref table 1 ≡ ok (1, h1))
    × IsCounted h1
    × (h1.refcnt 1 ≡ 1 - 1)
    × (◌≡◌ {A = ℕ} 1 1
        → ((x : ℕ) → Stands x h1.root.origo ↔ (Stands x two.origo × (x ≢ 1))) × In 1 h1.laylow)
    × (◌≢◌ {A = ℕ} 1 1 → (h1.root ≡ two) × (h1.laylow ≡ 7 ∷ []))
deref-IsCounted_example = deref-IsCounted table 1 table-IsCounted (inl refl) refl

abbrev cooling : Hash
cooling = record table { digest = λ x. 0 ∷ [] }

cooling-IsWaiting : IsWaiting 0 7 cooling
unfolding y_used
cooling-IsWaiting = (
  (λ f. f, tt),
  λ z h. elim h [ inl e ↦ rw e refl | inr f ↦ absurd f ],
  inl refl,
  refl,
  omega arith,
  refl,
)

sweeps-delete_example :
    (h1 h2 : Hash) × (gone : List ℕ) × (sweeps 60 cooling ≡ ok h1)
    × In 7 h1.laylow
    × (sweep h1 ≡ ok (gone, h2))
    × In 7 gone
sweeps-delete_example = sweeps-delete 7 cooling cooling-IsWaiting
