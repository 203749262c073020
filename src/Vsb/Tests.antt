-- ===== src/Vsb/Tests.antt =====
-- Runs of vsb.c, and the theorems at them.
use varnish.Prelude.{
  ℕ, ◌+◌, ◌⊎◌, ◌<◌, ◌≤◌, ◌≡◌, ◌↔◌, refl, inl, inr, Bool, true, false, not, Option, none, some, List,
  [], ◌∷◌, ◌++◌, arith, length-replicate, take, replicate, get_elem?,
}
use varnish.Prelude.Checked.{ok, panic}
use varnish.Vsb.{Vsb, new, bcat, cat, printf, putc, setpos, trim, finish, text, len}
use varnish.Vsb.Size.{extend_size, extend_size_lem, Grown}
use varnish.Vsb.Inv.{IsValid, IsMalloc, contents, Stuck}
use varnish.Vsb.Append.{Outcome, bcat_lem}
use varnish.Vsb.Printf.{printf_lem}
use varnish.Vsb.Finish.{finish_lem, trim_lem, AllSpace, IsTrimmed}

abbrev heap : ℕ → Option (List ℕ)
heap n = some (replicate n 0)

heap-IsMalloc : IsMalloc heap
heap-IsMalloc n b h = ground (arith, length-replicate {A = ℕ} n 0)

-- four bytes of fixed length, "a " written
abbrev small : Vsb
small = record {
  buf = b'a' ∷ b' ' ∷ 0 ∷ 0 ∷ [];
  size = 4;
  len = 2;
  autoextend = false;
  dynamic = false;
  finished = false;
  overflowed = false;
  dynstruct = false;
}

small-IsValid : IsValid small
small-IsValid = omega arith

abbrev xy : List ℕ
xy = b'x' ∷ b'y' ∷ []

abbrev x : List ℕ
x = b'x' ∷ []

bcat_overflows :
    bcat heap small xy
    ≡ ok (false, record small { buf = b'a' ∷ b' ' ∷ b'x' ∷ 0 ∷ []; len = 3; overflowed = true })
unfolding bcat varnish.Vsb.append varnish.Vsb.make_room varnish.Vsb.extend
bcat_overflows = refl

bcat_lem_example :
    (done : Bool) × (u : Vsb) × (bcat heap small xy ≡ ok (done, u))
    × Outcome heap heap-IsMalloc small xy done u
bcat_lem_example = bcat_lem heap heap-IsMalloc small xy small-IsValid refl refl (omega arith)

-- the text fits, and the result is -1
printf_just_fits :
    printf heap small x
    ≡ ok (
        some
          (false, record small { buf = b'a' ∷ b' ' ∷ b'x' ∷ 0 ∷ []; len = 3; overflowed = true }))
unfolding printf varnish.Vsb.format varnish.Vsb.settle varnish.Vsb.mark
printf_just_fits = refl

printf_lem_example :
    (done : Bool) × (u : Vsb) × (k : ℕ) × (printf heap small x ≡ ok (some (done, u)))
    × IsValid u
    × (k ≤ 1)
    × (contents u ≡ b'a' ∷ b' ' ∷ [] ++ take k x)
    × (k < 1 → Stuck heap heap-IsMalloc small × (u.len + 1 ≡ u.size))
    × (u.overflowed ≡ not done)
    × ((u.overflowed ≡ true) ↔ ((◌≡◌ {A = Bool} false false) × (u.len + 1 ≡ u.size)))
    × ((u.autoextend ≡ false) × (u.finished ≡ false))
    × ((u.size ≤ 4) ⊎ (u.size < 2 + 1 + 4097))
printf_lem_example = printf_lem heap heap-IsMalloc small x small-IsValid refl refl (omega arith)

finish_lem_example :
    (u : Vsb) × (buf : List ℕ) × (finish small ≡ ok u)
    × (text u ≡ ok buf)
    × (take 2 buf ≡ b'a' ∷ b' ' ∷ [])
    × (get_elem? buf 2 ≡ some 0)
    × (len u ≡ ok (some 2))
    × (u.overflowed ≡ false)
finish_lem_example = finish_lem small small-IsValid refl

trim_lem_example :
    (u : Vsb) × (ws : List ℕ) × (trim small ≡ ok (true, u))
    × IsValid u
    × (b'a' ∷ b' ' ∷ [] ≡ contents u ++ ws)
    × AllSpace ws
    × IsTrimmed (contents u)
trim_lem_example = trim_lem small small-IsValid refl refl

abbrev auto : Vsb
auto = record {
  buf = replicate 16 0;
  size = 16;
  len = 0;
  autoextend = true;
  dynamic = true;
  finished = false;
  overflowed = false;
  dynstruct = true;
}

new-auto : new heap false true none 0 true ≡ ok (some auto)
unfolding new varnish.Vsb.Size.extend_size
new-auto = refl

-- The largest `int` overflows.
extend_size_overflows : extend_size 2147483647 ≡ panic
extend_size_overflows = elim (extend_size_lem 2147483647) [
  | inl (fits, _) ↦ absurd (omega (arith, fits))
  | inr (_, e) ↦ e
]

extend_size_lem_example : Grown 5000 (extend_size 5000)
extend_size_lem_example = extend_size_lem 5000
