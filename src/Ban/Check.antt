-- ===== src/Ban/Check.antt =====
-- What the loop of ban_check_object decides, with a request and without one.
use varnish.Prelude.{
  ℕ, ◌≡◌, inl, inr, refl, Bool, true, false, not, ◌==◌, ◌&&◌, ◌||◌, if◌then◌else◌, List, [], ◌∷◌,
  arith, Bool-cases,
}
use mathlib.Core.Path.{subst}
use varnish.Prelude.Checked.{Checked, ok}
use varnish.Http.{Text, Http}
use varnish.Ban.{Ban, Verdict, kept, banned, undecided, scan}
use varnish.Ban.Match.{run_tests}

-- The bans that are newer than the ban at `stop`
unfoldable pub newer : ℕ → List Ban → List Ban
newer stop [] = []
newer stop (b ∷ bs) = let rest = newer stop bs in if b.id == stop then [] else b ∷ rest

unfoldable pub is_listed : ℕ → List Ban → Bool
is_listed stop [] = false
is_listed stop (b ∷ bs) = b.id == stop || is_listed stop bs

abbrev pub any_ban : (Ban → Bool) → List Ban → Bool
any_ban p [] = false
any_ban p (b ∷ bs) = p b || any_ban p bs

-- `outcome` is what the tests of each ban say, none of which fails.
abbrev pub Tested : (Text → Text → Bool) → Http → Http → (Ban → Bool) → List Ban → Type 0
Tested exec obj req outcome [] = Unit {0}
Tested exec obj req outcome (b ∷ bs) =
    (run_tests exec obj req b.tests ≡ ok (outcome b)) × Tested exec obj req outcome bs

merge :
    (gone out rest : Bool)
    → ◌≡◌ {A = Checked Verdict}
        (if gone
          then ok (if rest then banned else kept)
          else if not true && false
          then ok undecided
          else if out
          then ok banned
          else ok (if rest then banned else kept))
        (ok (if (not gone && out) || rest then banned else kept))
merge true out rest = refl
merge false true rest = refl
merge false false rest = refl

module _ (exec : Text → Text → Bool) (obj req : Http) (stop : ℕ) where
  -- The loop at the object's own ban, and at one before it.
  pub scan_here :
      (has_req : Bool) (b : Ban) (bs : List Ban)
      → (b.id == stop) ≡ true
      → scan exec has_req obj req stop (b ∷ bs) ≡ ok kept
  unfolding scan
  scan_here has_req b bs e = rw (e, scan) refl

  scan_before :
      (has_req : Bool) (b : Ban) (bs : List Ban) (all : Bool)
      → (b.id == stop) ≡ false
      → run_tests exec obj req b.tests ≡ ok all
      → scan exec has_req obj req stop (b ∷ bs) ≡ (
          if b.gone
          then scan exec has_req obj req stop bs
          else if not has_req && b.req
          then ok undecided
          else if all
          then ok banned
          else scan exec has_req obj req stop bs)
  unfolding scan
  scan_before has_req b bs all e run = elim (Bool-cases b.gone) [
    | inl g ↦ rw (e, g, scan) refl
    | inr g ↦ elim (Bool-cases (not has_req && b.req)) [
      | inl u ↦ rw (e, g, u, scan) refl
      | inr u ↦ elim (Bool-cases all) [
        | inl o ↦ rw (e, g, u, run, o, scan) refl
        | inr o ↦ rw (e, g, u, run, o, scan) refl
      ]
    ]
  ]

  newer_before :
      (b : Ban) (bs : List Ban) → (b.id == stop) ≡ false → newer stop (b ∷ bs) ≡ b ∷ newer stop bs
  unfolding newer
  newer_before b bs e = rw (e, newer) refl

  -- With a request the loop bans an object exactly where one of the bans that are newer than the
  -- object's own is not gone and has tests that all match; no ban older than that one is tested.
  pub scan_lem :
      (outcome : Ban → Bool) (bans : List Ban)
      → is_listed stop bans ≡ true
      → Tested exec obj req outcome (newer stop bans)
      → scan exec true obj req stop bans
        ≡ ok (if any_ban (λ b. not b.gone && outcome b) (newer stop bans) then banned else kept)
  unfolding newer is_listed
  scan_lem outcome [] e t = cc
  scan_lem outcome (b ∷ bs) l t = elim (Bool-cases (b.id == stop)) [
    | inl e ↦ rw (scan_here true b bs e, e, newer) refl
    | inr e ↦
        let l1 : is_listed stop bs ≡ true = ground (arith, l, e) in
        let split = newer_before b bs e in
        let t1 = subst (λ n. Tested exec obj req outcome n) split t in
        let ih = scan_lem outcome bs l1 t1.1 in
        rw (scan_before true b bs (outcome b) e t1.0, split, ih) (merge b.gone (outcome b) _)
  ]
