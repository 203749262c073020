-- ===== src/Ban/Flags.antt =====
-- BAN_AddTest keeps BAN_F_REQ true to the tests of a ban.
use varnish.Prelude.{
  ◌≡◌, inl, inr, refl, ap, Bool, false, Option, none, some, List, take, length, [], ◌∷◌, ◌++◌,
  arith, Bool-cases, Option-cases,
}
use mathlib.Core.Path.{subst}
use varnish.Prelude.Checked.{Checked, panic, ok, ◌>>=◌}
use varnish.Http.{Text}
use varnish.Vary.{eq_text}
use varnish.Ban.{Ban}
use varnish.Ban.Match.{Test, cond_obj_http}
use varnish.Ban.Parse.{add_test, find_pvar, pvars, Pvar, parse_cond, source_of, with_test}
use varnish.Ban.Lurker.{NeedsNone, IsFlagged}

NeedsNone-append :
    (ts : List Test) (bt : Test)
    → NeedsNone ts
    → bt.func ≡ some cond_obj_http
    → NeedsNone (ts ++ (bt ∷ []))
NeedsNone-append [] bt h e = (e, tt)
NeedsNone-append (t ∷ ts) bt h e = (h.0, NeedsNone-append ts bt h.1 e)

-- A row of the table without PVAR_REQ has the function that reads the object's headers.
IsRow : Pvar → Type 0
IsRow pv = pv.req ≡ false → pv.func ≡ cond_obj_http

AllRows : List Pvar → Type 0
AllRows [] = Unit {0}
AllRows (pv ∷ pvs) = IsRow pv × AllRows pvs

find_pvar-IsRow :
    (a1 : Text) (pvs : List Pvar) (pv : Pvar) → AllRows pvs → find_pvar a1 pvs ≡ some pv → IsRow pv
unfolding find_pvar AllRows
find_pvar-IsRow a1 [] pv all e = cc
find_pvar-IsRow a1 (p ∷ pvs) pv all e =
    elim (Bool-cases (eq_text (take (length p.name) a1) p.name)) [
      | inl t ↦
          let e1 : ◌≡◌ {A = Option Pvar} (some p) (some pv) = rw (t, find_pvar) at e in
          subst (λ o. elim o [ none ↦ Unit {0} | some q ↦ IsRow q ]) e1 all.0
      | inr t ↦ find_pvar-IsRow a1 pvs pv all.1 (rw (t, find_pvar) at e)
    ]

pvars-AllRows : AllRows pvars
unfolding pvars AllRows IsRow
pvars-AllRows = (λ r. cc, (λ r. cc, (λ r. refl, tt)))

with_test-IsFlagged :
    (b : Ban) (bt : Test) (pv : Pvar) (src a1 a2 a3 : Text)
    → IsFlagged b
    → IsRow pv
    → IsFlagged (with_test b bt pv src a1 a2 a3)
unfolding with_test IsRow
with_test-IsFlagged b bt pv src a1 a2 a3 f row = λ r.
    let r1 : b.req ≡ false = ground arith in
    let r2 : pv.req ≡ false = ground arith in NeedsNone-append b.tests _ (f r1) (ap some (row r2))

abbrev Flagged : Checked (Option Ban) → Type 0
Flagged panic = Unit {0}
Flagged (ok none) = Unit {0}
Flagged (ok (some b)) = IsFlagged b

source-Flagged :
    (m : Checked Text) (b : Ban) (bt : Test) (pv : Pvar) (a1 a2 a3 : Text)
    → IsFlagged b
    → IsRow pv
    → Flagged (m >>= (λ src. ok (some (with_test b bt pv src a1 a2 a3))))
source-Flagged panic b bt pv a1 a2 a3 f row = tt
source-Flagged (ok src) b bt pv a1 a2 a3 f row = with_test-IsFlagged b bt pv src a1 a2 a3 f row

-- BAN_AddTest sets BAN_F_REQ where it adds a test that looks at the request.
pub add_test-IsFlagged :
    (compiles : Text → Bool) (b b1 : Ban) (a1 a2 a3 : Text)
    → IsFlagged b
    → add_test compiles b a1 a2 a3 ≡ ok (some b1)
    → IsFlagged b1
unfolding add_test
add_test-IsFlagged compiles b b1 a1 a2 a3 f e = elim (Option-cases (parse_cond compiles a2 a3)) [
  | inl none_cond ↦ absurd (
      let e1 : ◌≡◌ {A = Checked (Option Ban)} (ok none) (ok (some b1)) =
        rw (none_cond, add_test) at e in
      cc)
  | inr (bt, some_cond) ↦ elim (Option-cases (find_pvar a1 pvars)) [
    | inl no_row ↦ absurd (
        let e1 : ◌≡◌ {A = Checked (Option Ban)} (ok none) (ok (some b1)) =
          rw (some_cond, no_row, add_test) at e in
        cc)
    | inr (pv, row) ↦
        let e1 : (source_of pv a1 >>= (λ src. ok (some (with_test b bt pv src a1 a2 a3))))
            ≡ ok (some b1) =
          rw (some_cond, row, add_test) at e in
        subst Flagged e1 (
          source-Flagged (source_of pv a1) b bt pv a1 a2 a3 f
            (find_pvar-IsRow a1 pvars pv pvars-AllRows row))
  ]
]
