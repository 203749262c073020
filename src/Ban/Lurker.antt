-- ===== src/Ban/Lurker.antt =====
-- The lurker thread tests an object without a request; what it decides, any request would.
use varnish.Prelude.{
  ℕ, ◌≡◌, ◌≢◌, inl, inr, refl, sym, ap, ◌∙◌, Bool, true, false, ◌==◌, none, some, List, [], ◌∷◌,
  Bool-cases,
}
use varnish.Prelude.Checked.{Checked, panic, ok, ◌>>=◌}
use varnish.Http.{Text, Http}
use varnish.Ban.{Ban, Verdict, banned, undecided, scan}
use varnish.Ban.Check.{scan_here}
use varnish.Ban.Match.{Test, Cond, cond_obj_http, run_tests, cond}

-- No test of the list looks at the request.
abbrev pub NeedsNone : List Test → Type 0
NeedsNone [] = Unit {0}
NeedsNone (bt ∷ bts) = (bt.func ≡ some cond_obj_http) × NeedsNone bts

-- A ban without BAN_F_REQ has no test that looks at the request.
abbrev pub IsFlagged : Ban → Type 0
IsFlagged b = b.req ≡ false → NeedsNone b.tests

abbrev pub AllFlagged : List Ban → Type 0
AllFlagged [] = Unit {0}
AllFlagged (b ∷ bs) = IsFlagged b × AllFlagged bs

run_tests_next :
    (exec : Text → Text → Bool) (obj req : Http) (bt : Test) (bts : List Test) (f : Cond)
    → bt.func ≡ some f
    → run_tests exec obj req (bt ∷ bts) ≡ (
        cond exec f bt obj req
        >>= (λ m. elim m [ true ↦ run_tests exec obj req bts | false ↦ ok false ]))
unfolding run_tests
run_tests_next exec obj req bt bts f h =
    ap
      (λ o. elim o [
        | none ↦ panic
        | some f ↦
            cond exec f bt obj req
            >>= (λ m. elim m [ true ↦ run_tests exec obj req bts | false ↦ ok false ])
      ])
      h

run_tests-NeedsNone :
    (exec : Text → Text → Bool) (obj req1 req2 : Http) (ts : List Test)
    → NeedsNone ts
    → run_tests exec obj req1 ts ≡ run_tests exec obj req2 ts
unfolding run_tests cond
run_tests-NeedsNone exec obj req1 req2 [] h = refl
run_tests-NeedsNone exec obj req1 req2 (bt ∷ bts) h =
    run_tests_next exec obj req1 bt bts cond_obj_http h.0
    ∙ ap
        (λ z. cond exec cond_obj_http bt obj req1 >>= (λ m. elim m [ true ↦ z | false ↦ ok false ]))
        (run_tests-NeedsNone exec obj req1 req2 bts h.1)
    ∙ sym (run_tests_next exec obj req2 bt bts cond_obj_http h.0)

abbrev judge : Checked Verdict → Checked Bool → Checked Verdict
judge next r = r >>= (λ all. elim all [ true ↦ ok banned | false ↦ next ])

judge_mono :
    (r : Checked Bool) (s1 s2 : Checked Verdict) (v : Verdict)
    → (s1 ≡ ok v → s2 ≡ ok v)
    → judge s1 r ≡ ok v
    → judge s2 r ≡ ok v
judge_mono panic s1 s2 v imp e = e
judge_mono (ok true) s1 s2 v imp e = e
judge_mono (ok false) s1 s2 v imp e = imp e

-- The verdict of a run, where it has one.
abbrev verdict_of : Checked Verdict → Verdict
verdict_of panic = undecided
verdict_of (ok v) = v

module _ (exec : Text → Text → Bool) (obj req : Http) (stop : ℕ) where
  scan_gone :
      (has_req : Bool) (b : Ban) (bs : List Ban)
      → (b.id == stop) ≡ false
      → b.gone ≡ true
      → scan exec has_req obj req stop (b ∷ bs) ≡ scan exec has_req obj req stop bs
  unfolding scan
  scan_gone has_req b bs e g = rw (e, g, scan) refl

  scan_undecided :
      (b : Ban) (bs : List Ban)
      → (b.id == stop) ≡ false
      → b.gone ≡ false
      → b.req ≡ true
      → scan exec false obj req stop (b ∷ bs) ≡ ok undecided
  unfolding scan
  scan_undecided b bs e g r = rw (e, g, r, scan) refl

  scan_tested :
      (has_req : Bool) (b : Ban) (bs : List Ban)
      → (b.id == stop) ≡ false
      → b.gone ≡ false
      → b.req ≡ false
      → scan exec has_req obj req stop (b ∷ bs)
        ≡ judge (scan exec has_req obj req stop bs) (run_tests exec obj req b.tests)
  unfolding scan
  scan_tested true b bs e g r = rw (e, g, scan) refl
  scan_tested false b bs e g r = rw (e, g, r, scan) refl

-- What the loop decides without a request, which is to keep or to ban the object, it decides with
-- every request too, if BAN_F_REQ is set on the bans whose tests look at a request.
pub scan-AllFlagged :
    (exec : Text → Text → Bool) (obj req1 req2 : Http) (stop : ℕ) (bans : List Ban) (v : Verdict)
    → AllFlagged bans
    → scan exec false obj req1 stop bans ≡ ok v
    → v ≢ undecided
    → scan exec true obj req2 stop bans ≡ ok v
unfolding scan
scan-AllFlagged exec obj req1 req2 stop [] v f e n = e
scan-AllFlagged exec obj req1 req2 stop (b ∷ bs) v f e n = elim (Bool-cases (b.id == stop)) [
  | inl here ↦
      scan_here exec obj req2 stop true b bs here
      ∙ sym (scan_here exec obj req1 stop false b bs here)
      ∙ e
  | inr other ↦ elim (Bool-cases b.gone) [
    | inl g ↦
        let e1 = sym (scan_gone exec obj req1 stop false b bs other g) ∙ e in
        scan_gone exec obj req2 stop true b bs other g
        ∙ scan-AllFlagged exec obj req1 req2 stop bs v f.1 e1 n
    | inr g ↦ elim (Bool-cases b.req) [
      | inl r ↦
          let e1 = sym (scan_undecided exec obj req1 stop b bs other g r) ∙ e in
          absurd (n (ap verdict_of (sym e1)))
      | inr r ↦
          let same = run_tests-NeedsNone exec obj req1 req2 b.tests (f.0 r) in
          let e1 = sym (scan_tested exec obj req1 stop false b bs other g r) ∙ e in
          let ih : scan exec false obj req1 stop bs ≡ ok v
              → scan exec true obj req2 stop bs ≡ ok v =
            λ h. scan-AllFlagged exec obj req1 req2 stop bs v f.1 h n in
          scan_tested exec obj req2 stop true b bs other g r
          ∙ ap (λ q. judge (scan exec true obj req2 stop bs) q) (sym same)
          ∙ judge_mono (run_tests exec obj req1 b.tests) _ _ v ih e1
    ]
  ]
]
