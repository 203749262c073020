-- ===== src/Ban/Dups.antt =====
-- BAN_Insert marks older bans with the same text as gone; no object is judged otherwise for it.
use varnish.Prelude.{
  ℕ, ◌≡◌, inl, inr, refl, sym, ap, ◌∙◌, Bool, true, false, not, ◌==◌, ◌&&◌, if◌then◌else◌, List, [],
  ◌∷◌, Bool-cases,
}
use varnish.Prelude.Checked.{Checked, panic, ok, ◌>>=◌}
use varnish.Http.{Text, Http}
use varnish.Vary.{eq_text}
use varnish.Ban.{Ban, Verdict, kept, banned, undecided, scan, mark_dup, mark_dups, insert}
use varnish.Ban.Match.{Test, run_tests}

-- Each ban of the list with the text has these tests and this BAN_F_REQ. (BAN_AddTest builds all
-- three from the same words.)
abbrev pub SameTests : Text → List Test → Bool → List Ban → Type 0
SameTests t ts r [] = Unit {0}
SameTests t ts r (b ∷ bs) =
    (eq_text t b.text ≡ true → (b.tests ≡ ts) × (b.req ≡ r)) × SameTests t ts r bs

-- One round of the loop, as a function of what it reads of the ban.
abbrev round : Bool → Bool → Bool → Bool → Checked Bool → Checked Verdict → Checked Verdict
round here gone has_req r run next = elim here [
  | true ↦ ok kept
  | false ↦ elim gone [
    | true ↦ next
    | false ↦ elim (not has_req && r) [
      | true ↦ ok undecided
      | false ↦ run >>= (λ all. elim all [ true ↦ ok banned | false ↦ next ])
    ]
  ]
]

mark_gone : (t : Text) (b : Ban) → b.gone ≡ true → mark_dup t b ≡ b
unfolding mark_dup
mark_gone t b g =
    ap (λ q. if q then b else if eq_text t b.text then record b { gone = true } else b) g

mark_other : (t : Text) (b : Ban) → b.gone ≡ false → eq_text t b.text ≡ false → mark_dup t b ≡ b
unfolding mark_dup
mark_other t b g e =
    ap (λ q. if q then b else if eq_text t b.text then record b { gone = true } else b) g
    ∙ ap (λ q. if q then record b { gone = true } else b) e

mark_same :
    (t : Text) (b : Ban)
    → b.gone ≡ false
    → eq_text t b.text ≡ true
    → mark_dup t b ≡ record b { gone = true }
unfolding mark_dup
mark_same t b g e =
    ap (λ q. if q then b else if eq_text t b.text then record b { gone = true } else b) g
    ∙ ap (λ q. if q then record b { gone = true } else b) e

module _ (exec : Text → Text → Bool) (has_req : Bool) (obj req : Http) (stop : ℕ) where
  scan-cons :
      (b : Ban) (bs : List Ban)
      → scan exec has_req obj req stop (b ∷ bs)
        ≡ round
            (b.id == stop)
            b.gone
            has_req
            b.req
            (run_tests exec obj req b.tests)
            (scan exec has_req obj req stop bs)
  unfolding scan
  scan-cons b bs = refl

  skipped :
      (here r : Bool) (next : Checked Verdict)
      → (not has_req && r) ≡ false
      → round here true has_req r (ok false) next ≡ round here false has_req r (ok false) next
  skipped true r next u = refl
  skipped false r next u = rw (u, round) refl

  scan-mark_dups :
      (t : Text) (ts : List Test) (r : Bool) (bs : List Ban)
      → SameTests t ts r bs
      → run_tests exec obj req ts ≡ ok false
      → (not has_req && r) ≡ false
      → scan exec has_req obj req stop (mark_dups t bs) ≡ scan exec has_req obj req stop bs
  unfolding mark_dups
  scan-mark_dups t ts r [] same run u = refl
  scan-mark_dups t ts r (b ∷ bs) same run u =
      let ih = scan-mark_dups t ts r bs same.1 run u in
      let tail = λ (x : Ban).
        scan-cons x (mark_dups t bs)
        ∙ ap (λ z. round (x.id == stop) x.gone has_req x.req (run_tests exec obj req x.tests) z)
            ih in
      elim (Bool-cases b.gone) [
        | inl g ↦
            ap (λ x. scan exec has_req obj req stop (x ∷ mark_dups t bs)) (mark_gone t b g)
            ∙ tail b
            ∙ sym (scan-cons b bs)
        | inr g ↦ elim (Bool-cases (eq_text t b.text)) [
          | inr e ↦
              ap (λ x. scan exec has_req obj req stop (x ∷ mark_dups t bs)) (mark_other t b g e)
              ∙ tail b
              ∙ sym (scan-cons b bs)
          | inl e ↦
              let (ts_same, r_same) = same.0 e in
              let next = scan exec has_req obj req stop bs in
              let run_b : run_tests exec obj req b.tests ≡ ok false =
                ap (run_tests exec obj req) ts_same ∙ run in
              let u_b : (not has_req && b.req) ≡ false = ap (λ q. not has_req && q) r_same ∙ u in
              ap (λ x. scan exec has_req obj req stop (x ∷ mark_dups t bs)) (mark_same t b g e)
              ∙ tail (record b { gone = true })
              ∙ ap (λ q. round (b.id == stop) true has_req b.req q next) run_b
              ∙ skipped (b.id == stop) b.req next u_b
              ∙ ap (λ q. round (b.id == stop) false has_req b.req q next) (sym run_b)
              ∙ ap (λ g. round (b.id == stop) g has_req b.req (run_tests exec obj req b.tests) next)
                  (sym g)
              ∙ sym (scan-cons b bs)
        ]
      ]

  -- Whether BAN_Insert marks duplicates makes no difference to any object whose ban is older than the
  -- new one: the loop of ban_check_object ends the same way, with a request and without one, if the
  -- bans with the new ban's text have its tests and its BAN_F_REQ.
  pub scan-insert :
      (now : ℕ) (b : Ban) (bans : List Ban)
      → SameTests b.text b.tests b.req bans
      → b.gone ≡ false
      → (b.id == stop) ≡ false
      → scan exec has_req obj req stop (insert true now b bans)
        ≡ scan exec has_req obj req stop (insert false now b bans)
  unfolding insert
  scan-insert now b bans same g other =
      let head = record b { t0 = now } in
      scan-cons head (mark_dups b.text bans)
      ∙ after (b.id == stop) b.gone b.req (run_tests exec obj req b.tests) _ _ g other
          (λ run u. scan-mark_dups b.text b.tests b.req bans same run u)
      ∙ sym (scan-cons head bans)
    where
      judged :
          (run : Checked Bool) (s1 s2 : Checked Verdict)
          → (run ≡ ok false → s1 ≡ s2)
          → (run >>= (λ all. elim all [ true ↦ ok banned | false ↦ s1 ]))
            ≡ (run >>= (λ all. elim all [ true ↦ ok banned | false ↦ s2 ]))
      judged panic s1 s2 same = refl
      judged (ok true) s1 s2 same = refl
      judged (ok false) s1 s2 same = same refl

      after :
          (here gone r : Bool) (run : Checked Bool) (s1 s2 : Checked Verdict)
          → gone ≡ false
          → here ≡ false
          → (run ≡ ok false → (not has_req && r) ≡ false → s1 ≡ s2)
          → round here gone has_req r run s1 ≡ round here gone has_req r run s2
      after true gone r run s1 s2 g h same = cc
      after false true r run s1 s2 g h same = cc
      after false false r run s1 s2 g h same = elim (Bool-cases (not has_req && r)) [
        | inl u ↦ rw (u, round) refl
        | inr u ↦ rw (u, round) (judged run s1 s2 (λ e. same e u))
      ]
