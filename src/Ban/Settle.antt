-- ===== src/Ban/Settle.antt =====
-- What ban_check_object does to the references.
use varnish.Prelude.{
  ℕ, ◌≡◌, ◌≢◌, inl, inr, refl, sym, ap, ◌∙◌, Bool, true, false, ◌==◌, ==_iff, Option, none, some,
  List, ◌∷◌, Bool-cases,
}
use mathlib.Core.Path.{subst}
use varnish.Prelude.Checked.{panic, ok, ◌>>=◌}
use varnish.Http.{Text, Http}
use varnish.Ban.{
  Ban, Object, at_ban, find_ban, hold, release, Verdict, kept, banned, undecided, settle, scan,
  check_object,
}
use varnish.Ban.Refs.{In, AllHeld, IsLinked, release_lem, hold-IsHeld, In-left, In-end}

-- The first ban takes the object's reference.
hold-IsLinked :
    (o x j : ℕ) (b : Ban) (bs : List Ban) → IsLinked (b ∷ bs) x j → IsLinked (hold o b ∷ bs) x j
unfolding find_ban
hold-IsLinked o x j b bs (c, found, on) = elim (Bool-cases (b.id == j)) [
  | inl t ↦
      let e1 : ◌≡◌ {A = Option Ban} (some b) (some c) = rw (t, find_ban) at found in
      let on1 = subst (λ p. elim p [ none ↦ Unit {0} | some y ↦ In x y.objcore ]) (sym e1) on in
      (hold o b, rw (t, find_ban) refl, In-left x o b.objcore on1)
  | inr t ↦ (c, rw (t, find_ban) (rw (t, find_ban) at found), on)
]

hold_self : (o : ℕ) (b : Ban) (bs : List Ban) → IsLinked (hold o b ∷ bs) o b.id
unfolding find_ban
hold_self o b bs =
    let t : (b.id == b.id) ≡ true = (==_iff b.id b.id).1 refl in
    (hold o b, rw (t, find_ban) refl, In-end o b.objcore)

-- After a step the object `o` finds the ban that it names, if it names one, and every other object
-- the ban that it had.
abbrev pub Settled : List Ban → ℕ → Bool × List Ban × Object → Type 0
Settled bans o r =
    AllHeld r.1
    × ((x j : ℕ) → x ≢ o → IsLinked bans x j → IsLinked r.1 x j)
    × ((j : ℕ) → r.2.ban ≡ some j → IsLinked r.1 o j)

untouched-Settled :
    (bans : List Ban) (o : Object) (i : ℕ) (b : Bool)
    → AllHeld bans
    → o.ban ≡ some i
    → IsLinked bans o.id i
    → Settled bans o.id (b, bans, o)
untouched-Settled bans o i b all e linked = (
  all,
  λ x j n l. l,
  λ j q. subst (λ p. elim p [ none ↦ Unit {0} | some k ↦ IsLinked bans o.id k ]) (sym e ∙ q) linked,
)

settle-Settled :
    (v : Verdict) (b0 : Ban) (bs : List Ban) (o : Object) (i : ℕ)
    → AllHeld (b0 ∷ bs)
    → o.ban ≡ some i
    → IsLinked (b0 ∷ bs) o.id i
    → (b0.id == i) ≡ false
    → Settled (b0 ∷ bs) o.id (settle v b0 bs o i)
unfolding settle at_ban
settle-Settled undecided b0 bs o i all e linked t =
    untouched-Settled (b0 ∷ bs) o i false all e linked
settle-Settled kept b0 bs o i all e linked t =
    let (all1, others) = release_lem (b0 ∷ bs) o.id i all linked in
    let same : at_ban i (release o.id) (b0 ∷ bs) ≡ b0 ∷ at_ban i (release o.id) bs =
      rw (t, at_ban) refl in
    let all2 = subst AllHeld same all1 in
    (
      (hold-IsHeld o.id b0 all2.0, all2.1),
      λ x j n l. hold-IsLinked o.id x j b0 _ (subst (λ p. IsLinked p x j) same (others x j n l)),
      λ j q.
          subst
            (λ p. elim p [
              | none ↦ Unit {0}
              | some k ↦ IsLinked (hold o.id b0 ∷ at_ban i (release o.id) bs) o.id k
            ])
            q (hold_self o.id b0 _),
    )
settle-Settled banned b0 bs o i all e linked t =
    let (all1, others) = release_lem (b0 ∷ bs) o.id i all linked in
    let same : at_ban i (release o.id) (b0 ∷ bs) ≡ b0 ∷ at_ban i (release o.id) bs =
      rw (t, at_ban) refl in
    (
      subst AllHeld same all1,
      λ x j n l. subst (λ p. IsLinked p x j) same (others x j n l),
      λ j q. cc,
    )

-- ban_check_object of an object that holds a reference, where the loop ends: every ban keeps a
-- reference for each object on its list, the object names no ban or one on whose list it stands, and
-- every other object finds its ban as before.
pub check_object-Settled :
    (exec : Text → Text → Bool) (has_req : Bool) (req : Http) (b0 : Ban) (bs : List Ban)
    (o : Object) (i : ℕ) (v : Verdict)
    → AllHeld (b0 ∷ bs)
    → o.ban ≡ some i
    → IsLinked (b0 ∷ bs) o.id i
    → scan exec has_req o.http req i (b0 ∷ bs) ≡ ok v
    → (r : Bool × List Ban × Object) × (check_object exec has_req req (b0 ∷ bs) o ≡ ok r)
      × Settled (b0 ∷ bs) o.id r
unfolding check_object
check_object-Settled exec has_req req b0 bs o i v all e linked run =
    elim (Bool-cases (b0.id == i)) [
      | inl t ↦ (
        (false, b0 ∷ bs, o),
        ap
              (λ p. elim p [
                | none ↦ panic
                | some i ↦ elim (b0.id == i) [
                  | true ↦ ok (false, b0 ∷ bs, o)
                  | false ↦
                      scan exec has_req o.http req i (b0 ∷ bs) >>= (λ v. ok (settle v b0 bs o i))
                ]
              ])
              e
            ∙ rw t refl,
        untouched-Settled (b0 ∷ bs) o i false all e linked,
      )
      | inr t ↦ (
        settle v b0 bs o i,
        ap
              (λ p. elim p [
                | none ↦ panic
                | some i ↦ elim (b0.id == i) [
                  | true ↦ ok (false, b0 ∷ bs, o)
                  | false ↦
                      scan exec has_req o.http req i (b0 ∷ bs) >>= (λ v. ok (settle v b0 bs o i))
                ]
              ])
              e
            ∙ rw (t, run) refl,
        settle-Settled v b0 bs o i all e linked t,
      )
    ]
