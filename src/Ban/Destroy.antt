-- ===== src/Ban/Destroy.antt =====
-- BAN_CheckLast and BAN_DestroyObj: a ban goes when nothing refers to it.
use varnish.Prelude.{
  ℕ, ◌≡◌, ◌≢◌, ◌<◌, ◌≤◌, ◌⊎◌, inl, inr, refl, sym, ap, ◌∙◌, true, ◌==◌, ==_iff, ltb, lt→ltb,
  if◌then◌else◌, Option, none, some, List, [], ◌∷◌, length, arith, Bool-cases,
}
use mathlib.Core.Path.{subst}
use varnish.Prelude.Checked.{ok}
use varnish.Ban.{
  Ban, Object, at_ban, find_ban, release, drop_last, check_last, free, destroy_at, destroy_obj,
  is_empty,
}
use varnish.Ban.Refs.{IsHeld, AllHeld, IsLinked, release_lem, find_ban-AllHeld, In-length}

drop_last_one :
    (b : Ban)
    → (drop_last (b ∷ []) ≡ (b ∷ [], none))
      ⊎ ((b.refcount ≡ 0) × (drop_last (b ∷ []) ≡ ([], some b)))
unfolding drop_last
drop_last_one b = elim (Bool-cases (b.refcount == 0)) [
  | inl t ↦ inr ((==_iff b.refcount 0).0 t, ap (λ q. if q then ([], some b) else (b ∷ [], none)) t)
  | inr t ↦ inl (ap (λ q. if q then ([], some b) else (b ∷ [], none)) t)
]

-- Only a ban without references is dropped: it has no objects, and every other ban is still found.
abbrev Dropped : List Ban → List Ban × Option Ban → Type 0
Dropped bans r =
    (free r.1 ≡ ok tt)
    × AllHeld r.0
    × ((j : ℕ) (c : Ban) → find_ban j bans ≡ some c → 0 < c.refcount → find_ban j r.0 ≡ some c)

is_empty-length : (l : List ℕ) → length l ≤ 0 → is_empty l ≡ true
is_empty-length [] h = refl
is_empty-length (x ∷ xs) h = absurd (omega arith)

find_ban_next :
    (j : ℕ) (b d : Ban) (bs cs : List Ban)
    → find_ban j (b ∷ bs) ≡ some d
    → (find_ban j bs ≡ some d → find_ban j cs ≡ some d)
    → find_ban j (b ∷ cs) ≡ some d
unfolding find_ban
find_ban_next j b d bs cs e step = elim (Bool-cases (b.id == j)) [
  | inl t ↦ rw (t, find_ban) (rw (t, find_ban) at e)
  | inr t ↦ rw (t, find_ban) (step (rw (t, find_ban) at e))
]

-- The only ban of a list, where one with references is found
find_ban_only :
    (j : ℕ) (b d : Ban) → find_ban j (b ∷ []) ≡ some d → b.refcount ≡ 0 → 0 < d.refcount → ⊥
unfolding find_ban
find_ban_only j b d e z p = elim (Bool-cases (b.id == j)) [
  | inl t ↦
      let e1 : ◌≡◌ {A = Option Ban} (some b) (some d) = rw (t, find_ban) at e in
      let zd = subst (λ o. elim o [ none ↦ Unit {0} | some y ↦ y.refcount ≡ 0 ]) e1 z in
      omega (arith, zd, p)
  | inr t ↦ (let e1 : ◌≡◌ {A = Option Ban} none (some d) = rw (t, find_ban) at e in cc)
]

free_held : (b : Ban) → IsHeld b → b.refcount ≡ 0 → free (some b) ≡ ok tt
unfolding free
free_held b h e =
    let z : (b.refcount == 0) ≡ true = (==_iff b.refcount 0).1 e in
    let n = is_empty-length b.objcore (omega arith) in rw (z, n) refl

drop_last-Dropped : (bans : List Ban) → AllHeld bans → Dropped bans (drop_last bans)
unfolding drop_last free find_ban
drop_last-Dropped [] all = (refl, tt, λ j c e p. e)
drop_last-Dropped (b ∷ []) all = elim (drop_last_one b) [
  | inl e ↦ subst (Dropped (b ∷ [])) (sym e) (refl, all, λ j c e p. e)
  | inr (z, e) ↦
      subst (Dropped (b ∷ [])) (sym e)
        (free_held b all.0 z, tt, λ j c e p. absurd (find_ban_only j b c e z p))
]
drop_last-Dropped (b ∷ c ∷ bs) all =
    let (freed, held, finds) = drop_last-Dropped (c ∷ bs) all.1 in
    (freed, (all.0, held), λ j d e p. find_ban_next j b d (c ∷ bs) _ e (λ h. finds j d h p))

check_last-Dropped : (bans : List Ban) → AllHeld bans → Dropped bans (check_last bans)
unfolding check_last free find_ban
check_last-Dropped [] all = (refl, tt, λ j c e p. e)
check_last-Dropped (b ∷ bs) all =
    let (freed, held, finds) = drop_last-Dropped bs all.1 in
    (freed, (all.0, held), λ j d e p. find_ban_next j b d bs _ e (λ h. finds j d h p))

destroy_run :
    (bans : List Ban) (o : Object) (i : ℕ) (b : Ban)
    → find_ban i bans ≡ some b
    → ltb 0 b.refcount ≡ true
    → free (check_last (at_ban i (release o.id) bans)).1 ≡ ok tt
    → destroy_at bans o i
      ≡ ok ((check_last (at_ban i (release o.id) bans)).0, record o { ban = none })
unfolding destroy_at
destroy_run bans o i b found pos freed = rw (found, destroy_at) (rw (pos, freed) refl)

-- BAN_DestroyObj of an object that holds a reference asserts nothing that fails, the assertions of
-- BAN_Free included. Every ban keeps a reference for each object on its list, and every other object
-- finds its ban on the list as before: a ban is freed only when nothing refers to it.
pub destroy_obj-AllHeld :
    (bans : List Ban) (o : Object) (i : ℕ)
    → AllHeld bans
    → o.ban ≡ some i
    → IsLinked bans o.id i
    → (bans1 : List Ban) × (destroy_obj bans o ≡ ok (bans1, record o { ban = none }))
      × AllHeld bans1
      × ((x j : ℕ) → x ≢ o.id → IsLinked bans x j → IsLinked bans1 x j)
unfolding destroy_obj
destroy_obj-AllHeld bans o i all e linked =
    let (all1, others) = release_lem bans o.id i all linked in
    let bans1 = at_ban i (release o.id) bans in
    let (freed, held, finds) = check_last-Dropped bans1 all1 in
    let (b, found, on) = linked in
    let pos : ltb 0 b.refcount ≡ true =
      lt→ltb _ _
        (omega (arith, In-length o.id b.objcore on, find_ban-AllHeld i bans b all found)) in
    (
      (check_last bans1).0,
      ap (λ p. elim p [ none ↦ ok (bans, o) | some i ↦ destroy_at bans o i ]) e
          ∙ destroy_run bans o i b found pos freed,
      held,
      λ x j n l.
          let (c, found1, on1) = others x j n l in
          (
            c,
            finds j c found1
                (omega (arith, In-length x c.objcore on1, find_ban-AllHeld j bans1 c all1 found1)),
            on1,
          ),
    )
