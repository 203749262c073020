-- ===== src/Ban/Refs.antt =====
-- The references that objects hold to bans: no ban is freed that an object needs.
use varnish.Prelude.{
  ℕ, suc, ◌≡◌, ◌≢◌, ◌<◌, ◌≤◌, ◌⊎◌, inl, inr, refl, sym, ap, ◌∙◌, true, false, ◌==◌, ==_iff,
  if◌then◌else◌, Option, none, some, List, [], ◌∷◌, ◌++◌, length, length-append, arith, Bool-cases,
}
use mathlib.Core.Path.{subst}
use varnish.Ban.{Ban, at_ban, find_ban, remove_obj, hold, release}

abbrev pub In : ℕ → List ℕ → Type 0
In x [] = ⊥
In x (z ∷ zs) = (x ≡ z) ⊎ In x zs

-- A ban has a reference for each object on its list. (BAN_TailRef takes others.)
abbrev pub IsHeld : Ban → Type 0
IsHeld b = length b.objcore ≤ b.refcount

abbrev pub AllHeld : List Ban → Type 0
AllHeld [] = Unit {0}
AllHeld (b ∷ bs) = IsHeld b × AllHeld bs

-- The ban at `i` is on the list of bans, and the object `x` on that ban's list.
abbrev pub IsLinked : List Ban → ℕ → ℕ → Type 0
IsLinked bans x i = (b : Ban) × (find_ban i bans ≡ some b) × In x b.objcore

remove_obj_ne : (o x : ℕ) (l : List ℕ) → x ≢ o → In x l → In x (remove_obj o l)
unfolding remove_obj
remove_obj_ne o x [] n h = elim h [ ]
remove_obj_ne o x (z ∷ zs) n (inl e) =
    let t : (z == o) ≡ false = ground (arith, n, e) in rw (t, remove_obj) (inl e)
remove_obj_ne o x (z ∷ zs) n (inr h) = elim (Bool-cases (z == o)) [
  | inl t ↦ subst (λ q. In x (if q then zs else z ∷ remove_obj o zs)) (sym t) h
  | inr t ↦
      subst (λ q. In x (if q then zs else z ∷ remove_obj o zs)) (sym t)
        (inr (remove_obj_ne o x zs n h))
]

length-remove_obj : (o : ℕ) (l : List ℕ) → In o l → suc (length (remove_obj o l)) ≡ length l
unfolding remove_obj
length-remove_obj o [] h = elim h [ ]
length-remove_obj o (z ∷ zs) (inl e) =
    let t : (z == o) ≡ true = ground (arith, e) in rw (t, remove_obj) refl
length-remove_obj o (z ∷ zs) (inr h) = elim (Bool-cases (z == o)) [
  | inl t ↦ rw (t, remove_obj) refl
  | inr t ↦ rw (t, remove_obj) (ap suc (length-remove_obj o zs h))
]

pub In-left : (x o : ℕ) (l : List ℕ) → In x l → In x (l ++ (o ∷ []))
In-left x o [] h = elim h [ ]
In-left x o (z ∷ zs) (inl e) = inl e
In-left x o (z ∷ zs) (inr h) = inr (In-left x o zs h)

pub In-end : (o : ℕ) (l : List ℕ) → In o (l ++ (o ∷ []))
In-end o [] = inl refl
In-end o (z ∷ zs) = inr (In-end o zs)

pub In-length : (x : ℕ) (l : List ℕ) → In x l → 0 < length l
In-length x [] h = elim h [ ]
In-length x (z ∷ zs) h = omega arith

pub release-IsHeld : (o : ℕ) (b : Ban) → In o b.objcore → IsHeld b → IsHeld (release o b)
release-IsHeld o b h held = omega (arith, length-remove_obj o b.objcore h)

pub hold-IsHeld : (o : ℕ) (b : Ban) → IsHeld b → IsHeld (hold o b)
hold-IsHeld o b held = omega (arith, length-append b.objcore (o ∷ []))

-- What a change at one ban does to the others.
module _ (i : ℕ) (f : Ban → Ban) (keeps : (b : Ban) → (f b).id ≡ b.id) where
  find_ban-at_ban_self :
      (bans : List Ban) (b : Ban)
      → find_ban i bans ≡ some b
      → find_ban i (at_ban i f bans) ≡ some (f b)
  unfolding find_ban at_ban
  find_ban-at_ban_self [] b e = cc
  find_ban-at_ban_self (x ∷ xs) b e = elim (Bool-cases (x.id == i)) [
    | inl t ↦
        let e1 : ◌≡◌ {A = Option Ban} (some x) (some b) = rw (t, find_ban) at e in
        let here : ((f x).id == i) ≡ true = ap (λ k. k == i) (keeps x) ∙ t in
        rw (t, at_ban)
          (rw (here, find_ban) (ap (λ o. elim o [ none ↦ none | some y ↦ some (f y) ]) e1))
    | inr t ↦
        let e1 : find_ban i xs ≡ some b = rw (t, find_ban) at e in
        rw (t, at_ban) (rw (t, find_ban) (find_ban-at_ban_self xs b e1))
  ]

  find_ban-at_ban_ne :
      (j : ℕ) (bans : List Ban) → j ≢ i → find_ban j (at_ban i f bans) ≡ find_ban j bans
  unfolding find_ban at_ban
  find_ban-at_ban_ne j [] n = refl
  find_ban-at_ban_ne j (x ∷ xs) n = elim (Bool-cases (x.id == i)) [
    | inl t ↦
        let far : (x.id == j) ≡ false = ground (arith, n, t) in
        let far2 : ((f x).id == j) ≡ false = ap (λ k. k == j) (keeps x) ∙ far in
        rw (t, at_ban) (rw (far2, far, find_ban) refl)
    | inr t ↦ rw (t, at_ban) (ap (λ o. if x.id == j then some x else o) (find_ban-at_ban_ne j xs n))
  ]

  AllHeld-at_ban :
      (bans : List Ban) (b : Ban)
      → AllHeld bans
      → find_ban i bans ≡ some b
      → IsHeld (f b)
      → AllHeld (at_ban i f bans)
  unfolding find_ban at_ban
  AllHeld-at_ban [] b all e h = tt
  AllHeld-at_ban (x ∷ xs) b all e h = elim (Bool-cases (x.id == i)) [
    | inl t ↦
        let e1 : ◌≡◌ {A = Option Ban} (some x) (some b) = rw (t, find_ban) at e in
        let hx = subst (λ o. elim o [ none ↦ Unit {0} | some y ↦ IsHeld (f y) ]) (sym e1) h in
        subst (λ q. AllHeld (if q then f x ∷ xs else x ∷ at_ban i f xs)) (sym t) (hx, all.1)
    | inr t ↦
        let e1 : find_ban i xs ≡ some b = rw (t, find_ban) at e in
        subst (λ q. AllHeld (if q then f x ∷ xs else x ∷ at_ban i f xs)) (sym t)
          (all.0, AllHeld-at_ban xs b all.1 e1 h)
  ]

pub find_ban-AllHeld :
    (i : ℕ) (bans : List Ban) (b : Ban) → AllHeld bans → find_ban i bans ≡ some b → IsHeld b
unfolding find_ban
find_ban-AllHeld i [] b all e = cc
find_ban-AllHeld i (x ∷ xs) b all e = elim (Bool-cases (x.id == i)) [
  | inl t ↦
      let e1 : ◌≡◌ {A = Option Ban} (some x) (some b) = rw (t, find_ban) at e in
      subst (λ o. elim o [ none ↦ Unit {0} | some y ↦ IsHeld y ]) e1 all.0
  | inr t ↦ find_ban-AllHeld i xs b all.1 (rw (t, find_ban) at e)
]

-- An object gives its reference back.
pub release_lem :
    (bans : List Ban) (o i : ℕ)
    → AllHeld bans
    → IsLinked bans o i
    → AllHeld (at_ban i (release o) bans)
      × ((x j : ℕ) → x ≢ o → IsLinked bans x j → IsLinked (at_ban i (release o) bans) x j)
release_lem bans o i all (b, found, on) = (
  AllHeld-at_ban i (release o) (λ b. refl) bans b all found
      (release-IsHeld o b on (find_ban-AllHeld i bans b all found)),
  λ x j n (c, found1, on1). elim (Bool-cases (j == i)) [
    | inl t ↦
        let e : j ≡ i = (==_iff j i).0 t in
        let same : ◌≡◌ {A = Option Ban} (some c) (some b) =
          sym found1 ∙ ap (λ k. find_ban k bans) e ∙ found in
        let on2 = subst (λ p. elim p [ none ↦ Unit {0} | some y ↦ In x y.objcore ]) same on1 in
        subst (λ k. IsLinked (at_ban i (release o) bans) x k) (sym e)
          (
            release o b,
            find_ban-at_ban_self i (release o) (λ b. refl) bans b found,
            remove_obj_ne o x b.objcore n on2,
          )
    | inr t ↦
        let ne : j ≢ i = λ e. ground (arith, e, t) in
        (c, find_ban-at_ban_ne i (release o) (λ b. refl) j bans ne ∙ found1, on1)
  ],
)
