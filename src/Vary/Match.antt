-- ===== src/Vary/Match.antt =====
-- VRY_Match decides whether two requests agree on the headers that the response varies on.
use varnish.Prelude.{
  ℕ, zero, suc, ◌+◌, ◌^◌, ◌≤◌, ◌<◌, ◌≡◌, ◌≢◌, ◌↔◌, refl, ap, ◌∙◌, Bool, true, false, Option, none,
  some, List, [], ◌∷◌, ◌++◌, length, length-append, ◌&&◌, arith,
}
use mathlib.Core.List.{append_assoc}
use varnish.Prelude.Checked.{Checked, ok}
use varnish.Http.{Http, Text, get_hdr}
use varnish.Vary.{header_match, check_value, match_loop, vary_match, create, eq_text}
use varnish.Vary.Spec.{
  Lists, AllName, Lists-AllNames, AllShort, found, map_trim, value, Fits, AllFit, value_bytes,
  encode, eq_value, agree,
}
use varnish.Vary.Made.{Stored, create_lem}
use varnish.Vsb.{Vsb}
use varnish.Vsb.Inv.{IsMalloc}
use varnish.Vary.Rounds.{leb_two, match_round, match_loop_lem}

length-le-encode : (b : Http) (ns : List Text) → length ns ≤ length (encode b ns)
unfolding encode
length-le-encode b [] = omega arith
length-le-encode b (n ∷ ns) = omega (
  arith,
  length-le-encode b ns,
  length-append (header_match n) (value_bytes (value b n) ++ encode b ns),
  length-append (value_bytes (value b n)) (encode b ns),
)

AllFit-weaken : (b : Http) (ns : List Text) → AllFit 65534 b ns → AllFit 65535 b ns
AllFit-weaken b [] h = tt
AllFit-weaken b (n ∷ ns) h = (weaken (value b n) h.0, AllFit-weaken b ns h.1)
  where
    weaken : (o : Option Text) → Fits 65534 o → Fits 65535 o
    weaken none h = tt
    weaken (some v) h = omega arith

-- The two requests have equal values for every name of the list.
abbrev pub SameValues : Http → Http → List Text → Type 0
SameValues a b [] = Unit
SameValues a b (n ∷ ns) = (value a n ≡ value b n) × SameValues a b ns

eq_text_iff : (s t : Text) → (eq_text s t ≡ true) ↔ (s ≡ t)
unfolding eq_text
eq_text_iff [] [] = ((λ _. refl), λ _. refl)
eq_text_iff [] (d ∷ t) = ((λ h. cc), λ h. cc)
eq_text_iff (c ∷ s) [] = ((λ h. cc), λ h. cc)
eq_text_iff (c ∷ s) (d ∷ t) =
    ((λ h. ground (arith, (eq_text_iff s t).0)), λ h. ground (arith, (eq_text_iff s t).1))

eq_value_iff : (o p : Option Text) → (eq_value o p ≡ true) ↔ (o ≡ p)
eq_value_iff none none = ((λ _. refl), λ _. refl)
eq_value_iff none (some w) = ((λ h. cc), λ h. cc)
eq_value_iff (some v) none = ((λ h. cc), λ h. cc)
eq_value_iff (some v) (some w) =
    ((λ h. ap some ((eq_text_iff v w).0 h)), λ h. (eq_text_iff v w).1 (cc))

agree_iff : (a b : Http) (ns : List Text) → (agree a b ns ≡ true) ↔ SameValues a b ns
unfolding agree
agree_iff a b [] = ((λ _. tt), λ _. refl)
agree_iff a b (n ∷ ns) = (
  (λ h.
      let (x, y) = both (eq_value (value a n) (value b n)) (agree a b ns) h in
      ((eq_value_iff (value a n) (value b n)).0 x, (agree_iff a b ns).0 y)),
  λ h. rw ((eq_value_iff (value a n) (value b n)).1 h.0, (agree_iff a b ns).1 h.1),
)
  where
    both : (x y : Bool) → (x && y) ≡ true → (x ≡ true) × (y ≡ true)
    both true y h = (refl, h)
    both false y h = cc

module _ (malloc : ℕ → Option (List ℕ)) (m : IsMalloc malloc)
    (memory : (n : ℕ) → malloc n ≢ none) where
  -- Where malloc gives memory, the response has a Vary header that lists the names `ns`, each shorter
  -- than 127 bytes, the request `b` has no value longer than 65534 bytes for one, and the whole
  -- string stays below 2^29 bytes: VRY_Create for `b` fails no assertion and returns a vsb whose
  -- vsb_data and vsb_len give a string of bytes; and VRY_Match of any request `a` against that
  -- string comes to its end, within the string and with no assertion failing, and says whether `a`
  -- and `b` have the same values for all of `ns`, white space round a value apart, and a header that
  -- neither has counted as the same.
  pub match-create :
      (h_vary : Text) (a b resp : Http) {p : Text} {ns : List Text}
      → get_hdr resp h_vary ≡ ok (some p)
      → Lists p ns
      → AllShort ns
      → AllFit 65534 b ns
      → length (encode b ns) < 2 ^ 29
      → (sb : Vsb) × (bytes : Text) × (result : Bool) × (create malloc h_vary b resp ≡ ok (some sb))
        × Stored sb bytes
        × (vary_match a bytes ≡ ok result)
        × ((result ≡ true) ↔ SameValues a b ns)
  unfolding vary_match
  match-create h_vary a b resp {p} {ns} vary lists short fits small =
      let (sb, made, stored) =
        create_lem malloc m memory h_vary b resp vary lists short (AllFit-weaken b ns fits) small in
      (
        sb,
        encode b ns ++ 0 ∷ [],
        agree a b ns,
        made,
        stored,
        match_loop_lem (length (encode b ns ++ 0 ∷ []) + 1) a b ns short (Lists-AllNames lists) fits
            (omega (arith, length-le-encode b ns, length-append (encode b ns) (0 ∷ []))),
        agree_iff a b ns,
      )

check_value_65535 :
    (next : Text → Checked Bool) (h v x : Text)
    → length v ≡ 65535
    → check_value next (some h) (value_bytes (some v) ++ x) ≡ ok false
unfolding check_value
check_value_65535 next h v x long = rw (leb_two, long)

found-of-value : (b : Http) (n v : Text) → value b n ≡ some v → (h : Text) × (found b n ≡ some h)
found-of-value b n v e = go (found b n) e
  where
    go : (o : Option Text) → map_trim o ≡ some v → (h : Text) × (o ≡ some h)
    go none e = cc
    go (some h) e = (h, refl)

match_first_65535 :
    (fuel : ℕ) (b : Http) (n v h x : Text)
    → 0 < fuel
    → length n < 127
    → AllName n
    → found b n ≡ some h
    → value b n ≡ some v
    → length v ≡ 65535
    → match_loop fuel b (header_match n ++ (value_bytes (value b n) ++ x)) ≡ ok false
match_first_65535 zero b n v h x lt short name look e long = absurd (omega arith)
match_first_65535 (suc fuel) b n v h x lt short name look e long =
    match_round fuel b n (value_bytes (value b n) ++ x) short name
    ∙ rw (e, look) (check_value_65535 (match_loop fuel b) h v x long)

module _ (malloc : ℕ → Option (List ℕ)) (m : IsMalloc malloc)
    (memory : (n : ℕ) → malloc n ≢ none) where
  -- A value of exactly 65535 bytes, which the assertion in VRY_Create lets pass: where malloc gives
  -- memory, every name is shorter than 127 bytes, no value is longer than 65535 and the whole string
  -- stays below 2^29 bytes, the string that VRY_Create writes for a request with such a value for the
  -- first name does not match that very request.
  pub match-create_65535 :
      (h_vary : Text) (b resp : Http) {p : Text} {n : Text} {ns : List Text} (v : Text)
      → get_hdr resp h_vary ≡ ok (some p)
      → Lists p (n ∷ ns)
      → AllShort (n ∷ ns)
      → AllFit 65535 b (n ∷ ns)
      → length (encode b (n ∷ ns)) < 2 ^ 29
      → value b n ≡ some v
      → length v ≡ 65535
      → (sb : Vsb) × (bytes : Text) × (create malloc h_vary b resp ≡ ok (some sb))
        × Stored sb bytes
        × (vary_match b bytes ≡ ok false)
  unfolding vary_match encode
  match-create_65535 h_vary b resp {p} {n} {ns} v vary lists short fits small e long =
      let (h, look) = found-of-value b n v e in
      let (sb, made, stored) =
        create_lem malloc m memory h_vary b resp vary lists short fits small in
      let rest = encode b ns ++ 0 ∷ [] in
      (
        sb,
        encode b (n ∷ ns) ++ 0 ∷ [],
        made,
        stored,
        ap (match_loop (length (encode b (n ∷ ns) ++ 0 ∷ []) + 1) b) (
              append_assoc (header_match n) (value_bytes (value b n) ++ encode b ns) (0 ∷ [])
              ∙ ap (λ t. header_match n ++ t)
                  (append_assoc (value_bytes (value b n)) (encode b ns) (0 ∷ [])))
            ∙ match_first_65535 (length (encode b (n ∷ ns) ++ 0 ∷ []) + 1) b n v h rest
                (omega arith) short.0 (Lists-AllNames lists).0 look e long,
      )
