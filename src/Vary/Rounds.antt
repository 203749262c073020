-- ===== src/Vary/Rounds.antt =====
-- The rounds of VRY_Match over a string that VRY_Create wrote.
use varnish.Prelude.{
  ℕ, zero, suc, ◌+◌, ◌*◌, ◌/◌, ◌%◌, ◌≤◌, ◌<◌, ◌≡◌, refl, ap, ◌∙◌, inl, inr, Bool, true, false,
  Bool-cases, Option, none, some, List, [], ◌∷◌, ◌++◌, ◌==◌, if◌then◌else◌, length, length-append,
  take, drop, ◌&&◌, leb, arith,
}
use mathlib.Core.List.{append_assoc}
use varnish.Prelude.Checked.{Checked, ok}
use varnish.Http.{Http, Text}
use varnish.Vary.{header_match, check_value, match_loop, trim, eq_text}
use varnish.Vary.Spec.{
  AllName, AllNames, AllShort, found, map_trim, value, Fits, AllFit, value_bytes, encode, eq_value,
  agree,
}
use varnish.Vary.Lookup.{get_hdr_lem}

take-append : (v x : Text) → take (length v) (v ++ x) ≡ v
take-append [] x = refl
take-append (c ∷ v) x = ap (λ t. c ∷ t) (take-append v x)

drop-append : (v x : Text) → drop (length v) (v ++ x) ≡ x
drop-append [] x = refl
drop-append (c ∷ v) x = drop-append v x

length-of-eq_text : (s t : Text) → eq_text s t ≡ true → length s ≡ length t
unfolding eq_text
length-of-eq_text [] [] h = refl
length-of-eq_text [] (d ∷ t) h = cc
length-of-eq_text (c ∷ s) [] h = cc
length-of-eq_text (c ∷ s) (d ∷ t) h = ground (arith, length-of-eq_text s t)

pub leb_two : (n : ℕ) → leb 2 (suc (suc n)) ≡ true
leb_two n = ground arith

-- The two length bytes of a value that is shorter than 65535 bytes.
stored_length : (n : ℕ) → n / 256 * 256 + n % 256 ≡ n
stored_length n = omega arith

not_marked : (n : ℕ) → n ≤ 65534 → (n == 65535) ≡ false
not_marked n h = ground arith

leb-append : (v x : Text) → leb (length v) (length (v ++ x)) ≡ true
leb-append v x = ground (arith, length-append v x)

eq_text-of-length : (s t : Text) → (length s == length t) ≡ false → eq_text s t ≡ false
eq_text-of-length s t h = elim (Bool-cases (eq_text s t)) [
  | inl same ↦ absurd (ground (arith, length-of-eq_text s t same))
  | inr other ↦ other
]

-- The case of a header that both requests have.
check_value-some :
    (next : Text → Checked Bool) (t v x : Text) (b : Bool)
    → length v ≤ 65534
    → next x ≡ ok b
    → check_value next (some t) (value_bytes (some v) ++ x) ≡ ok (eq_text (trim t) v && b)
unfolding check_value
check_value-some next t v x b h run = elim (Bool-cases (length (trim t) == length v)) [
  | inr other ↦ rw (leb_two, stored_length, not_marked _ h, other, eq_text-of-length _ _ other)
  | inl same ↦
      rw
        (
          leb_two,
          stored_length,
          not_marked _ h,
          same,
          leb-append v x,
          take-append v x,
          drop-append v x,
          run,
        )
        (choose (eq_text (trim t) v))
]
  where
    choose : (c : Bool) → (if c then ok b else ok false) ≡ ok (c && b)
    choose true = refl
    choose false = refl

-- One value, against what the other request has for the name.
check_value_lem :
    (next : Text → Checked Bool) (o v : Option Text) (x : Text) (b : Bool)
    → Fits 65534 v
    → next x ≡ ok b
    → check_value next o (value_bytes v ++ x) ≡ ok (eq_value (map_trim o) v && b)
unfolding check_value
check_value_lem next none none x b h run = rw (leb_two, run)
check_value_lem next (some t) none x b h run = rw leb_two
check_value_lem next none (some v) x b h run = rw (leb_two, stored_length, not_marked _ h)
check_value_lem next (some t) (some v) x b h run = check_value-some next t v x b h run

-- What follows a header in a matching string.
drop-header_match :
    (n x : Text) → length n < 127 → drop ((1 + length n) % 256 + 2) (header_match n ++ x) ≡ x
drop-header_match n x short =
    let e : (1 + length n) % 256 + 2 ≡ length (header_match n) =
      omega (arith, length-append n (b':' ∷ 0 ∷ [])) in
    ap (λ k. drop k (header_match n ++ x)) e ∙ drop-append (header_match n) x

pub match_round :
    (fuel : ℕ) (a : Http) (n x : Text)
    → length n < 127
    → AllName n
    → match_loop (suc fuel) a (header_match n ++ x) ≡ check_value (match_loop fuel a) (found a n) x
unfolding match_loop
match_round fuel a n x short name =
    let positive : ((1 + length n) % 256 == 0) ≡ false = ground arith in
    rw (positive, get_hdr_lem a n x short name)
      (ap (check_value (match_loop fuel a) (found a n)) (drop-header_match n x short))

-- VRY_Match of request `a` against what VRY_Create wrote for request `b`: with fuel above the number
-- of names it comes to its end, and its result is whether the requests agree.
pub match_loop_lem :
    (fuel : ℕ) (a b : Http) (ns : List Text)
    → AllShort ns
    → AllNames ns
    → AllFit 65534 b ns
    → length ns < fuel
    → match_loop fuel a (encode b ns ++ 0 ∷ []) ≡ ok (agree a b ns)
unfolding encode agree
match_loop_lem zero a b ns short names fits lt = absurd (omega arith)
match_loop_lem (suc fuel) a b [] short names fits lt = unfold match_loop in refl
match_loop_lem (suc fuel) a b (n ∷ ns) short names fits lt =
    ap (match_loop (suc fuel) a)
      (append_assoc (header_match n) (value_bytes (value b n) ++ encode b ns) (0 ∷ []))
    ∙ match_round fuel a n ((value_bytes (value b n) ++ encode b ns) ++ 0 ∷ []) short.0 names.0
    ∙ ap (check_value (match_loop fuel a) (found a n))
        (append_assoc (value_bytes (value b n)) (encode b ns) (0 ∷ []))
    ∙ check_value_lem (match_loop fuel a) (found a n) (value b n) (encode b ns ++ 0 ∷ [])
        (agree a b ns) fits.0 (match_loop_lem fuel a b ns short.1 names.1 fits.1 (omega arith))
