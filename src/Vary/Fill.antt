-- ===== src/Vary/Fill.antt =====
-- The two halves of a round of VRY_Create's loop, over vsbs that may grow.
use varnish.Prelude.{
  ℕ, ◌+◌, ◌/◌, ◌%◌, ◌^◌, ◌≤◌, ◌≡◌, ◌≢◌, refl, true, ap, ◌∙◌, not, Option, none, some, List, [], ◌∷◌,
  ◌++◌, length, length-append, take, leb, arith,
}
use mathlib.Core.List.{append_assoc}
use varnish.Prelude.Checked.{ok, >>=-run, assert-run}
use varnish.Http.{Text}
use varnish.Vsb.{Vsb}
use varnish.Vsb.Inv.{IsMalloc, contents}
use varnish.Vsb.Grows.{
  IsGrowing, IsOpen, Grew, length-contents, bcat-IsOpen, printf-IsOpen, clear-IsOpen,
  finish-IsGrowing,
}
use varnish.Vary.{header_match, print, cat_bytes, put_name, put_value, trim}
use varnish.Vary.Spec.{map_trim, Fits, value_bytes}

module _ (malloc : ℕ → Option (List ℕ)) (m : IsMalloc malloc)
    (memory : (n : ℕ) → malloc n ≢ none) where
  pub print-IsOpen :
      (s : Vsb) (t : Text)
      → IsOpen s
      → length (contents s) + length t ≤ 2 ^ 29
      → (u : Vsb) × (print malloc s t ≡ ok u) × Grew s t u
  print-IsOpen s t o h =
      let (done, u, run, grew) =
        printf-IsOpen malloc m memory s t o (omega (arith, h, length-contents s o.growing.valid)) in
      (u, rw run refl, grew)

  cat_bytes-IsOpen :
      (s : Vsb) (t : Text)
      → IsOpen s
      → length (contents s) + length t ≤ 2 ^ 29
      → (u : Vsb) × (cat_bytes malloc s t ≡ ok u) × Grew s t u
  cat_bytes-IsOpen s t o h =
      let (u, run, grew) =
        bcat-IsOpen malloc m memory s t o (omega (arith, h, length-contents s o.growing.valid)) in
      (u, rw run refl, grew)

  take-front : (t x : Text) → take (length t) (t ++ x) ≡ t
  take-front [] x = refl
  take-front (c ∷ t) x = ap (λ s. c ∷ s) (take-front t x)

  pub put_name_lem :
      (sb sbh : Vsb) (n : Text)
      → IsOpen sb
      → IsGrowing sbh
      → length (contents sb) + length (header_match n) ≤ 2 ^ 29
      → (sb1 : Vsb) × (sbh1 : Vsb) × (x : Text) × (put_name malloc sb sbh n
          ≡ ok (sb1, sbh1, header_match n ++ x))
        × Grew sb (header_match n) sb1
        × IsGrowing sbh1
  unfolding put_name
  put_name_lem sb sbh n o g h =
      let (sbh1, e1, o1, empty) = clear-IsOpen sbh g in
      let none_yet = ap length empty in
      let (sbh2, e2, (o2, is)) =
        print-IsOpen sbh1 (header_match n) o1 (omega (arith, none_yet, h)) in
      let written : contents sbh2 ≡ header_match n = is ∙ ap (λ t. t ++ header_match n) empty in
      let (sbh3, x, e3, g3, clean, bytes, count, kept) = finish-IsGrowing sbh2 o2 in
      let front : take (length (contents sbh2)) (contents sbh2 ++ x) ≡ header_match n =
        take-front (contents sbh2) x ∙ written in
      let (sb1, e4, grew) = cat_bytes-IsOpen sb (header_match n) o h in
      (
        sb1,
        sbh3,
        x,
        >>=-run _ e1 (
            >>=-run _ e2 (
              >>=-run _ e3 (
                assert-run (ap not clean) (
                  >>=-run _ bytes (
                    >>=-run _ count (
                      >>=-run _ (ap (cat_bytes malloc sb) front ∙ e4)
                        (ap (λ t. ok (sb1, sbh3, t ++ x)) written))))))),
        grew,
        g3,
      )

  pub put_value_lem :
      (sb : Vsb) (o : Option Text)
      → IsOpen sb
      → Fits 65535 (map_trim o)
      → length (contents sb) + length (value_bytes (map_trim o)) ≤ 2 ^ 29
      → (sb1 : Vsb) × (put_value malloc sb o ≡ ok sb1) × Grew sb (value_bytes (map_trim o)) sb1
  unfolding put_value
  put_value_lem sb none o fits h = print-IsOpen sb (255 ∷ 255 ∷ []) o h
  put_value_lem sb (some t) o fits h =
      let small : leb (length (trim t)) 65535 ≡ true = ground arith in
      let hi : length (trim t) / 256 % 256 ≡ length (trim t) / 256 = omega arith in
      let l : Text = length (trim t) / 256 ∷ length (trim t) % 256 ∷ [] in
      let (sb1, e1, (o1, c1)) = print-IsOpen sb l o (omega (arith, h)) in
      let len1 = ap length c1 ∙ length-append (contents sb) l in
      let (sb2, e2, (o2, c2)) = cat_bytes-IsOpen sb1 (trim t) o1 (omega (arith, h, len1)) in
      (
        sb2,
        assert-run small
            (>>=-run _ (ap (λ k. print malloc sb (k ∷ length (trim t) % 256 ∷ [])) hi ∙ e1) e2),
        (o2, c2 ∙ ap (λ z. z ++ trim t) c1 ∙ append_assoc (contents sb) l (trim t)),
      )
