-- ===== src/Vary/Made.antt =====
-- What VRY_Create returns.
use varnish.Prelude.{
  ℕ, ◌+◌, ◌^◌, ◌<◌, ◌≡◌, ◌≢◌, refl, ap, ◌∙◌, lt→ltb, not, Option, none, some, List, [], ◌∷◌, ◌++◌,
  length, arith,
}
use varnish.Prelude.Checked.{ok, >>=-run, assert-run}
use varnish.Http.{Http, Text, get_hdr}
use varnish.Vsb.{Vsb, text, len, delete}
use varnish.Vsb.Inv.{IsMalloc, contents}
use varnish.Vsb.Grows.{IsGrowing, new-IsOpen, finish-IsGrowing}
use varnish.Vary.{create, new_auto}
use varnish.Vary.Spec.{Lists, AllShort, AllFit, encode}
use varnish.Vary.Fill.{print-IsOpen}
use varnish.Vary.Create.{create_loop_lem}

-- vsb_data gives the bytes, with whatever behind them, and vsb_len their number.
abbrev pub Stored : Vsb → Text → Type 0
Stored sb bytes =
    (rest : Text) × (text sb ≡ ok (bytes ++ rest)) × (len sb ≡ ok (some (length bytes)))

delete_run : (s : Vsb) → IsGrowing s → delete s ≡ ok (s.dynamic, s.dynstruct)
unfolding delete
delete_run s g = rw (lt→ltb _ _ g.valid.room)

module _ (malloc : ℕ → Option (List ℕ)) (m : IsMalloc malloc)
    (memory : (n : ℕ) → malloc n ≢ none) where
  pub create_lem :
      (h_vary : Text) (b resp : Http) {p : Text} {ns : List Text}
      → get_hdr resp h_vary ≡ ok (some p)
      → Lists p ns
      → AllShort ns
      → AllFit 65535 b ns
      → length (encode b ns) < 2 ^ 29
      → (sb : Vsb) × (create malloc h_vary b resp ≡ ok (some sb))
        × Stored sb (encode b ns ++ 0 ∷ [])
  unfolding create
  create_lem h_vary b resp {p} {ns} vary lists short fits small =
      let (sb, made, o, empty) = new-IsOpen malloc m memory in
      let auto : new_auto malloc ≡ ok sb = rw made refl in
      let zero_len = ap length empty in
      let (sb1, sbh1, e1, (o1, c1), g1) =
        create_loop_lem malloc m memory (length p + 1) b sb sb lists short fits o o.growing
          (omega (arith, small, zero_len)) (omega arith) in
      let is1 : contents sb1 ≡ encode b ns = c1 ∙ ap (λ t. t ++ encode b ns) empty in
      let len1 = ap length is1 in
      let (sb2, e2, (o2, c2)) =
        print-IsOpen malloc m memory sb1 (0 ∷ []) o1 (omega (arith, small, len1)) in
      let is2 : contents sb2 ≡ encode b ns ++ 0 ∷ [] = c2 ∙ ap (λ t. t ++ 0 ∷ []) is1 in
      let (sb3, rest, e3, g3, clean, bytes, count, kept) = finish-IsGrowing sb2 o2 in
      (
        sb3,
        >>=-run _ vary (
            >>=-run _ auto (
              >>=-run _ auto (
                >>=-run _ e1 (
                  >>=-run _ e2 (
                    >>=-run _ (delete_run sbh1 g1)
                      (>>=-run _ e3 (assert-run (ap not clean) refl))))))),
        (rest, bytes ∙ ap (λ t. ok (t ++ rest)) is2, count ∙ ap (λ t. ok (some (length t))) is2),
      )
