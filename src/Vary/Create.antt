-- ===== src/Vary/Create.antt =====
-- VRY_Create writes the matching string of the names that the Vary header lists.
use varnish.Prelude.{
  ℕ, zero, suc, ◌+◌, ◌^◌, ◌≤◌, ◌<◌, ◌≡◌, ◌≢◌, refl, ap, sym, ◌∙◌, Option, none, List, [], ◌∷◌, ◌++◌,
  ◌==◌, length, length-append, arith,
}
use mathlib.Core.List.{append-nil, append_assoc}
use varnish.Prelude.Checked.{Checked, ok, assert, ◌>>◌, >>=-run}
use varnish.Vsb.{Vsb}
use varnish.Vsb.Inv.{IsMalloc, contents}
use varnish.Vsb.Grows.{IsGrowing, IsOpen, Grew}
use varnish.Vary.Fill.{put_name_lem, put_value_lem}
use varnish.Http.{Http, Text}
use varnish.Vary.{skip_space, header_match, create_loop}
use varnish.Vary.Spec.{
  AllSpace, AllName, Lists, blank, last, more, AllShort, found, value, Fits, AllFit, value_bytes,
  encode,
}
use varnish.Vary.Lookup.{get_hdr_lem}
use varnish.Vary.Scan.{
  skip_space-append, skip_space-comma, Ends, span_name-append, AllName-not-space, space-Ends,
  Ends-space, comma-ends, skip_space-all,
}

module _ (malloc : ℕ → Option (List ℕ)) (m : IsMalloc malloc)
    (memory : (n : ℕ) → malloc n ≢ none) where
  -- The run `x` from `sb` on has appended `t`.
  abbrev pub Writes : Checked (Vsb × Vsb) → Vsb → Text → Type 0
  Writes x sb t = (sb1 : Vsb) × (sbh1 : Vsb) × (x ≡ ok (sb1, sbh1)) × Grew sb t sb1 × IsGrowing sbh1

  -- Leading space takes a round for each byte.
  create_loop-space :
      (fuel : ℕ) (req : Http) (sp x : Text) (sb sbh : Vsb)
      → AllSpace sp
      → length (sp ++ x) < fuel
      → (left : ℕ) × (length x < left)
        × (create_loop malloc fuel req (sp ++ x) sb sbh ≡ create_loop malloc left req x sb sbh)
  unfolding create_loop
  create_loop-space fuel req [] x sb sbh h lt = (fuel, lt, refl)
  create_loop-space zero req (c ∷ sp) x sb sbh h lt = absurd (omega arith)
  create_loop-space (suc fuel) req (c ∷ sp) x sb sbh h lt =
      let (left, l, e) = create_loop-space fuel req sp x sb sbh h.1 (omega arith) in
      (left, l, rw (h.0, create_loop) e)

  abbrev both : Http → Text → Text
  both req n = header_match n ++ value_bytes (value req n)

  -- what a round does behind the value
  abbrev go_on : ℕ → Http → Text → Vsb → Vsb → Checked (Vsb × Vsb)
  go_on fuel req q sb sbh = elim q [
    | [] ↦ ok (sb, sbh)
    | d ∷ q2 ↦ assert (d == b',') >> create_loop malloc fuel req q2 sb sbh
  ]

  -- One round at a name.
  create_loop-name :
      (fuel : ℕ) (req : Http) (c : ℕ) (n q : Text) (sb sbh : Vsb)
      → AllName (c ∷ n)
      → Ends q
      → length (c ∷ n) < 127
      → Fits 65535 (value req (c ∷ n))
      → IsOpen sb
      → IsGrowing sbh
      → length (contents sb) + length (both req (c ∷ n)) ≤ 2 ^ 29
      → (sb1 : Vsb) × (sbh1 : Vsb) × (create_loop malloc (suc fuel) req ((c ∷ n) ++ q) sb sbh
          ≡ go_on fuel req (skip_space q) sb1 sbh1)
        × Grew sb (both req (c ∷ n)) sb1
        × IsGrowing sbh1
  unfolding create_loop
  create_loop-name fuel req c n q sb sbh name e short fits o g h =
      let hm = header_match (c ∷ n) in
      let v = value_bytes (value req (c ∷ n)) in
      let len = length-append hm v in
      let (sb1, sbh1, x, e1, (o1, c1), g1) =
        put_name_lem malloc m memory sb sbh (c ∷ n) o g (omega (arith, h, len)) in
      let len1 = ap length c1 ∙ length-append (contents sb) hm in
      let (sb2, e2, (o2, c2)) =
        put_value_lem malloc m memory sb1 (found req (c ∷ n)) o1 fits
          (omega (arith, h, len, len1)) in
      (
        sb2,
        sbh1,
        rw (AllName-not-space c name.0, create_loop)
            (rw (span_name-append (c ∷ n) q name e) (
              >>=-run _ e1 (>>=-run _ (get_hdr_lem req (c ∷ n) x short name) (>>=-run _ e2 refl)))),
        (o2, c2 ∙ ap (λ z. z ++ v) c1 ∙ append_assoc (contents sb) hm v),
        g1,
      )

  create_loop-nil :
      (fuel : ℕ) (req : Http) (sb sbh : Vsb)
      → 0 < fuel
      → create_loop malloc fuel req [] sb sbh ≡ ok (sb, sbh)
  unfolding create_loop
  create_loop-nil zero req sb sbh h = absurd (omega arith)
  create_loop-nil (suc fuel) req sb sbh h = refl

  create_loop-blank :
      (fuel : ℕ) (req : Http) (p : Text) (sb sbh : Vsb)
      → AllSpace p
      → length p < fuel
      → create_loop malloc fuel req p sb sbh ≡ ok (sb, sbh)
  create_loop-blank fuel req p sb sbh h lt =
      let (left, l, run) = create_loop-space fuel req p [] sb sbh h (rw (append-nil p) lt) in
      sym (ap (λ t. create_loop malloc fuel req t sb sbh) (append-nil p))
      ∙ run
      ∙ create_loop-nil left req sb sbh l

  create_loop-last :
      (fuel : ℕ) (req : Http) (c : ℕ) (n tr : Text) (sb sbh : Vsb)
      → AllName (c ∷ n)
      → AllSpace tr
      → length (c ∷ n) < 127
      → Fits 65535 (value req (c ∷ n))
      → IsOpen sb
      → IsGrowing sbh
      → length (contents sb) + length (encode req ((c ∷ n) ∷ [])) ≤ 2 ^ 29
      → length ((c ∷ n) ++ tr) < fuel
      → Writes (create_loop malloc fuel req ((c ∷ n) ++ tr) sb sbh) sb (encode req ((c ∷ n) ∷ []))
  unfolding encode
  create_loop-last zero req c n tr sb sbh name trail short fits o g h lt = absurd (omega arith)
  create_loop-last (suc fuel) req c n tr sb sbh name trail short fits o g h lt =
      let one : both req (c ∷ n) ≡ header_match (c ∷ n) ++ (value_bytes (value req (c ∷ n)) ++ []) =
        ap (λ t. header_match (c ∷ n) ++ t) (sym (append-nil (value_bytes (value req (c ∷ n))))) in
      let (sb1, sbh1, e, grew, g1) =
        create_loop-name fuel req c n tr sb sbh name (Ends-space tr trail) short fits o g
          (omega (arith, h, ap length one)) in
      (
        sb1,
        sbh1,
        e ∙ ap (λ q. go_on fuel req q sb1 sbh1) (skip_space-all tr trail),
        (grew.0, grew.1 ∙ ap (λ t. contents sb ++ t) one),
        g1,
      )

  create_loop-more :
      (fuel : ℕ) (req : Http) (c : ℕ) (n tr rest : Text) (ns : List Text) (sb sbh : Vsb)
      → AllName (c ∷ n)
      → AllSpace tr
      → length (c ∷ n) < 127
      → Fits 65535 (value req (c ∷ n))
      → IsOpen sb
      → IsGrowing sbh
      → length (contents sb) + length (encode req ((c ∷ n) ∷ ns)) ≤ 2 ^ 29
      → length ((c ∷ n) ++ (tr ++ b',' ∷ rest)) < fuel
      → ((left : ℕ) (sb1 sbh1 : Vsb)
          → length rest < left
          → IsOpen sb1
          → IsGrowing sbh1
          → length (contents sb1) + length (encode req ns) ≤ 2 ^ 29
          → Writes (create_loop malloc left req rest sb1 sbh1) sb1 (encode req ns))
      → Writes
          (create_loop malloc fuel req ((c ∷ n) ++ (tr ++ b',' ∷ rest)) sb sbh)
          sb
          (encode req ((c ∷ n) ∷ ns))
  unfolding encode
  create_loop-more zero req c n tr rest ns sb sbh name trail short fits o g h lt ih =
      absurd (omega arith)
  create_loop-more (suc fuel) req c n tr rest ns sb sbh name trail short fits o g h lt ih =
      let small : length rest < fuel =
        omega (arith, length-append n (tr ++ b',' ∷ rest), length-append tr (b',' ∷ rest)) in
      let v = value_bytes (value req (c ∷ n)) in
      let two : both req (c ∷ n) ++ encode req ns ≡ header_match (c ∷ n) ++ (v ++ encode req ns) =
        append_assoc (header_match (c ∷ n)) v (encode req ns) in
      let len = sym (length-append (both req (c ∷ n)) (encode req ns)) ∙ ap length two in
      let (sb1, sbh1, e, grew, g1) =
        create_loop-name fuel req c n (tr ++ b',' ∷ rest) sb sbh name
          (space-Ends tr (b',' ∷ rest) trail (comma-ends)) short fits o g (omega (arith, h, len)) in
      let len1 = ap length grew.1 ∙ length-append (contents sb) (both req (c ∷ n)) in
      let (sb2, sbh2, e2, grew2, g2) =
        ih fuel sb1 sbh1 small grew.0 g1 (omega (arith, h, len, len1)) in
      (
        sb2,
        sbh2,
        e
            ∙ ap (λ q. go_on fuel req q sb1 sbh1)
                (skip_space-append tr (b',' ∷ rest) trail ∙ skip_space-comma rest)
            ∙ e2,
        (
          grew2.0,
          grew2.1
              ∙ ap (λ t. t ++ encode req ns) grew.1
              ∙ append_assoc (contents sb) (both req (c ∷ n)) (encode req ns)
              ∙ ap (λ t. contents sb ++ t) two,
        ),
        g2,
      )

  -- VRY_Create's loop, where the bytes from `p` on list `ns`, every name is shorter than 127 bytes, no
  -- value is longer than 65535 bytes and the vsb stays below 2^29 bytes: fuel above the length is
  -- enough, no assertion fails and the bytes appended are the encoding of the names with the
  -- request's values.
  pub create_loop_lem :
      (fuel : ℕ) (req : Http) {p : Text} {ns : List Text} (sb sbh : Vsb)
      → Lists p ns
      → AllShort ns
      → AllFit 65535 req ns
      → IsOpen sb
      → IsGrowing sbh
      → length (contents sb) + length (encode req ns) ≤ 2 ^ 29
      → length p < fuel
      → Writes (create_loop malloc fuel req p sb sbh) sb (encode req ns)
  unfolding encode
  create_loop_lem fuel req {p} sb sbh (blank space) short fits o g h lt = (
    sb,
    sbh,
    create_loop-blank fuel req p sb sbh space lt,
    (o, sym (append-nil (contents sb))),
    g,
  )
  create_loop_lem fuel req sb sbh (last sp c n tr e space name trail) short fits o g h lt =
      let (left, l, run) =
        create_loop-space fuel req sp ((c ∷ n) ++ tr) sb sbh space (rw e at lt) in
      let (sb1, sbh1, e1, grew, g1) =
        create_loop-last left req c n tr sb sbh name trail short.0 fits.0 o g h l in
      (sb1, sbh1, ap (λ t. create_loop malloc fuel req t sb sbh) e ∙ run ∙ e1, grew, g1)
  create_loop_lem fuel req sb sbh (more sp c n tr rest {ns = ns} e space name trail tail) short fits
        o g h lt =
      let (left, l, run) =
        create_loop-space fuel req sp ((c ∷ n) ++ (tr ++ b',' ∷ rest)) sb sbh space (rw e at lt) in
      let (sb1, sbh1, e1, grew, g1) =
        create_loop-more left req c n tr rest ns sb sbh name trail short.0 fits.0 o g h l
          (λ f sb2 sbh2 lt' o2 g2 h2.
            create_loop_lem f req sb2 sbh2 tail short.1 fits.1 o2 g2 h2 lt') in
      (sb1, sbh1, ap (λ t. create_loop malloc fuel req t sb sbh) e ∙ run ∙ e1, grew, g1)
