-- ===== src/Http/Stays.antt =====
-- What http_Unset of bin/varnishd/cache_http.c leaves in the table of headers.
use varnish.Prelude.{
  ℕ, zero, suc, ◌+◌, ◌-◌, ◌≤◌, ◌<◌, ◌≡◌, refl, ap, sym, ◌∙◌, Bool, true, false, none, some, List,
  [], ◌∷◌, ◌++◌, ◌==◌, if◌then◌else◌, length, drop, take, get_or, set, arith, Bool-cases, inl, inr,
  length-set, take-set_last, take_next, append-nil, get_or-set_lt, map,
}
use mathlib.Core.List.{append_assoc}
use mathlib.Core.Path.{subst}
use varnish.Prelude.Checked.{ok, ◌>>=◌}
use varnish.Http.{Text, Field, Http, hdr_first, eq_ncase, char_to_unsigned}
use varnish.Http.Filter.{is_hdr}
use varnish.Http.Unset.{move, is_passed, unset_from, unset}

-- a name with its length before it and a colon at its end, as the table of headers and VCL have them
pub record IsName (hdr : Text) : Type 0 where
  pub counted : char_to_unsigned (get_or hdr 0 0) ≡ length (drop 1 hdr)
  pub colon : get_or hdr (char_to_unsigned (get_or hdr 0 0)) 0 ≡ b':'

abbrev pub bears : Text → Text → Bool
bears hdr t = eq_ncase (char_to_unsigned (get_or hdr 0 0)) (drop 1 hdr) t

is_hdr-bears : (t hdr : Text) → IsName hdr → is_hdr t hdr ≡ ok (bears hdr t)
unfolding is_hdr
is_hdr-bears t hdr name =
    let a : (char_to_unsigned (get_or hdr 0 0) == length (drop 1 hdr)) ≡ true =
      ground (arith, name.counted) in
    let b : (get_or hdr (char_to_unsigned (get_or hdr 0 0)) 0 == b':') ≡ true =
      ground (arith, name.colon) in
    rw (a, b) refl

abbrev pub is_gone : Text → Field → Bool
is_gone hdr none = true
is_gone hdr (some t) = bears hdr t

-- the entries that stay, with their flags
abbrev pub others : Text → ℕ → ℕ → List Field → List ℕ → List (Field × ℕ)
others hdr zero u hd hdf = []
others hdr (suc n) u hd hdf =
    let rest = others hdr n (u + 1) hd hdf in
    if is_gone hdr (get_or hd u none) then rest else (get_or hd u none, get_or hdf u 0) ∷ rest

others-set :
    (hdr : Text) (n w v : ℕ) (hd : List Field) (hdf : List ℕ) (f : Field) (k : ℕ)
    → v < w
    → others hdr n w (set hd v f) (set hdf v k) ≡ others hdr n w hd hdf
others-set hdr zero w v hd hdf f k lt = refl
others-set hdr (suc n) w v hd hdf f k lt =
    rw
      (
        get_or-set_lt hd v w f none lt,
        get_or-set_lt hdf v w k 0 lt,
        others-set hdr n (w + 1) v hd hdf f k (omega arith),
      )
      refl

-- What a step of the loop moves behind the `v` entries that stay.
record Moved (hp : Http) (u v : ℕ) (m : Http) : Type 0 where
  hd : take (v + 1) m.hd ≡ take v hp.hd ++ (get_or hp.hd u none ∷ [])
  hdf : take (v + 1) m.hdf ≡ take v hp.hdf ++ (get_or hp.hdf u 0 ∷ [])
  later : (hdr : Text) (n : ℕ) → others hdr n (u + 1) m.hd m.hdf ≡ others hdr n (u + 1) hp.hd hp.hdf
  cells : length m.hd ≡ length hp.hd
  flags : length m.hdf ≡ length hp.hdf

move-Moved :
    (hp : Http) (u v : ℕ)
    → v ≤ u
    → u < length hp.hd
    → u < length hp.hdf
    → Moved hp u v (move hp u v)
unfolding move
move-Moved hp u v le lt lf = elim (Bool-cases (v == u)) [
  | inl e ↦
      let same : v ≡ u = ground arith in
      rw (e, same)
        (record {
          hd = take_next hp.hd u none lt;
          hdf = take_next hp.hdf u 0 lf;
          later = λ hdr n. refl;
          cells = refl;
          flags = refl;
        })
  | inr e ↦
      let before : v < u = ground arith in
      rw (e) (record {
        hd = take-set_last hp.hd v (get_or hp.hd u none) (omega arith);
        hdf = take-set_last hp.hdf v (get_or hp.hdf u 0) (omega arith);
        later = λ hdr n.
            others-set hdr n (u + 1) v hp.hd hp.hdf (get_or hp.hd u none) (get_or hp.hdf u 0)
              (omega arith);
        cells = length-set hp.hd v (get_or hp.hd u none);
        flags = length-set hp.hdf v (get_or hp.hdf u 0);
      })
]

is_passed-is_gone : (f : Field) (hdr : Text) → IsName hdr → is_passed f hdr ≡ ok (is_gone hdr f)
unfolding is_passed
is_passed-is_gone none hdr name = refl
is_passed-is_gone (some t) hdr name = is_hdr-bears t hdr name

step_gone :
    (n u v : ℕ) (hp : Http) (hdr : Text)
    → IsName hdr
    → is_gone hdr (get_or hp.hd u none) ≡ true
    → unset_from (suc n) u v hp hdr ≡ unset_from n (u + 1) v hp hdr
unfolding unset_from
step_gone n u v hp hdr name gone =
    let run : is_passed (get_or hp.hd u none) hdr ≡ ok true =
      is_passed-is_gone (get_or hp.hd u none) hdr name ∙ ap ok gone in
    rw (run) refl

step_stays :
    (n u v : ℕ) (hp : Http) (hdr : Text)
    → IsName hdr
    → is_gone hdr (get_or hp.hd u none) ≡ false
    → unset_from (suc n) u v hp hdr ≡ unset_from n (u + 1) (v + 1) (move hp u v) hdr
unfolding unset_from
step_stays n u v hp hdr name stays =
    let run : is_passed (get_or hp.hd u none) hdr ≡ ok false =
      is_passed-is_gone (get_or hp.hd u none) hdr name ∙ ap ok stays in
    rw (run) refl

-- The loop leaves `v'` entries: the first `v`, and then those selected.
record Left (hp : Http) (v : ℕ) (sel : List (Field × ℕ)) (v' : ℕ) (hp' : Http) : Type 0 where
  hd : take v' hp'.hd ≡ take v hp.hd ++ map (λ e. e.0) sel
  hdf : take v' hp'.hdf ≡ take v hp.hdf ++ map (λ e. e.1) sel

Left-Moved :
    (hp m hp' : Http) (u v v' : ℕ) (sel : List (Field × ℕ))
    → Moved hp u v m
    → Left m (v + 1) sel v' hp'
    → Left hp v ((get_or hp.hd u none, get_or hp.hdf u 0) ∷ sel) v' hp'
Left-Moved hp m hp' u v v' sel x l = record {
  hd =
      l.hd
      ∙ (ap (λ a. a ++ map (λ e. e.0) sel) x.hd
          ∙ append_assoc (take v hp.hd) (get_or hp.hd u none ∷ []) (map (λ e. e.0) sel));
  hdf =
      l.hdf
      ∙ (ap (λ a. a ++ map (λ e. e.1) sel) x.hdf
          ∙ append_assoc (take v hp.hdf) (get_or hp.hdf u 0 ∷ []) (map (λ e. e.1) sel));
}

others_gone :
    (hdr : Text) (n u : ℕ) (hd : List Field) (hdf : List ℕ)
    → is_gone hdr (get_or hd u none) ≡ true
    → others hdr (suc n) u hd hdf ≡ others hdr n (u + 1) hd hdf
others_gone hdr n u hd hdf e = rw (e) refl

others_stays :
    (hdr : Text) (n u : ℕ) (hd : List Field) (hdf : List ℕ)
    → is_gone hdr (get_or hd u none) ≡ false
    → others hdr (suc n) u hd hdf ≡ (get_or hd u none, get_or hdf u 0) ∷ others hdr n (u + 1) hd hdf
others_stays hdr n u hd hdf e = rw (e) refl

unset_from_lem :
    (n u v : ℕ) (hp : Http) (hdr : Text)
    → IsName hdr
    → v ≤ u
    → u + n ≤ length hp.hd
    → u + n ≤ length hp.hdf
    → (v' : ℕ) × (hp' : Http) × (unset_from n u v hp hdr ≡ ok (v', hp'))
      × Left hp v (others hdr n u hp.hd hp.hdf) v' hp'
unfolding unset_from
unset_from_lem zero u v hp hdr name le lt lf = (
  v,
  hp,
  refl,
  record { hd = sym (append-nil (take v hp.hd)); hdf = sym (append-nil (take v hp.hdf)) },
)
unset_from_lem (suc n) u v hp hdr name le lt lf =
    elim (Bool-cases (is_gone hdr (get_or hp.hd u none))) [
      | inl e ↦
          let (v', hp', run, left) =
            unset_from_lem n (u + 1) v hp hdr name (omega arith) (omega arith) (omega arith) in
          (
            v',
            hp',
            step_gone n u v hp hdr name e ∙ run,
            subst (λ sel. Left hp v sel v' hp') (sym (others_gone hdr n u hp.hd hp.hdf e)) left,
          )
      | inr e ↦
          let m = move hp u v in
          let x = move-Moved hp u v le (omega arith) (omega arith) in
          let (v', hp', run, left) =
            unset_from_lem n (u + 1) (v + 1) m hdr name (omega arith) (omega (arith, x.cells))
              (omega (arith, x.flags)) in
          let sel = others_stays hdr n u hp.hd hp.hdf e in
          let left' = subst (λ l. Left m (v + 1) l v' hp') (x.later hdr n) left in
          (
            v',
            hp',
            step_stays n u v hp hdr name e ∙ run,
            subst (λ l. Left hp v l v' hp') (sym sel)
                (Left-Moved hp m hp' u v v' (others hdr n (u + 1) hp.hd hp.hdf) x left'),
          )
    ]

-- http_Unset of a name, counted and with its colon, on a table whose entries are within its arrays:
-- no assertion fails, and the table has its first five entries as before and behind them, in their
-- order and with their flags, the headers that are neither empty nor of that name.
pub unset_lem :
    (hp : Http) (hdr : Text)
    → IsName hdr
    → hdr_first ≤ hp.nhd
    → hp.nhd ≤ length hp.hd
    → hp.nhd ≤ length hp.hdf
    → (hp' : Http) × (unset hp hdr ≡ ok hp')
      × (take hp'.nhd hp'.hd
          ≡ take hdr_first hp.hd
            ++ map (λ e. e.0) (others hdr (hp.nhd - hdr_first) hdr_first hp.hd hp.hdf))
      × (take hp'.nhd hp'.hdf
          ≡ take hdr_first hp.hdf
            ++ map (λ e. e.1) (others hdr (hp.nhd - hdr_first) hdr_first hp.hd hp.hdf))
unfolding unset
unset_lem hp hdr name first hd hdf =
    let (v', hp', run, left) =
      unset_from_lem (hp.nhd - hdr_first) hdr_first hdr_first hp hdr name (omega arith)
        (omega arith) (omega arith) in
    (
      record hp' { nhd = v' },
      ap (λ m. m >>= (λ r. ok (record r.1 { nhd = r.0 }))) run,
      left.hd,
      left.hdf,
    )
