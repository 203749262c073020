-- ===== src/Vsb/Grows.antt =====
-- A vsb that may grow, where malloc gives memory and the text stays below 2^29 bytes: every append
-- succeeds.
use varnish.Prelude.{
  ℕ, ◌+◌, ◌^◌, ◌≤◌, ◌<◌, ◌≡◌, ◌≢◌, ◌⊎◌, refl, ap, sym, ◌∙◌, inl, inr, Bool, true, false, Option,
  none, some, List, [], ◌++◌, arith, lt→ltb, length, length-take, take, set, length-set, drop,
  take-append-drop,
}
use varnish.Prelude.Checked.{ok}
use varnish.Vsb.{Vsb, bcat, printf, clear, finish, text, len, new}
use varnish.Vsb.Inv.{IsValid, IsMalloc, contents, Stuck, take-all}
use varnish.Vsb.Append.{Outcome, bcat_lem}
use varnish.Vsb.Printf.{printf_lem}
use varnish.Vsb.Write.{take-set_le}
use varnish.Vsb.Finish.{new_lem}

-- It may grow, and is not larger than such a text makes it.
pub record IsGrowing (s : Vsb) : Type 0 where
  pub valid : IsValid s
  pub auto : s.autoextend ≡ true
  pub small : s.size ≤ 2 ^ 29 + 4097

-- Bytes may be appended to it.
pub record IsOpen (s : Vsb) : Type 0 where
  pub growing : IsGrowing s
  pub open_ : s.finished ≡ false
  pub whole : s.overflowed ≡ false

pub length-contents : (s : Vsb) → IsValid s → length (contents s) ≡ s.len
length-contents s v = omega (arith, length-take s.len s.buf, v.buffer, v.room)

-- `u` is `s` with `t` appended.
abbrev pub Grew : Vsb → List ℕ → Vsb → Type 0
Grew s t u = IsOpen u × (contents u ≡ contents s ++ t)

module _ (malloc : ℕ → Option (List ℕ)) (m : IsMalloc malloc)
    (memory : (n : ℕ) → malloc n ≢ none) where
  not_stuck : (s : Vsb) → s.autoextend ≡ true → Stuck malloc m s → (◌≡◌ {A = ℕ} 0 1)
  not_stuck s auto (inl fixed) = cc
  not_stuck s auto (inr (n, gone)) = absurd (memory n gone)

  Outcome-IsOpen :
      (s : Vsb) (t : List ℕ) (done : Bool) (u : Vsb)
      → IsOpen s
      → s.len + length t ≤ 2 ^ 29
      → Outcome malloc m s t done u
      → (done ≡ true) × Grew s t u
  Outcome-IsOpen s t true u o h r = (
    refl,
    (
      record {
        growing = record {
          valid = r.valid;
          auto = r.auto ∙ o.growing.auto;
          small = omega (arith, r.growth, o.growing.small, h);
        };
        open_ = r.open_ ∙ o.open_;
        whole = r.flag_;
      },
      r.whole refl,
    ),
  )
  Outcome-IsOpen s t false u o h r =
      let (k, lt, e, full, stuck) = r.part refl in
      let no = not_stuck s o.growing.auto stuck in absurd (omega (arith, no))

  pub bcat-IsOpen :
      (s : Vsb) (t : List ℕ)
      → IsOpen s
      → s.len + length t ≤ 2 ^ 29
      → (u : Vsb) × (bcat malloc s t ≡ ok (true, u)) × Grew s t u
  bcat-IsOpen s t o h =
      let (done, u, run, r) =
        bcat_lem malloc m s t o.growing.valid o.open_ o.whole (omega (arith, o.growing.small, h)) in
      let (good, grew) = Outcome-IsOpen s t done u o h r in
      (u, run ∙ ap (λ d. ok (d, u)) good, grew)

  pub printf-IsOpen :
      (s : Vsb) (t : List ℕ)
      → IsOpen s
      → s.len + length t ≤ 2 ^ 29
      → (done : Bool) × (u : Vsb) × (printf malloc s t ≡ ok (some (done, u))) × Grew s t u
  printf-IsOpen s t o h =
      let (done, u, k, run, v, le, e, short, flag, full, same, near) =
        printf_lem malloc m s t o.growing.valid o.open_ o.whole
          (omega (arith, o.growing.small, h)) in
      let all : take k t ≡ t = elim (lt_or_ge k (length t)) [
        | inl lt ↦ absurd (let no = not_stuck s o.growing.auto (short lt).0 in omega (arith, no))
        | inr ge ↦ take-all k t ge
      ] in
      (
        done,
        u,
        run,
        (
          record {
            growing = record {
              valid = v;
              auto = same.0 ∙ o.growing.auto;
              small = omega (arith, near, o.growing.small, h);
            };
            open_ = same.1 ∙ o.open_;
            whole = clean u.overflowed (λ e. (full.0 e).0) o.growing.auto;
          },
          e ∙ ap (λ x. contents s ++ x) all,
        ),
      )
    where
      lt_or_ge : (a b : ℕ) → (a < b) ⊎ (b ≤ a)
      lt_or_ge a b = omega arith

      clean : (b : Bool) → (b ≡ true → s.autoextend ≡ false) → s.autoextend ≡ true → b ≡ false
      clean true f auto = cc (f refl)
      clean false f auto = refl

  pub new-IsOpen :
      (u : Vsb) × (new malloc false true none 0 true ≡ ok (some u)) × IsOpen u × (contents u ≡ [])
  new-IsOpen = elim (new_lem malloc m 0 (omega arith)) [
    | inl (k, gone, e) ↦ absurd (memory k gone)
    | inr (u, e, v, zero_len, le, near, fin, ovf, auto) ↦ (
      u,
      e,
      record {
        growing = record { valid = v; auto = auto; small = omega (arith, near) };
        open_ = fin;
        whole = ovf;
      },
      ap (λ n. take n u.buf) zero_len,
    )
  ]

pub clear-IsOpen :
    (s : Vsb) → IsGrowing s → (u : Vsb) × (clear s ≡ ok u) × IsOpen u × (contents u ≡ [])
unfolding clear
clear-IsOpen s g = (
  record s { finished = false; overflowed = false; len = 0 },
  rw (lt→ltb _ _ g.valid.room),
  record {
    growing = record {
      valid = record {
        buffer = g.valid.buffer;
        room = omega (arith, g.valid.room);
        small = g.valid.small;
      };
      auto = g.auto;
      small = g.small;
    };
    open_ = refl;
    whole = refl;
  },
  refl,
)

-- vsb_finish: what vsb_data and vsb_len give then.
pub finish-IsGrowing :
    (s : Vsb)
    → IsOpen s
    → (u : Vsb) × (rest : List ℕ) × (finish s ≡ ok u)
      × IsGrowing u
      × (u.overflowed ≡ false)
      × (text u ≡ ok (contents s ++ rest))
      × (len u ≡ ok (some (length (contents s))))
      × (contents u ≡ contents s)
unfolding finish text len
finish-IsGrowing s o =
    let v = o.growing.valid in
    (
      record s { buf = set s.buf s.len 0; overflowed = false; finished = true },
      drop s.len (set s.buf s.len 0),
      rw (lt→ltb _ _ v.room, o.open_) refl,
      record {
        valid = record {
          buffer = length-set s.buf s.len 0 ∙ v.buffer;
          room = v.room;
          small = v.small;
        };
        auto = o.growing.auto;
        small = o.growing.small;
      },
      refl,
      rw (lt→ltb _ _ v.room) (ap ok (split ∙ ap (λ x. x ++ drop s.len (set s.buf s.len 0)) same)),
      rw (lt→ltb _ _ v.room) (ap (λ n. ok (some n)) (sym (length-contents s v))),
      same,
    )
  where
    same : take s.len (set s.buf s.len 0) ≡ take s.len s.buf
    same = take-set_le s.buf s.len s.len 0 (omega arith)

    split : set s.buf s.len 0 ≡ take s.len (set s.buf s.len 0) ++ drop s.len (set s.buf s.len 0)
    split = sym (take-append-drop s.len (set s.buf s.len 0))
