-- ===== src/Vsb/Finish.antt =====
-- vsb_new, vsb_trim, vsb_finish and what can be read from a finished vsb.
use varnish.Prelude.{
  ℕ, zero, suc, ◌+◌, ◌-◌, ◌^◌, ◌≤◌, ◌⊎◌, ◌<◌, ◌≡◌, refl, ap, ◌∙◌, sym, inl, inr, true, false,
  Option, none, some, List, [], ◌∷◌, ◌++◌, arith, lt→ltb, length, take, set, get_or, get_elem?,
  get_elem?-set_self, Option-cases, Bool-cases,
}
use varnish.Prelude.Checked.{ok, ◌>>=◌}
use mathlib.Core.List.{append_assoc, append-nil}
use varnish.Ctype.{is_space}
use varnish.Vsb.{Vsb, new, trim, trim_len, finish, text, len}
use varnish.Vsb.Size.{extend_size, extend_size_lem, to_int}
use varnish.Vsb.Inv.{IsValid, IsMalloc, contents}
use varnish.Vsb.Write.{take-set_le}

-- vsb_finish of a valid vsb that is not finished: no assertion fails, vsb_data then gives a buffer
-- with the text of the vsb and a NUL behind it, and vsb_len its length. That is so also where the
-- vsb had overflowed: the overflow flag is cleared, so that vsb_overflowed and vsb_len no longer
-- tell that a part of the text was lost.
pub finish_lem :
    (s : Vsb)
    → IsValid s
    → s.finished ≡ false
    → (u : Vsb) × (buf : List ℕ) × (finish s ≡ ok u)
      × (text u ≡ ok buf)
      × (take s.len buf ≡ contents s)
      × (get_elem? buf s.len ≡ some 0)
      × (len u ≡ ok (some s.len))
      × (u.overflowed ≡ false)
unfolding finish text len
finish_lem s v fin = (
  record s { buf = set s.buf s.len 0; overflowed = false; finished = true },
  set s.buf s.len 0,
  rw (lt→ltb _ _ v.room, fin),
  rw (lt→ltb _ _ v.room),
  take-set_le s.buf s.len s.len 0 (omega arith),
  get_elem?-set_self s.buf s.len 0 (omega arith),
  rw (lt→ltb _ _ v.room),
  refl,
)

-- Every byte is white space.
abbrev pub AllSpace : List ℕ → Type 0
AllSpace [] = Unit
AllSpace (b ∷ bs) = (is_space b ≡ true) × AllSpace bs

-- Not white space at the end.
abbrev pub IsTrimmed : List ℕ → Type 0
IsTrimmed [] = Unit
IsTrimmed (b ∷ []) = is_space b ≡ false
IsTrimmed (b ∷ c ∷ bs) = IsTrimmed (c ∷ bs)

AllSpace-append : (xs : List ℕ) (b : ℕ) → AllSpace xs → is_space b ≡ true → AllSpace (xs ++ b ∷ [])
AllSpace-append [] b a h = (h, tt)
AllSpace-append (x ∷ xs) b a h = (a.0, AllSpace-append xs b a.1 h)

IsTrimmed-append : (xs : List ℕ) (b : ℕ) → is_space b ≡ false → IsTrimmed (xs ++ b ∷ [])
IsTrimmed-append [] b h = h
IsTrimmed-append (x ∷ []) b h = h
IsTrimmed-append (x ∷ y ∷ xs) b h = IsTrimmed-append (y ∷ xs) b h

take-suc : (xs : List ℕ) (n : ℕ) → n < length xs → take (suc n) xs ≡ take n xs ++ get_or xs n 0 ∷ []
take-suc [] n h = absurd (omega arith)
take-suc (x ∷ xs) zero h = refl
take-suc (x ∷ xs) (suc n) h = ap (λ ys. x ∷ ys) (take-suc xs n (omega arith))

trim_len_lem :
    (buf : List ℕ) (n : ℕ)
    → n ≤ length buf
    → (ws : List ℕ) × (take n buf ≡ take (trim_len buf n) buf ++ ws)
      × AllSpace ws
      × IsTrimmed (take (trim_len buf n) buf)
      × (trim_len buf n ≤ n)
unfolding trim_len
trim_len_lem buf zero h = ([], refl, tt, tt, omega arith)
trim_len_lem buf (suc n) h = elim (Bool-cases (is_space (get_or buf n 0))) [
  | inl space ↦
      let (ws, e, a, t, le) = trim_len_lem buf n (omega arith) in
      rw (space, trim_len)
        (
          ws ++ get_or buf n 0 ∷ [],
          take-suc buf n h
              ∙ ap (λ z. z ++ get_or buf n 0 ∷ []) e
              ∙ append_assoc (take (trim_len buf n) buf) ws (get_or buf n 0 ∷ []),
          AllSpace-append ws _ a space,
          t,
          omega arith,
        )
  | inr other ↦
      rw (other, trim_len)
        (
          [],
          sym (append-nil _),
          tt,
          rw (take-suc buf n h) (IsTrimmed-append (take n buf) _ other),
          omega arith,
        )
]

-- vsb_trim of a valid vsb that is neither finished nor overflowed: no assertion fails, the vsb stays
-- valid, the text loses white space only, at its end, and does not end in white space after that.
pub trim_lem :
    (s : Vsb)
    → IsValid s
    → s.finished ≡ false
    → s.overflowed ≡ false
    → (u : Vsb) × (ws : List ℕ) × (trim s ≡ ok (true, u))
      × IsValid u
      × (contents s ≡ contents u ++ ws)
      × AllSpace ws
      × IsTrimmed (contents u)
unfolding trim
trim_lem s v fin ovf =
    let (ws, e, a, t, le) = trim_len_lem s.buf s.len (omega arith) in
    (
      record s { len = trim_len s.buf s.len },
      ws,
      rw (lt→ltb _ _ v.room, fin, ovf),
      record { buffer = v.buffer; room = omega (arith, v.room); small = v.small },
      e,
      a,
      t,
    )

module _ (malloc : ℕ → Option (List ℕ)) (m : IsMalloc malloc) where
  -- vsb_new of a vsb that may grow, which brings its own buffer: NULL where malloc fails; otherwise
  -- the vsb is valid, empty, and neither finished nor overflowed.
  pub new_lem :
      (n : ℕ)
      → n ≤ 2 ^ 31 - 4096
      → ((k : ℕ) × (malloc k ≡ none) × (new malloc false true none n true ≡ ok none))
        ⊎ ((u : Vsb) × (new malloc false true none n true ≡ ok (some u))
            × IsValid u
            × (u.len ≡ 0)
            × (n ≤ u.size)
            × (u.size < n + 4096)
            × (u.finished ≡ false)
            × (u.overflowed ≡ false)
            × (u.autoextend ≡ true))
  unfolding new
  new_lem n h = elim (extend_size_lem n) [
    | inr (over, e) ↦ absurd (omega (arith, over))
    | inl (fits, (size, e, enough, least, twice, near)) ↦
        let as_is : to_int n ≡ n = ground arith in
        let e' : extend_size (to_int n) ≡ ok size = ap extend_size as_is ∙ e in
        elim (Option-cases (malloc size)) [
          | inl gone ↦ inl (size, gone, rw (e', ◌>>=◌) (rw gone refl))
          | inr (b, got) ↦ inr (
            made b size,
            rw (e', ◌>>=◌) (rw got refl),
            record { buffer = m _ b got; room = omega (arith, least); small = omega (arith, near) },
            refl,
            enough,
            near,
            refl,
            refl,
            refl,
          )
        ]
  ]
    where
      made : List ℕ → ℕ → Vsb
      made b size = record {
        buf = b;
        size = size;
        len = 0;
        autoextend = true;
        dynamic = true;
        finished = false;
        overflowed = false;
        dynstruct = true;
      }
