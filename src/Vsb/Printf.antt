-- ===== src/Vsb/Printf.antt =====
-- vsb_vprintf and vsb_printf.
use varnish.Prelude.{
  ℕ, zero, suc, ◌+◌, ◌-◌, ◌^◌, ◌≤◌, ◌<◌, ◌≡◌, refl, ap, lt→ltb, ltb→lt, ◌∙◌, sym, ◌⊎◌, ◌↔◌, inl,
  inr, Bool, true, false, Option, none, some, List, [], ◌∷◌, ◌++◌, ◌&&◌, arith, ltb, if◌then◌else◌,
  not, length, take, length-take, Bool-cases,
}
use varnish.Prelude.Checked.{Checked, ok, assert, ◌>>=◌, ◌>>◌}
use mathlib.Core.Path.{ap₂}
use varnish.Vsb.{Vsb, has_room, free_space, format, printf, settle, mark, write_at}
use varnish.Vsb.Inv.{IsValid, IsMalloc, guarded, contents, Extends, Stuck, Extends-refl, extend_lem}
use varnish.Vsb.Write.{take-write_at_le, length-write_at, take-write_at}

-- The vsb with as much of the text as its free space takes, and the NUL behind it.
abbrev pub printed : Vsb → List ℕ → Vsb
printed s t = record s {
  buf = write_at s.buf s.len (take (free_space s) t ++ 0 ∷ []);
  len = s.len + length (take (free_space s) t);
}

free_space_lem : (s : Vsb) → IsValid s → free_space s + (s.len + 1) ≡ s.size
free_space_lem s v = omega arith

printed_lem :
    (s : Vsb) (t : List ℕ)
    → IsValid s
    → IsValid (printed s t) × (contents (printed s t) ≡ contents s ++ take (free_space s) t)
printed_lem s t v = (
  record {
    buffer = length-write_at (take (free_space s) t ++ 0 ∷ []) s.buf s.len ∙ v.buffer;
    room = omega (arith, length-take (free_space s) t, free_space_lem s v);
    small = v.small;
  },
  take-write_at (take (free_space s) t) (0 ∷ []) s.buf s.len
      (omega (arith, length-take (free_space s) t, free_space_lem s v, v.buffer)),
)

-- What one round of the loop leaves in the buffer.
abbrev pub written : Vsb → List ℕ → Vsb
written s t = record s { buf = write_at s.buf s.len (take (free_space s) t ++ 0 ∷ []) }

settle-eq-mark : (u : Vsb) (t : List ℕ) → IsValid u → settle (written u t) t ≡ mark (printed u t)
unfolding settle
settle-eq-mark u t v =
    let count : (if ltb (length t) (free_space u) then length t else free_space u)
        ≡ length (take (free_space u) t) =
      ground (arith, length-take (free_space u) t) in
    rw count

-- `mark` sets at most the overflow flag.
mark_lem :
    (r : Vsb)
    → IsValid r
    → r.overflowed ≡ false
    → IsValid (mark r)
      × (contents (mark r) ≡ contents r)
      × ((mark r).len ≡ r.len)
      × ((mark r).size ≡ r.size)
      × (((mark r).overflowed ≡ true) ↔ ((r.autoextend ≡ false) × (r.len + 1 ≡ r.size)))
unfolding mark
mark_lem r v h = elim (Bool-cases (not (has_room r) && not r.autoextend)) [
  | inl full ↦ rw full (
    record { buffer = v.buffer; room = v.room; small = v.small },
    refl,
    refl,
    refl,
    ((λ _. ground arith), λ _. refl),
  )
  | inr open_ ↦ rw open_ (v, refl, refl, refl, ((λ e. cc), λ (a, e). absurd (ground arith)))
]

mark_flags : (r : Vsb) → ((mark r).autoextend ≡ r.autoextend) × ((mark r).finished ≡ r.finished)
unfolding mark
mark_flags r = elim (Bool-cases (not (has_room r) && not r.autoextend)) [
  | inl full ↦ rw full (refl, refl)
  | inr open_ ↦ rw open_ (refl, refl)
]

take-length-take : (n : ℕ) (xs : List ℕ) → take (length (take n xs)) xs ≡ take n xs
take-length-take zero xs = refl
take-length-take (suc n) [] = refl
take-length-take (suc n) (x ∷ xs) = ap (λ ys. x ∷ ys) (take-length-take n xs)

not-not : (b : Bool) → b ≡ not (not b)
not-not true = refl
not-not false = refl

module _ (malloc : ℕ → Option (List ℕ)) (m : IsMalloc malloc) where
  format_last :
      (fuel : ℕ) (u : Vsb) (t : List ℕ)
      → ltb (free_space u) (length t) ≡ false
      → format malloc (suc fuel) u t ≡ ok (some (written u t))
  unfolding format
  format_last fuel u t short = rw (format, short) refl

  -- Two rounds are enough: the second finds the room that the extension has made.
  format_lem :
      (s : Vsb) (t : List ℕ)
      → IsValid s
      → s.size + length t ≤ 2 ^ 31 - 4096
      → (u : Vsb) × (format malloc 2 s t ≡ ok (some (written u t)))
        × Extends s u
        × ((u.size ≤ s.size) ⊎ (u.size < s.len + length t + 4097))
        × ((length t ≤ free_space u) ⊎ ((free_space u < length t) × Stuck malloc m s))
  unfolding format
  format_lem s t v h = elim (Bool-cases (ltb (free_space s) (length t))) [
    | inr short ↦
        (s, rw (format, short) refl, Extends-refl s v, inl (omega arith), inl (ground arith))
    | inl long ↦
        elim (extend_lem malloc m (written s t) (length t - free_space s) (written-IsValid s t v)
          (omega arith)) [
            | inl (e, stuck) ↦ (
              s,
              rw (format, long, e) refl,
              Extends-refl s v,
              inl (omega arith),
              inr (ground arith, stuck),
            )
            | inr (u, e, x, big, near) ↦
                let fits : length t ≤ free_space u =
                  omega (arith, free_space_lem u x.valid, free_space_lem s v) in
                let enough : ltb (free_space u) (length t) ≡ false = ground arith in
                (
                  u,
                  rw (format, long, e) (format_last 0 u t enough),
                  record {
                    valid = x.valid;
                    same_len = x.same_len;
                    auto = x.auto;
                    open_ = x.open_;
                    overflow = x.overflow;
                    larger = x.larger;
                    same =
                        x.same
                        ∙ take-write_at_le (take (free_space s) t ++ 0 ∷ []) s.buf s.len s.len
                            (omega arith);
                  },
                  inr (omega (arith, near, free_space_lem s v, ltb→lt _ _ long)),
                  inl fits,
                )
          ]
  ]
    where
      written-IsValid : (s : Vsb) (t : List ℕ) → IsValid s → IsValid (written s t)
      written-IsValid s t v = record {
        buffer = length-write_at (take (free_space s) t ++ 0 ∷ []) s.buf s.len ∙ v.buffer;
        room = v.room;
        small = v.small;
      }

  printf_run :
      (s : Vsb) (t : List ℕ) (u r : Vsb)
      → ltb s.len s.size ≡ true
      → s.finished ≡ false
      → s.overflowed ≡ false
      → format malloc 2 s t ≡ ok (some u)
      → settle u t ≡ r
      → r.len < r.size
      → printf malloc s t ≡ ok (some (not r.overflowed, r))
  unfolding printf
  printf_run s t u r lt fin ovf run e room =
      guarded (ltb s.len s.size) (not s.finished) s.overflowed (ok (some (false, s))) _ lt
        (ap not fin) ovf
      ∙ ap (λ m. m >>= λ q. checked q) run
      ∙ rw (e, lt→ltb _ _ room)
    where
      checked : Option Vsb → Checked (Option (Bool × Vsb))
      checked none = ok none
      checked (some s1) =
          assert (ltb (settle s1 t).len (settle s1 t).size)
          >> ok (some (not (settle s1 t).overflowed, settle s1 t))

  -- vsb_printf to a valid vsb that is neither finished nor overflowed, where `t` is what vsnprintf
  -- makes of the format, and its size and that of `t` are 2 ^ 31 - 4096 at most together: the loop
  -- ends within two rounds, no `int` overflows and no assertion fails, the vsb stays valid, and some first `k` bytes of `t` have been appended. Less
  -- than all of `t` only if the vsb is then full and it has a fixed length or malloc has failed. The
  -- result is -1, and the overflow flag set, exactly when the vsb has a fixed length and is full now:
  -- so also where `t` just fits, and never where a vsb that may grow could not. A buffer
  -- that grows is at most 4096 bytes larger than all of the text needs with its NUL.
  pub printf_lem :
      (s : Vsb) (t : List ℕ)
      → IsValid s
      → s.finished ≡ false
      → s.overflowed ≡ false
      → s.size + length t ≤ 2 ^ 31 - 4096
      → (done : Bool) × (u : Vsb) × (k : ℕ) × (printf malloc s t ≡ ok (some (done, u)))
        × IsValid u
        × (k ≤ length t)
        × (contents u ≡ contents s ++ take k t)
        × (k < length t → Stuck malloc m s × (u.len + 1 ≡ u.size))
        × (u.overflowed ≡ not done)
        × ((u.overflowed ≡ true) ↔ ((s.autoextend ≡ false) × (u.len + 1 ≡ u.size)))
        × ((u.autoextend ≡ s.autoextend) × (u.finished ≡ s.finished))
        × ((u.size ≤ s.size) ⊎ (u.size < s.len + length t + 4097))
  printf_lem s t v fin ovf h =
      let (u, run, x, near, room) = format_lem s t v h in
      let (w, c) = printed_lem u t x.valid in
      let e = settle-eq-mark u t x.valid in
      let (w', c', l, z, o) = mark_lem (printed u t) w (x.overflow ∙ ovf) in
      let l' : (mark (printed u t)).len + 1 ≡ (printed u t).len + 1 = ap (λ n. n + 1) l in
      let k = length (take (free_space u) t) in
      (
        not (mark (printed u t)).overflowed,
        mark (printed u t),
        k,
        printf_run s t (written u t) (mark (printed u t)) (lt→ltb _ _ v.room) fin ovf run e w'.room,
        w',
        omega (arith, length-take (free_space u) t),
        c' ∙ c ∙ ap₂ ◌++◌ x.same (sym (take-length-take (free_space u) t)),
        (λ short. elim room [
          | inl fits ↦ absurd (omega (arith, length-take (free_space u) t))
          | inr (lt, stuck) ↦
              (stuck, omega (arith, length-take (free_space u) t, l, z, free_space_lem u x.valid))
        ]),
        not-not _,
        (
          (λ h. let (a, b) = o.0 h in (sym x.auto ∙ a, l' ∙ b ∙ sym z)),
          λ (a, b). o.1 (x.auto ∙ a, sym l' ∙ b ∙ z),
        ),
        ((mark_flags (printed u t)).0 ∙ x.auto, (mark_flags (printed u t)).1 ∙ x.open_),
        omega (arith, near, z),
      )
