-- ===== src/Vsb/Inv.antt =====
-- The invariant of a vsb, the text that it holds, and how one byte is stored.
use varnish.Prelude.{
  ℕ, zero, suc, ◌+◌, ◌-◌, ◌^◌, ◌≤◌, ◌<◌, ◌≡◌, refl, ap, ◌∙◌, ◌⊎◌, inl, inr, Bool, true, false,
  if◌then◌else◌, Option, none, some, List, [], ◌∷◌, ◌++◌, arith, length, take, set, length-set,
  Option-cases, Bool-cases,
}
use varnish.Prelude.Checked.{Checked, ok, assert, ◌>>◌}
use varnish.Vsb.{Vsb, has_room, store, overlay, extend, make_room}
use varnish.Vsb.Size.{extend_size, to_int, extend_size_lem}

-- The buffer has `size` bytes, and there is room for the NUL.
pub record IsValid (s : Vsb) : Type 0 where
  pub buffer : length s.buf ≡ s.size
  pub room : s.len < s.size
  pub small : s.size < 2 ^ 63

-- What malloc promises: a block of the size that was asked for.
abbrev pub IsMalloc : (ℕ → Option (List ℕ)) → Type 0
IsMalloc malloc = (n : ℕ) (b : List ℕ) → malloc n ≡ some b → length b ≡ n

-- The text that the vsb holds.
abbrev pub contents : Vsb → List ℕ
contents s = take s.len s.buf

pub take-set :
    (xs : List ℕ) (i c : ℕ) → i < length xs → take (suc i) (set xs i c) ≡ take i xs ++ c ∷ []
take-set [] i c h = absurd (omega arith)
take-set (x ∷ xs) zero c h = refl
take-set (x ∷ xs) (suc i) c h = ap (λ ys. x ∷ ys) (take-set xs i c (omega arith))

pub contents-store : (s : Vsb) (c : ℕ) → IsValid s → contents (store s c) ≡ contents s ++ c ∷ []
contents-store s c v =
    let e : s.len + 1 ≡ suc s.len = omega arith in rw e (take-set s.buf s.len c (omega arith))

pub store-IsValid : (s : Vsb) (c : ℕ) → IsValid s → s.len + 1 < s.size → IsValid (store s c)
store-IsValid s c v h = record {
  buffer = length-set s.buf s.len c ∙ v.buffer;
  room = h;
  small = v.small;
}

length-overlay : (xs ys : List ℕ) → length (overlay xs ys) ≡ length ys
length-overlay [] ys = refl
length-overlay (x ∷ xs) [] = refl
length-overlay (x ∷ xs) (y ∷ ys) = ap suc (length-overlay xs ys)

take-overlay :
    (n : ℕ) (xs ys : List ℕ)
    → n ≤ length xs
    → length xs ≤ length ys
    → take n (overlay xs ys) ≡ take n xs
take-overlay zero xs ys a b = refl
take-overlay (suc n) [] ys a b = absurd (omega arith)
take-overlay (suc n) (x ∷ xs) [] a b = absurd (omega arith)
take-overlay (suc n) (x ∷ xs) (y ∷ ys) a b =
    ap (λ zs. x ∷ zs) (take-overlay n xs ys (omega arith) (omega arith))

pub take-all : (n : ℕ) (xs : List ℕ) → length xs ≤ n → take n xs ≡ xs
take-all zero [] h = refl
take-all zero (x ∷ xs) h = absurd (omega arith)
take-all (suc n) [] h = refl
take-all (suc n) (x ∷ xs) h = ap (λ zs. x ∷ zs) (take-all n xs (omega arith))

-- A call on a vsb that is neither finished nor overflowed comes to what is behind its checks.
pub guarded {ℓ} :
    {A : Type ℓ} (a b c : Bool) (x y : Checked A)
    → a ≡ true
    → b ≡ true
    → c ≡ false
    → (assert a >> (assert b >> (if c then x else y))) ≡ y
guarded a b c x y ha hb hc = rw (ha, hb, hc)

-- `t` is `s` with a buffer that is at least as large.
pub record Extends (s t : Vsb) : Type 0 where
  pub valid : IsValid t
  pub same_len : t.len ≡ s.len
  pub same : contents t ≡ contents s
  pub auto : t.autoextend ≡ s.autoextend
  pub open_ : t.finished ≡ s.finished
  pub overflow : t.overflowed ≡ s.overflowed
  pub larger : s.size ≤ t.size

pub Extends-refl : (s : Vsb) → IsValid s → Extends s s
Extends-refl s v = record {
  valid = v;
  same_len = refl;
  same = refl;
  auto = refl;
  open_ = refl;
  overflow = refl;
  larger = omega arith;
}

module _ (malloc : ℕ → Option (List ℕ)) (m : IsMalloc malloc) where
  -- A buffer cannot be extended: it has a fixed length, or there is no memory.
  abbrev pub Stuck : Vsb → Type 0
  Stuck s = (s.autoextend ≡ false) ⊎ ((n : ℕ) × (malloc n ≡ none))

  pub extend_lem :
      (s : Vsb) (n : ℕ)
      → IsValid s
      → s.size + n ≤ 2 ^ 31 - 4096
      → ((extend malloc s n ≡ ok none) × Stuck s)
        ⊎ ((t : Vsb) × (extend malloc s n ≡ ok (some t))
            × Extends s t
            × (s.size + n ≤ t.size)
            × (t.size < s.size + n + 4096))
  unfolding extend
  extend_lem s n v h = elim (Bool-cases s.autoextend) [
    | inr fixed ↦ inl (rw fixed, inl fixed)
    | inl auto ↦ elim (extend_size_lem (s.size + n)) [
      | inr (over, e) ↦ absurd (omega (arith, over))
      | inl (fits, (size, e, enough, least, twice, near)) ↦
          let e' : extend_size (to_int (s.size + n)) ≡ ok size = ap extend_size as_is ∙ e in
          elim (Option-cases (malloc size)) [
            | inl gone ↦ inl (rw (auto, e', gone), inr (size, gone))
            | inr (b, got) ↦
                inr (t size b, rw (auto, e', got) refl, grown size b enough near got, enough, near)
          ]
    ]
  ]
    where
      as_is : to_int (s.size + n) ≡ s.size + n
      as_is = ground arith

      t : ℕ → List ℕ → Vsb
      t size b = record s { buf = overlay (take s.size s.buf) b; size = size; dynamic = true }

      whole : take s.size s.buf ≡ s.buf
      whole = take-all s.size s.buf (omega arith)

      grown :
          (size : ℕ) (b : List ℕ)
          → s.size + n ≤ size
          → size < s.size + n + 4096
          → malloc size ≡ some b
          → Extends s (t size b)
      grown size b enough near got = record {
        valid = record {
          buffer = length-overlay (take s.size s.buf) b ∙ m _ b got;
          room = omega (arith, enough);
          small = omega (arith, near);
        };
        same_len = refl;
        same =
            rw whole (take-overlay s.len s.buf b (omega arith) (omega (arith, enough, m _ b got)));
        auto = refl;
        open_ = refl;
        overflow = refl;
        larger = omega (arith, enough);
      }

  -- After make_room there is room for one byte, unless the vsb is full and stuck.
  pub make_room_lem :
      (s : Vsb) (n : ℕ)
      → IsValid s
      → (s.len + suc n < s.size) ⊎ (s.size + suc n ≤ 2 ^ 31 - 4096)
      → ((make_room malloc s (suc n) ≡ ok none) × Stuck s × (s.len + 1 ≡ s.size))
        ⊎ ((t : Vsb) × (make_room malloc s (suc n) ≡ ok (some t))
            × Extends s t
            × (t.len + 1 < t.size)
            × ((t.len + suc n < t.size) ⊎ (t.size + suc n ≤ 2 ^ 31 - 4096))
            × ((t.size ≤ s.size) ⊎ (t.size < s.len + suc n + 4097)))
  unfolding make_room
  make_room_lem s n v h = elim (Bool-cases (has_room s)) [
    | inl room ↦
        inr (s, rw (make_room, room) refl, Extends-refl s v, ground arith, h, inl (omega arith))
    | inr full ↦ elim (extend_lem s (suc n) v (ground arith)) [
      | inl (e, stuck) ↦ inl (rw (make_room, full) e, stuck, ground arith)
      | inr (t, e, x, big, near) ↦
          let at_end : s.len + 1 ≡ s.size = ground arith in
          inr (
            t,
            rw (make_room, full) e,
            x,
            omega (arith, x.same_len, v.room),
            inl (omega (arith, x.same_len, v.room)),
            inr (omega (arith, near, at_end)),
          )
    ]
  ]
