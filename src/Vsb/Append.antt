-- ===== src/Vsb/Append.antt =====
-- Appending bytes: the loop of vsb_bcat and vsb_cat.
use varnish.Prelude.{
  ℕ, suc, ◌+◌, ◌-◌, ◌^◌, ◌≤◌, ◌<◌, ◌≡◌, refl, ap, ◌∙◌, sym, lt→ltb, ◌⊎◌, inl, inr, Bool, true,
  false, Option, List, [], ◌∷◌, ◌++◌, ltb, arith, not, length, take,
}
use varnish.Prelude.Checked.{ok, ◌>>=◌}
use mathlib.Core.List.{append_assoc, append-nil}
use varnish.Vsb.{Vsb, store, append, bcat, flag}
use varnish.Vsb.Inv.{
  IsValid, IsMalloc, guarded, contents, Extends, Stuck, contents-store, store-IsValid,
  make_room_lem,
}

module _ (malloc : ℕ → Option (List ℕ)) (m : IsMalloc malloc) where
  -- `done` and `u` are the result of appending `t` to `s`. The vsb `u` is valid, and `s` has kept its
  -- flags but for the overflow; where the result is good all of `t` is there, and otherwise a proper
  -- prefix of it, the vsb is full and it cannot be extended. A text that fits is appended.
  pub record Outcome (s : Vsb) (t : List ℕ) (done : Bool) (u : Vsb) : Type 0 where
    pub valid : IsValid u
    pub flag_ : u.overflowed ≡ not done
    pub open_ : u.finished ≡ s.finished
    pub whole : done ≡ true → contents u ≡ contents s ++ t
    pub part :
        done ≡ false
        → (k : ℕ) × (k < length t)
          × (contents u ≡ contents s ++ take k t)
          × (u.len + 1 ≡ u.size)
          × Stuck malloc m s
    pub fits : s.len + length t < s.size → done ≡ true
    pub auto : u.autoextend ≡ s.autoextend
    pub growth : (u.size ≤ s.size) ⊎ (u.size < s.len + length t + 4097)

  -- What appending `t` to `s` comes to: the result `done` and the vsb `u`.
  pub record Appended (s : Vsb) (t : List ℕ) (done : Bool) (u : Vsb) : Type 0 where
    pub valid : IsValid u
    pub auto : u.autoextend ≡ s.autoextend
    pub open_ : u.finished ≡ s.finished
    pub overflow : u.overflowed ≡ s.overflowed
    pub whole : done ≡ true → contents u ≡ contents s ++ t
    -- a prefix of the text is there, and the vsb is full
    pub part :
        done ≡ false
        → (k : ℕ) × (k < length t)
          × (contents u ≡ contents s ++ take k t)
          × (u.len + 1 ≡ u.size)
          × Stuck malloc m s
    -- a text that fits is appended whole
    pub fits : s.len + length t < s.size → done ≡ true
    pub growth : (u.size ≤ s.size) ⊎ (u.size < s.len + length t + 4097)

  store_text :
      (s u : Vsb) (b : ℕ) (ys : List ℕ)
      → Extends s u
      → contents (store u b) ++ ys ≡ contents s ++ b ∷ ys
  store_text s u b ys x =
      ap (λ z. z ++ ys) (contents-store u b x.valid ∙ ap (λ z. z ++ b ∷ []) x.same)
      ∙ append_assoc (contents s) (b ∷ []) ys

  Appended-step :
      (s u : Vsb) (b : ℕ) (bs : List ℕ) (r : Bool × Vsb)
      → Extends s u
      → u.len + 1 < u.size
      → (u.size ≤ s.size) ⊎ (u.size < s.len + suc (length bs) + 4097)
      → Appended (store u b) bs r.0 r.1
      → Appended s (b ∷ bs) r.0 r.1
  Appended-step s u b bs r x room near a = record {
    valid = a.valid;
    auto = a.auto ∙ x.auto;
    open_ = a.open_ ∙ x.open_;
    overflow = a.overflow ∙ x.overflow;
    whole = λ h. a.whole h ∙ store_text s u b bs x;
    part = λ h.
        let (k, lt, e, full, stuck) = a.part h in
        (suc k, omega arith, e ∙ store_text s u b (take k bs) x, full, rw (← x.auto) stuck);
    fits = λ h. a.fits (omega arith);
    growth = later a.growth near;
  }
    where
      later :
          (r.1.size ≤ u.size) ⊎ (r.1.size < u.len + 1 + length bs + 4097)
          → (u.size ≤ s.size) ⊎ (u.size < s.len + suc (length bs) + 4097)
          → (r.1.size ≤ s.size) ⊎ (r.1.size < s.len + suc (length bs) + 4097)
      later p q = omega (arith, p, q, x.same_len)

  pub append_lem :
      (t : List ℕ) (s : Vsb)
      → IsValid s
      → (s.len + length t < s.size) ⊎ (s.size + length t ≤ 2 ^ 31 - 4096)
      → (r : Bool × Vsb) × (append malloc s t ≡ ok r) × Appended s t r.0 r.1
  unfolding append
  append_lem [] s v h = (
    (true, s),
    refl,
    record {
      valid = v;
      auto = refl;
      open_ = refl;
      overflow = refl;
      whole = λ e. sym (append-nil _);
      part = λ e. cc;
      fits = λ e. refl;
      growth = inl (omega arith);
    },
  )
  append_lem (b ∷ bs) s v h = elim (make_room_lem malloc m s (length bs) v h) [
    | inl (e, stuck, full) ↦ (
      (false, s),
      rw (append, e) refl,
      record {
        valid = v;
        auto = refl;
        open_ = refl;
        overflow = refl;
        whole = λ p. cc;
        part = λ p. (0, omega arith, sym (append-nil _), full, stuck);
        fits = λ p. absurd (omega arith);
        growth = inl (omega arith);
      },
    )
    | inr (u, e, x, room, h', near) ↦
        let (r, run, a) =
          append_lem bs (store u b) (store-IsValid u b x.valid room) (ground arith) in
        (r, rw (append, e) run, Appended-step s u b bs r x room near a)
  ]

  flag-Outcome :
      (s : Vsb) (t : List ℕ) (r : Bool × Vsb)
      → s.overflowed ≡ false
      → Appended s t r.0 r.1
      → Outcome s t (flag malloc r).0 (flag malloc r).1
  flag-Outcome s t (true, u) h a = record {
    valid = a.valid;
    flag_ = a.overflow ∙ h;
    open_ = a.open_;
    whole = a.whole;
    part = a.part;
    fits = a.fits;
    auto = a.auto;
    growth = a.growth;
  }
  flag-Outcome s t (false, u) h a = record {
    valid = record { buffer = a.valid.buffer; room = a.valid.room; small = a.valid.small };
    flag_ = refl;
    open_ = a.open_;
    whole = λ e. cc;
    part = a.part;
    fits = a.fits;
    auto = a.auto;
    growth = a.growth;
  }

  -- vsb_bcat of the bytes `t` to a valid vsb that is neither finished nor overflowed, where its size
  -- and that of `t` are 2 ^ 31 - 4096 at most together: no `int` overflows, no assertion fails, and the result is as `Outcome` says: the vsb stays valid
  -- and its overflow flag tells whether the result is -1; with 0 all of `t` has been appended; with -1
  -- a proper prefix of `t` has been appended, the vsb is full, and it has a fixed length or malloc
  -- has failed; and 0 is the result whenever `t` fits the buffer as it is. A buffer that grows is at most
  -- 4096 bytes larger than all of the text needs with its NUL.
  pub bcat_lem :
      (s : Vsb) (t : List ℕ)
      → IsValid s
      → s.finished ≡ false
      → s.overflowed ≡ false
      → s.size + length t ≤ 2 ^ 31 - 4096
      → (done : Bool) × (u : Vsb) × (bcat malloc s t ≡ ok (done, u)) × Outcome s t done u
  unfolding bcat
  bcat_lem s t v fin ovf h =
      let (r, run, a) = append_lem t s v (inr h) in
      (
        (flag malloc r).0,
        (flag malloc r).1,
        guarded (ltb s.len s.size) (not s.finished) s.overflowed (ok (false, s)) _
              (lt→ltb _ _ v.room) (ap not fin) ovf
            ∙ ap (λ m. m >>= λ q. ok (flag malloc q)) run,
        flag-Outcome s t r ovf a,
      )
