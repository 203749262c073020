-- ===== src/Ws/Dup.antt =====
-- WS_Dup of cache_ws.c.
use varnish.Prelude.{
  ℕ, suc, ◌+◌, ◌%◌, ◌^◌, ◌≤◌, ◌<◌, ◌≡◌, ◌⊎◌, inl, inr, refl, List, [], ◌∷◌, ◌++◌, arith, ◌==◌,
  if◌then◌else◌, length, take, length-append, ap, ◌∙◌,
}
use varnish.Prelude.Checked.{ok}
use varnish.Ws.{Ws, Memory, copy_to, alloc, dup}
use varnish.Ws.Inv.{IsValid, alloc_lem}

-- The bytes from `p` on are `t`.
abbrev pub Holds : Memory → ℕ → List ℕ → Type 0
Holds m p [] = Unit
Holds m p (b ∷ bs) = (m p ≡ b) × Holds m (p + 1) bs

copy_to_outside :
    (t : List ℕ) (m : Memory) (p a : ℕ) → (a < p) ⊎ (p + length t ≤ a) → copy_to m p t a ≡ m a
unfolding copy_to
copy_to_outside [] m p a h = refl
copy_to_outside (b ∷ bs) m p a h =
    copy_to_outside bs (λ a. if a == p then b else m a) (p + 1) a (ground arith) ∙ (ground arith)

copy_to-Holds : (t : List ℕ) (m : Memory) (p : ℕ) → Holds (copy_to m p t) p t
unfolding copy_to
copy_to-Holds [] m p = tt
copy_to-Holds (b ∷ bs) m p = (
  copy_to_outside bs (λ a. if a == p then b else m a) (p + 1) p (inl (omega arith))
      ∙ (ground arith),
  copy_to-Holds bs (λ a. if a == p then b else m a) (p + 1),
)

take-terminated : (t : List ℕ) → take (length t + 1) (t ++ 0 ∷ []) ≡ t ++ 0 ∷ []
take-terminated [] = refl
take-terminated (b ∷ bs) =
    let e : suc (length bs) + 1 ≡ suc (length bs + 1) = omega arith in
    rw e (ap (λ ys. b ∷ ys) (take-terminated bs))

dup_run :
    (w w' : Ws) (m : Memory) (t : List ℕ) (p : ℕ)
    → length t + 1 < 2 ^ 32
    → alloc w (length t + 1) ≡ ok (p, w')
    → dup w m t ≡ ok (p, w', if p == 0 then m else copy_to m p (t ++ 0 ∷ []))
unfolding dup
dup_run w w' m t p b e =
    let small : (length t + 1) % 2 ^ 32 ≡ length t + 1 = omega arith in
    rw (small, e, take-terminated)

-- WS_Dup of a text of fewer than 2 ^ 32 - 1 bytes, on a valid workspace with no reservation. If the
-- text and its NUL do not fit, the result is NULL and memory is as it was. Otherwise the result is
-- the old free pointer, the text and its NUL stand there, and no byte outside of the new block has
-- changed.
pub dup_lem :
    (w : Ws) (m : Memory) (t : List ℕ)
    → IsValid w
    → w.r ≡ 0
    → length t + 1 < 2 ^ 32
    → ((w.e < w.f + (length t + 1))
        × (dup w m t ≡ ok (0, record w { overflow = w.overflow + 1 }, m)))
      ⊎ ((w.f + (length t + 1) ≤ w.e)
          × ((m' : Memory) × (dup w m t ≡ ok (w.f, record w { f = w.f + (length t + 1) }, m'))
              × Holds m' w.f (t ++ 0 ∷ [])
              × ((a : ℕ) → (a < w.f) ⊎ (w.f + (length t + 1) ≤ a) → m' a ≡ m a)))
dup_lem w m t v h b = elim (alloc_lem w (length t + 1) v h b) [
  | inl (full, e) ↦ inl (full, dup_run w _ m t 0 b e)
  | inr (fits, e) ↦ inr (
    fits,
    (
      copy_to m w.f (t ++ 0 ∷ []),
      dup_run w _ m t w.f b e ∙ (ground arith),
      copy_to-Holds (t ++ 0 ∷ []) m w.f,
      λ a o. copy_to_outside (t ++ 0 ∷ []) m w.f a (ground (arith, length-append t (0 ∷ []))),
    ),
  )
]
