-- ===== src/Argv/Quote.antt =====
-- vsb_quote of lib/libvarnish/vsb.c: the text that it appends to a vsb with room for it.
use varnish.Prelude.{
  ℕ, suc, ◌+◌, ◌-◌, ◌*◌, ◌/◌, ◌%◌, ◌≡◌, ◌<◌, ◌≤◌, ◌⊎◌, inl, inr, refl, Bool, true, false, not, ltb,
  leb, ◌==◌, ==_iff, ◌&&◌, ◌||◌, if◌then◌else◌, [], ◌∷◌, ◌++◌, length, arith, Bool-cases,
}
use varnish.Prelude.Checked.{ok}
use varnish.Ctype.{is_graph}
use varnish.Http.{Text}
use varnish.Argv.{backslash, octal, is_octal}

-- printf("%o") of a byte
unfoldable pub print_octal : ℕ → Text
print_octal c =
    if ltb c 8
    then (b'0' + c) ∷ []
    else if ltb c 64
    then (b'0' + c / 8) ∷ (b'0' + c % 8) ∷ []
    else (b'0' + c / 64) ∷ (b'0' + c / 8 % 8) ∷ (b'0' + c % 8) ∷ []

-- The switch of vsb_quote
unfoldable pub escape : ℕ → Text
unfolding print_octal
escape c =
    if c == 32
    then c ∷ []
    else if c == 92 || c == 34
    then 92 ∷ c ∷ []
    else if c == 10
    then 92 ∷ b'n' ∷ []
    else if c == 13
    then 92 ∷ b'r' ∷ []
    else if c == 9
    then 92 ∷ b't' ∷ []
    else if is_graph c
    then c ∷ []
    else 92 ∷ print_octal c

unfoldable pub escape_all : Text → Text
unfolding escape
escape_all [] = []
escape_all (c ∷ p) = escape c ++ escape_all p

unfoldable pub needs_quote : Text → Bool
needs_quote [] = false
needs_quote (c ∷ p) = not (is_graph c) || (c == 34 || needs_quote p)

unfoldable pub quote : Text → Text
unfolding needs_quote escape_all
quote p = if needs_quote p then 34 ∷ escape_all p ++ (34 ∷ []) else p

-- A byte that vsb_quote writes so that no byte after it can change its meaning: white space that has
-- a name, and every byte that prints as itself or as three octal digits.
abbrev pub is_clear : ℕ → Bool
is_clear c = (leb 32 c && ltb c 256) || (c == 9 || (c == 10 || c == 13))

-- How a byte is written: as it is, or as a sequence that BackSlash reads.
abbrev pub Escapes : ℕ → Text → Type 0
Escapes c e =
    ((e ≡ c ∷ []) × ((c == 92) ≡ false) × ((c == 34) ≡ false))
    ⊎ ((f : Text) × (e ≡ 92 ∷ f)
        × ((t : Text) → backslash (f ++ t) ≡ ok (suc (length f), c))
        × (length f ≤ 3))

-- Three octal digits stand for their byte, whatever follows.
three_digits :
    (c : ℕ) (t : Text)
    → 64 ≤ c
    → c < 256
    → backslash ((b'0' + c / 64) ∷ (b'0' + c / 8 % 8) ∷ (b'0' + c % 8) ∷ t) ≡ ok (4, c)
unfolding backslash octal
three_digits c t lo hi =
    let e : ((((0 + (b'0' + c / 64 - b'0')) % 256) * 8 + (b'0' + c / 8 % 8 - b'0')) % 256 * 8
            + (b'0' + c % 8 - b'0'))
          % 256
        ≡ c =
      omega arith in
    let ob : is_octal (b'0' + c / 8 % 8) ≡ true = ground arith in
    let od : is_octal (b'0' + c % 8) ≡ true = ground arith in
    let n1 : (b'0' + c / 64 == b'n') ≡ false = ground arith in
    let n2 : (b'0' + c / 64 == b'r') ≡ false = ground arith in
    let n3 : (b'0' + c / 64 == b't') ≡ false = ground arith in
    let n4 : (b'0' + c / 64 == 34) ≡ false = ground arith in
    let n5 : (b'0' + c / 64 == 92) ≡ false = ground arith in
    let n6 : is_octal (b'0' + c / 64) ≡ true = ground arith in
    rw (n1, n2, n3, n4, n5, n6, ob, od, e) refl

pub escape-Escapes : (c : ℕ) → is_clear c ≡ true → Escapes c (escape c)
unfolding escape is_graph backslash print_octal
escape-Escapes c h = elim (Bool-cases (c == 32)) [
  | inl e ↦ rw e (inl (refl, ground (arith, e), ground (arith, e)))
  | inr n1 ↦ elim (Bool-cases (c == 92)) [
    | inl e ↦
        let q : c ≡ 92 = (==_iff c 92).0 e in rw (q) (inr (92 ∷ [], refl, λ t. refl, omega arith))
    | inr n2 ↦ elim (Bool-cases (c == 34)) [
      | inl e ↦
          let q : c ≡ 34 = (==_iff c 34).0 e in rw (q) (inr (34 ∷ [], refl, λ t. refl, omega arith))
      | inr n3 ↦ elim (Bool-cases (c == 10)) [
        | inl e ↦
            let q : c ≡ 10 = (==_iff c 10).0 e in
            rw (q) (inr (b'n' ∷ [], refl, λ t. refl, omega arith))
        | inr n4 ↦ elim (Bool-cases (c == 13)) [
          | inl e ↦
              let q : c ≡ 13 = (==_iff c 13).0 e in
              rw (q) (inr (b'r' ∷ [], refl, λ t. refl, omega arith))
          | inr n5 ↦ elim (Bool-cases (c == 9)) [
            | inl e ↦
                let q : c ≡ 9 = (==_iff c 9).0 e in
                rw (q) (inr (b't' ∷ [], refl, λ t. refl, omega arith))
            | inr n6 ↦ elim (Bool-cases (is_graph c)) [
              | inl g ↦ rw (n1, n2, n3, n4, n5, n6, g) (inl (refl, refl, refl))
              | inr g ↦
                  let lo : ltb c 8 ≡ false = ground (arith, g, n1, n2, n3, n4, n5, n6, h) in
                  let mid : ltb c 64 ≡ false = ground (arith, g, n1, n2, n3, n4, n5, n6, h) in
                  let hi : c < 256 = ground (arith, n1, n2, n3, n4, n5, n6, h) in
                  rw (n1, n2, n3, n4, n5, n6, g, lo, mid)
                    (inr (_, refl, λ t. three_digits c t (ground (arith, mid)) hi, omega arith))
            ]
          ]
        ]
      ]
    ]
  ]
]
