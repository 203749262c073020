-- ===== src/Vary/Scan.antt =====
-- How VRY_Create finds the names in a Vary header.
use varnish.Prelude.{ℕ, ◌≡◌, refl, true, false, [], ◌∷◌, ◌++◌, arith}
use varnish.Ctype.{is_space}
use varnish.Http.{Text}
use varnish.Vary.{skip_space, span_name}
use varnish.Vary.Spec.{AllSpace, AllName, ends_name}

pub skip_space-append : (sp : Text) (x : Text) → AllSpace sp → skip_space (sp ++ x) ≡ skip_space x
unfolding skip_space
skip_space-append [] x h = refl
skip_space-append (c ∷ sp) x h = rw (h.0) (skip_space-append sp x h.1)

pub skip_space-comma : (x : Text) → skip_space (b',' ∷ x) ≡ b',' ∷ x
unfolding skip_space is_space
skip_space-comma x = refl

-- The first byte does not belong to a name.
abbrev pub Ends : Text → Type 0
Ends [] = Unit
Ends (c ∷ t) = ends_name c ≡ true

pub span_name-append : (n q : Text) → AllName n → Ends q → span_name (n ++ q) ≡ (n, q)
unfolding span_name
span_name-append [] [] h e = refl
span_name-append [] (c ∷ q) h e = rw e
span_name-append (c ∷ n) q h e = rw (h.0, span_name-append n q h.2 e)

pub AllName-not-space : (c : ℕ) → ends_name c ≡ false → is_space c ≡ false
AllName-not-space c h = ground arith

pub space-Ends : (tr x : Text) → AllSpace tr → Ends x → Ends (tr ++ x)
space-Ends [] x h e = e
space-Ends (c ∷ tr) x h e = rw h.0

pub Ends-space : (tr : Text) → AllSpace tr → Ends tr
Ends-space [] h = tt
Ends-space (c ∷ tr) h = rw h.0

pub comma-ends : ends_name b',' ≡ true
unfolding is_space
comma-ends = refl

pub skip_space-all : (sp : Text) → AllSpace sp → skip_space sp ≡ []
unfolding skip_space
skip_space-all [] h = refl
skip_space-all (c ∷ sp) h = rw h.0 (skip_space-all sp h.1)
