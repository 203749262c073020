-- ===== src/SaintMode/Verdict.antt =====
-- What vbe_Healthy of bin/varnishd/cache_backend.c makes of the list of troubles.
use varnish.Prelude.{
  ℕ, ◌+◌, ◌≡◌, refl, Bool, false, not, List, [], ◌∷◌, length, ltb, ◌==◌, ◌&&◌, ◌||◌, if◌then◌else◌,
  arith,
}
use varnish.SaintMode.{Trouble, scan}

-- the troubles before the first that has timed out, and the list without that one
abbrev pub live : ℕ → List Trouble → List Trouble
live now [] = []
live now (tr ∷ rest) = if ltb tr.timeout now then [] else tr ∷ live now rest

abbrev pub expire_first : ℕ → List Trouble → List Trouble
expire_first now [] = []
expire_first now (tr ∷ rest) = if ltb tr.timeout now then rest else tr ∷ expire_first now rest

abbrev pub troubled : ℕ → List Trouble → Bool
troubled target [] = false
troubled target (tr ∷ rest) = tr.target == target || troubled target rest

-- the verdict: no live trouble with the target, and fewer live troubles than the threshold
abbrev pub is_fine : ℕ → ℕ → ℕ → ℕ → List Trouble → Bool
is_fine now target threshold i trs =
    not (troubled target (live now trs))
    && (length (live now trs) == 0 || ltb (i + length (live now trs)) threshold)

pub scan_lem :
    (now target threshold i : ℕ) (trs : List Trouble)
    → scan now target threshold i trs ≡ (
      is_fine now target threshold i trs,
      if is_fine now target threshold i trs then expire_first now trs else trs,
    )
unfolding scan
scan_lem now target threshold i [] = refl
scan_lem now target threshold i (tr ∷ rest) =
    let ih = scan_lem now target threshold (i + 1) rest in ground (arith, ih)
