-- ===== src/Health/Verdict.antt =====
-- The verdict on a backend: it is healthy when the window of the last pokes has enough happy ones.
use varnish.Prelude.{◌%◌, ◌≡◌, Bool, true, false, List, [], ◌∷◌, ◌++◌, leb, ◌==◌, take, replicate}
use varnish.Health.{Target}
use varnish.Health.Bitmap.{bitmap, count}
use varnish.Health.Poke.{Talk, poke}
use varnish.Health.Window.{start_poke, set_defaults, pretend, round}

-- The target knows of the pokes `h`: the bitmap has the last 64 of them, and the verdict is by those in
-- the window.
pub record Recorded (h : List Bool) (t : Target) : Type 0 where
  pub happy : t.happy ≡ bitmap 64 h
  pub good : t.good ≡ count (take t.window (take 64 h))
  pub healthy : t.healthy ≡ leb t.threshold t.good

-- whether the backend's answer to the poke that comes next is liked
abbrev pub outcome : Talk → Target → Bool
outcome c t = (poke c (start_poke t)).happy % 2 == 1

-- the pokes of the rounds `cs`, before those of `h`
abbrev pub history : List Talk → Target → List Bool → List Bool
history [] t h = h
history (c ∷ cs) t h = history cs (round c t) (outcome c t ∷ h)

-- The settings of the probe stay.
pub record Same (vt t : Target) : Type 0 where
  pub window : t.window ≡ vt.window
  pub threshold : t.threshold ≡ vt.threshold

-- A target as VBP_Start makes it: no poke is recorded, and the backend is sick.
pub record IsNew (vt : Target) : Type 0 where
  pub happy : vt.happy ≡ 0
  pub good : vt.good ≡ 0
  pub sick : vt.healthy ≡ false

-- the pokes of a target that has been polled for the rounds `cs`, the newest first: whether each was
-- happy, and before them those that the target started with
abbrev pub pokes : List Talk → Target → List Bool
pokes cs vt =
    let vt1 = set_defaults vt in
    history cs (pretend vt1.initial vt1) (replicate vt1.initial true ++ [])
