-- ===== src/Ws.antt =====
-- The workspace of bin/varnishd/cache_ws.c: one block of memory that is handed out front to back.
-- A `char *` is an address, a number below 2 ^ 64, and 0 is NULL; `unsigned` is 32 bits wide.
pub mod Inv
pub mod Trace
pub mod Dup
mod Tests
use varnish.Prelude.{
  ℕ, zero, suc, ◌+◌, ◌-◌, ◌%◌, ◌^◌, ◌≤◌, ◌<◌, ◌≡◌, Bool, true, Option, none, some, List, [], ◌∷◌,
  ltb, leb, ◌==◌, if◌then◌else◌, not, length, take, ◌++◌, ◌&&◌, ◌||◌,
}
use varnish.Prelude.Checked.{Checked, ok, panic, assert, ◌>>=◌, ◌>>◌}

-- `struct ws`; `magic` and `id` only serve the debug log. `overflow` counts the refusals; in C it is
-- an `int`, too small for 2^31 of them.
pub record Ws : Type 0 where
  pub s : ℕ
  pub f : ℕ
  pub r : ℕ
  pub e : ℕ
  pub overflow : ℕ

-- p + n on pointers
abbrev pub add_ptr : ℕ → ℕ → ℕ
add_ptr p n = (p + n) % 2 ^ 64

-- p - q on pointers, as an `unsigned` takes it
abbrev pub pdiff : ℕ → ℕ → ℕ
pdiff q p = (p + 2 ^ 64 - q) % 2 ^ 64 % 2 ^ 32

-- the condition of WS_Assert
unfoldable pub is_sane : Ws → Bool
is_sane w =
    not (w.s == 0)
    && (not (w.e == 0)
        && (ltb w.s w.e
            && (leb w.s w.f && (leb w.f w.e && (w.r == 0 || (ltb w.s w.r && leb w.r w.e))))))

-- WS_Assert
unfoldable pub check : Ws → Checked (Unit {0})
unfolding is_sane
check w = assert (is_sane w)

unfoldable pub init : ℕ → ℕ → Checked Ws
unfolding check
init space len = do
  assert (not (space == 0))
  let w : Ws = record { s = space; f = space; r = 0; e = add_ptr space len; overflow = 0 }
  check w
  ok w

unfoldable pub reset : Ws → ℕ → Checked Ws
unfolding check
reset w p = do
  check w
  assert (w.r == 0)
  if p == 0
      then ok (record w { f = w.s })
      else (do assert (leb w.s p); assert (ltb p w.e); ok (record w { f = p }))

-- The result is NULL when the workspace is too full.
unfoldable pub alloc : Ws → ℕ → Checked (ℕ × Ws)
unfolding check
alloc w bytes = do
  check w
  assert (w.r == 0)
  if ltb w.e (add_ptr w.f bytes)
      then ok (0, record w { overflow = w.overflow + 1 })
      else ok (w.f, record w { f = add_ptr w.f bytes })

-- The process's memory, a byte at each address.
abbrev pub Memory : Type 0
Memory = ℕ → ℕ

-- memcpy(p, bytes, length bytes)
unfoldable pub copy_to : Memory → ℕ → List ℕ → Memory
copy_to m p [] = m
copy_to m p (b ∷ bs) = copy_to (λ a. if a == p then b else m a) (p + 1) bs

-- The text `t` is the bytes before its terminating NUL, which WS_Dup copies too.
unfoldable pub dup : Ws → Memory → List ℕ → Checked (ℕ × Ws × Memory)
dup w m t = do
  let l = (length t + 1) % 2 ^ 32
  (p, w') ← alloc w l
  ok (p, w', if p == 0 then m else copy_to m p (take l (t ++ 0 ∷ [])))

unfoldable pub free : Ws → Checked ℕ
unfolding check
free w = do check w; ok (pdiff w.f w.e)

unfoldable pub snapshot : Ws → Checked ℕ
unfolding check
snapshot w = do check w; assert (w.r == 0); ok w.f

-- A request of 0 bytes reserves all that is left.
unfoldable pub reserve : Ws → ℕ → Checked (ℕ × Ws)
unfolding check
reserve w bytes = do
  check w
  assert (w.r == 0)
  let b2 = if bytes == 0 then pdiff w.f w.e else bytes
  assert (not (bytes == 0) || leb w.f w.e)
  assert (leb (add_ptr w.f b2) w.e)
  let r = add_ptr w.f b2
  ok (pdiff w.f r, record w { r = r })

unfoldable pub release : Ws → ℕ → Checked Ws
unfolding check
release w bytes = do
  check w
  assert (leb bytes (w.e - w.f))
  assert (not (w.r == 0))
  assert (leb (add_ptr w.f bytes) w.r)
  ok (record w { f = add_ptr w.f bytes; r = 0 })

unfoldable pub release_p : Ws → ℕ → Checked Ws
unfolding check
release_p w p = do
  check w
  assert (not (w.r == 0))
  assert (leb w.f p)
  assert (leb p w.r)
  ok (record w { f = p; r = 0 })
