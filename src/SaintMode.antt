-- ===== src/SaintMode.antt =====
-- Saint mode in bin/varnishd/cache_backend.c and cache_vrt.c: is a backend healthy for an object?
-- Times are numbers, of which the code uses the order only. Targets are the addresses of object
-- heads.
pub mod Verdict
pub mod Sorted
mod Tests
use varnish.Prelude.Checked.{Checked, ok, assert, ◌>>◌}
use varnish.Prelude.{
  ℕ, zero, suc, ◌+◌, ◌-◌, ◌^◌, Bool, true, false, List, [], ◌∷◌, ltb, leb, ◌==◌, if◌then◌else◌,
}

-- `struct trouble`
pub record Trouble : Type 0 where
  pub target : ℕ
  pub timeout : ℕ

-- of `struct backend`, what saint mode reads
pub record Backend : Type 0 where
  pub healthy : Bool
  pub saintmode_threshold : ℕ
  pub troublelist : List Trouble

-- The loop over the list of troubles, `i` of which have been passed: the value returned, and the
-- list left.
unfoldable pub scan : ℕ → ℕ → ℕ → ℕ → List Trouble → Bool × List Trouble
scan now target threshold i [] = (true, [])
scan now target threshold i (tr ∷ rest) =
    let r = scan now target threshold (i + 1) rest in
    if ltb tr.timeout now
    then (true, rest)
    else if tr.target == target
    then (false, tr ∷ rest)
    else if leb threshold (i + 1)
    then (false, tr ∷ rest)
    else (r.0, tr ∷ r.1)

-- vbe_Healthy; `param` is the parameter saintmode_threshold, which holds where VCL has set none,
-- UINT_MAX.
unfoldable pub vbe_healthy : ℕ → ℕ → ℕ → Backend → Bool × Backend
unfolding scan
vbe_healthy param now target backend =
    let threshold =
      if backend.saintmode_threshold == 2 ^ 32 - 1 then param else backend.saintmode_threshold in
    let r = scan now target threshold 0 backend.troublelist in
    elim backend.healthy [
      | false ↦ (false, backend)
      | true ↦
          if threshold == 0
          then (true, backend)
          else if target == 0
          then (true, backend)
          else (r.0, record backend { troublelist = r.1 })
    ]

-- The loop of VRT_l_beresp_saintmode, and what is behind it.
unfoldable pub insert_trouble : Trouble → List Trouble → List Trouble
insert_trouble new [] = new ∷ []
insert_trouble new (tr ∷ rest) =
    if ltb tr.timeout new.timeout then new ∷ tr ∷ rest else tr ∷ insert_trouble new rest

-- VRT_l_beresp_saintmode for a session with a backend: `t_req` is the time of the request,
-- `objhead` the address of its object head, 0 where it has none.
unfoldable pub beresp_saintmode : ℕ → ℕ → ℕ → Backend → Checked Backend
unfolding insert_trouble
beresp_saintmode t_req objhead a backend = if objhead == 0 then ok backend else (do
  assert (ltb 0 a)
  let new : Trouble = record { target = objhead; timeout = t_req + a }
  ok (record backend { troublelist = insert_trouble new backend.troublelist }))
