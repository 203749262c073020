-- ===== src/Health.antt =====
-- The polling of a backend's health, bin/varnishd/cache_backend_poll.c. The times of a poke, and with
-- them the average that is logged, are left out; what the network answers to a poke is a value `Talk`.
pub mod Scan
pub mod Poke
pub mod Window
pub mod Layers
pub mod Reply
pub mod Bitmap
pub mod Verdict
mod Tests
use varnish.Prelude.{
  ℕ, zero, suc, ◌+◌, ◌-◌, ◌*◌, ◌/◌, ◌%◌, ◌^◌, Bool, true, false, List, [], leb, ltb, ◌==◌,
  if◌then◌else◌,
}

-- `struct vbp_target` with the probe and the `healthy` of the backend; the seven bitmaps are those of
-- cache_backend_poll.h.
pub record Target : Type 0 where
  pub window : ℕ
  pub threshold : ℕ
  pub initial : ℕ
  pub exp_status : ℕ
  pub req_len : ℕ
  pub resp_buf : List ℕ
  pub good : ℕ
  pub good_ipv4 : ℕ
  pub good_ipv6 : ℕ
  pub err_xmit : ℕ
  pub good_xmit : ℕ
  pub err_recv : ℕ
  pub good_recv : ℕ
  pub happy : ℕ
  pub healthy : Bool

-- u <<= 1 and u |= 1 on a uint64_t
unfoldable pub shift : ℕ → ℕ
shift u = (u * 2) % 2 ^ 64

unfoldable pub set_newest : ℕ → ℕ
set_newest u = if u % 2 == 1 then u else u + 1
