-- ===== src/Adaptive/Bounds.antt =====
-- The ranges of the controller's fields, and how far one report can move the parity.
use smart_fec_tunnel.Base.{ℕ, ◌+◌, ◌≤◌, ◌<◌, ◌≡◌, ◌⊎◌, true, false, arith}
use smart_fec_tunnel.Adaptive.{
  Adaptive, u32_max, max_parity, default, target, idle, observe, high_loss, settle, adjust, report,
}

-- Every counter lies below its trigger, but for that of the bypass, which reaches 3 exactly while the
-- controller is bypassed; and a controller that has bypassed sends no parity.
pub record IsValid (a : Adaptive) : Type 0 where
  pub parity_bound : a.parity ≤ max_parity
  pub bad_bound : a.bad < 2
  pub good_bound : a.good < 15
  pub idle_bound : a.unavailable_reports < 15
  pub streak_bound : a.bypass_streak ≤ 255
  pub streak_active : a.bypassed ≡ false → a.bypass_streak < 3
  pub streak_bypassed : a.bypassed ≡ true → 3 ≤ a.bypass_streak
  pub last_bound : a.last_loss_ppm ≤ u32_max
  pub smoothed_bound : a.smoothed_loss_ppm ≤ u32_max
  pub silent : a.bypassed ≡ true → a.parity ≡ 0

pub default-IsValid : IsValid default
default-IsValid = ground arith

pub target-le : (loss : ℕ) → target loss ≤ max_parity
unfolding target
target-le loss = ground arith

pub idle-IsValid : (a : Adaptive) → IsValid a → IsValid (idle a)
unfolding idle
idle-IsValid a v = ground arith

high_loss-IsValid :
    (a : Adaptive) (loss : ℕ) → loss ≤ u32_max → IsValid a → IsValid (high_loss (observe a loss))
unfolding high_loss observe
high_loss-IsValid a loss h v = ground arith

adjust-IsValid :
    (a : Adaptive) (t : ℕ) → t ≤ max_parity → a.bypassed ≡ false → IsValid a → IsValid (adjust a t)
unfolding adjust
adjust-IsValid a t h b v = ground arith

observe-IsValid : (a : Adaptive) (loss : ℕ) → loss ≤ u32_max → IsValid a → IsValid (observe a loss)
unfolding observe
observe-IsValid a loss h v = ground arith

settle-IsValid : (a : Adaptive) → IsValid a → IsValid (settle a)
unfolding settle
settle-IsValid a v = ground (
  arith,
  target-le a.smoothed_loss_ppm,
  adjust-IsValid (record a { bypass_streak = 0 }) (target a.smoothed_loss_ppm),
)

-- Every report of a `u32` keeps the controller within its ranges: parity at most 4; the counter of
-- reports that ask for more below 2, and those of reports that ask for less and of reports without
-- a sample below 15; the counter of high losses at 3 or more, and at most 255, exactly while the
-- controller is bypassed; both losses a `u32`; and no parity while it is bypassed.
pub report-IsValid :
    (a : Adaptive) (loss : ℕ) → loss ≤ u32_max → IsValid a → IsValid (report a loss)
unfolding report
report-IsValid a loss h v = ground (
  arith,
  idle-IsValid a v,
  high_loss-IsValid a loss h v,
  settle-IsValid (observe a loss),
  observe-IsValid a loss h v,
)

-- One report of a controller that is not bypassed raises the parity by one at most, and lowers it
-- by one at most unless that report switches the bypass on.
pub report_smooth :
    (a : Adaptive) (loss : ℕ)
    → a.bypassed ≡ false
    → ((report a loss).parity ≤ a.parity + 1)
      × ((a.parity ≤ (report a loss).parity + 1) ⊎ ((report a loss).bypassed ≡ true))
unfolding report idle high_loss settle adjust observe
report_smooth a loss b = ground arith
