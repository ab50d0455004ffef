-- ===== src/Adaptive.antt =====
-- src/main.rs, `struct Adaptive`: the controller that chooses how many repair shards the
-- encoder adds to a group, from the loss reports of the peer. The fields are those of the
-- struct, each a number in the range of its machine type; `saturating_add` on a `u8` stops at
-- 255, `saturating_sub` at 0, and `smoothed_loss_ppm as u64 * 3 + loss as u64` cannot overflow.
pub mod Bounds
pub mod Bypass
pub mod Idle
pub mod Steady
mod Tests
use smart_fec_tunnel.Base.{
  ℕ, suc, ◌+◌, ◌-◌, ◌*◌, ◌/◌, ◌^◌, min, Bool, true, false, ltb, leb, ◌==◌, if◌then◌else◌,
}

-- u32::MAX
abbrev pub u32_max : ℕ
u32_max = 4294967295

abbrev pub max_parity : ℕ
max_parity = 4

abbrev pub fec_bypass_loss_ppm : ℕ
fec_bypass_loss_ppm = 300000

-- The reserved loss value of a report without a sample.
abbrev pub loss_sample_unavailable : ℕ
loss_sample_unavailable = u32_max

-- u8::saturating_add(1)
abbrev pub saturating_inc_u8 : ℕ → ℕ
saturating_inc_u8 n = min 255 (n + 1)

pub record Adaptive : Type 0 where
  pub parity : ℕ
  pub bad : ℕ
  pub good : ℕ
  pub last_loss_ppm : ℕ
  pub smoothed_loss_ppm : ℕ
  pub unavailable_reports : ℕ
  pub bypass_streak : ℕ
  pub bypassed : Bool

-- Adaptive::default()
abbrev pub default : Adaptive
default = record {
  parity = 0;
  bad = 0;
  good = 0;
  last_loss_ppm = 0;
  smoothed_loss_ppm = 0;
  unavailable_reports = 0;
  bypass_streak = 0;
  bypassed = false;
}

-- Adaptive::target
unfoldable pub target : ℕ → ℕ
target loss =
    if ltb loss 10000
    then 0
    else if ltb loss 50000
    then 1
    else if ltb loss 100000
    then 2
    else if ltb loss 200000
    then 3
    else 4

-- Fifteen reports without a sample: one level is retired.
unfoldable pub retire : Adaptive → Adaptive
retire a =
    let p : ℕ = a.parity - 1 in
    if p == 0
    then record a { parity = p; unavailable_reports = 0; smoothed_loss_ppm = 0; last_loss_ppm = 0 }
    else record a { parity = p; unavailable_reports = 0 }

-- The branch of `report` for a report without a sample.
unfoldable pub idle : Adaptive → Adaptive
unfolding retire
idle a =
    let n : ℕ = saturating_inc_u8 a.unavailable_reports in
    if leb 15 n
    then retire (record a { unavailable_reports = n })
    else record a { unavailable_reports = n }

-- The first lines of the branch with a sample.
unfoldable pub observe : Adaptive → ℕ → Adaptive
observe a loss = record a {
  unavailable_reports = 0;
  last_loss_ppm = loss;
  smoothed_loss_ppm = (a.smoothed_loss_ppm * 3 + loss) / 4;
}

-- The branch `loss >= FEC_BYPASS_LOSS_PPM`.
unfoldable pub high_loss : Adaptive → Adaptive
high_loss a =
    let n : ℕ = saturating_inc_u8 a.bypass_streak in
    if leb 3 n
    then record a {
      bypass_streak = n;
      parity = 0;
      bad = 0;
      good = 0;
      unavailable_reports = 0;
      bypassed = true;
    }
    else record a { bypass_streak = n; good = 0 }

-- The last `if`: one step towards the target.
unfoldable pub adjust : Adaptive → ℕ → Adaptive
adjust a t =
    if ltb a.parity t
    then (if leb 2 (a.bad + 1)
        then record a { good = 0; parity = min (a.parity + 1) max_parity; bad = 0 }
        else record a { good = 0; bad = a.bad + 1 })
    else if ltb t a.parity
    then (if leb 15 (a.good + 1)
        then record a { bad = a.bad - 1; parity = a.parity - 1; good = 0 }
        else record a { bad = a.bad - 1; good = a.good + 1 })
    else record a { bad = a.bad - 1; good = 0 }

-- What follows the bypass test.
unfoldable pub settle : Adaptive → Adaptive
unfolding adjust target
settle a =
    let b : Adaptive = record a { bypass_streak = 0 } in
    if b.bypassed
    then record b {
      parity = min (target b.smoothed_loss_ppm) max_parity;
      bad = 0;
      good = 0;
      bypassed = false;
    }
    else adjust b (target b.smoothed_loss_ppm)

-- Adaptive::report
unfoldable pub report : Adaptive → ℕ → Adaptive
unfolding idle observe high_loss settle
report a loss =
    if loss == loss_sample_unavailable
    then idle a
    else (if leb fec_bypass_loss_ppm loss
        then high_loss (observe a loss)
        else settle (observe a loss))
