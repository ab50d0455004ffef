-- ===== src/Adaptive/Tests.antt =====
-- The controller's unit tests of src/main.rs, run, and the theorems at concrete inputs.
use smart_fec_tunnel.Base.{◌≤◌, ◌≡◌, refl, true, arith}
use smart_fec_tunnel.Adaptive.{Adaptive, default, target, report}
use smart_fec_tunnel.Adaptive.Bounds.{IsValid, report-IsValid}
use smart_fec_tunnel.Adaptive.Bypass.{IsHigh}
use smart_fec_tunnel.Adaptive.Idle.{repeat_report}
use smart_fec_tunnel.Adaptive.Steady.{IsSteady, distance, steady_reaches}

-- adaptive_has_hysteresis: two samples of 8 % raise the parity to one.
hysteresis :
    ((report default 80000).parity ≡ 0) × ((report (report default 80000) 80000).parity ≡ 1)
unfolding report
hysteresis = (refl, refl)

abbrev busy : Adaptive
busy = record default { parity = 3; smoothed_loss_ppm = 120000; last_loss_ppm = 120000 }

abbrev rested : Adaptive
rested = record default { smoothed_loss_ppm = 120000 }

abbrev bypassed_state : Adaptive
bypassed_state = record default { smoothed_loss_ppm = 400000; bypass_streak = 3; bypassed = true }

busy-IsValid : IsValid busy
busy-IsValid = ground arith

high : IsHigh 350000
high = omega arith

report-IsValid_example : IsValid (report busy 80000)
report-IsValid_example = report-IsValid busy 80000 (omega arith) busy-IsValid

rested-IsSteady : IsSteady 120000 rested
rested-IsSteady = ground arith

rested-IsValid : IsValid rested
rested-IsValid = ground arith

steady_reaches_example :
    ((repeat_report 8 rested 120000).parity ≡ target 120000)
    × (distance (target 120000) rested ≤ 60)
unfolding target
steady_reaches_example =
    steady_reaches 8 120000 rested (omega arith) rested-IsValid rested-IsSteady (omega arith)
