-- ===== src/Adaptive/Idle.antt =====
-- Reports without a sample: keepalives that must neither raise the parity nor disturb the count
-- of lossy samples, and that retire a stale level after fifteen in a row.
use smart_fec_tunnel.Base.{ℕ, zero, suc, ◌+◌, ◌-◌, ◌≤◌, ◌<◌, ◌≡◌, refl, ◌==◌, if◌then◌else◌, arith}
use smart_fec_tunnel.Adaptive.{Adaptive, loss_sample_unavailable, idle, report}

-- `n` reports in a row, each with the same loss.
unfoldable pub repeat_report : ℕ → Adaptive → ℕ → Adaptive
repeat_report zero a loss = a
repeat_report (suc n) a loss = repeat_report n (report a loss) loss

idle_lem : (a : Adaptive) → report a loss_sample_unavailable ≡ idle a
unfolding report
idle_lem a = ground arith

idle_frame :
    (a : Adaptive)
    → ((idle a).bad ≡ a.bad)
      × ((idle a).good ≡ a.good)
      × ((idle a).bypass_streak ≡ a.bypass_streak)
      × ((idle a).bypassed ≡ a.bypassed)
      × ((idle a).parity ≤ a.parity)
unfolding idle
idle_frame a = ground arith

-- However many reports without a sample come between two real ones, they leave the counts of bad
-- and good samples, the bypass streak and the bypass flag alone, and never raise the parity.
pub idle_keeps_counters :
    (n : ℕ) (a : Adaptive)
    → let b = repeat_report n a loss_sample_unavailable in
      (b.bad ≡ a.bad)
      × (b.good ≡ a.good)
      × (b.bypass_streak ≡ a.bypass_streak)
      × (b.bypassed ≡ a.bypassed)
      × (b.parity ≤ a.parity)
unfolding repeat_report
idle_keeps_counters zero a = ground arith
idle_keeps_counters (suc n) a =
    ground (arith, idle_lem a, idle_keeps_counters n (idle a), idle_frame a)

-- After a real sample, `n` silent reports count up to fourteen and change nothing else.
idle_counts :
    (n : ℕ) (a : Adaptive)
    → a.unavailable_reports + n < 15
    → repeat_report n a loss_sample_unavailable
      ≡ record a { unavailable_reports = a.unavailable_reports + n }
unfolding idle repeat_report
idle_counts zero a h = ground arith
idle_counts (suc n) a h = rw (idle_lem a) (
    ground (
      arith,
      idle_counts n (record a { unavailable_reports = a.unavailable_reports + 1 }) (omega arith),
    ))

repeat_report-suc :
    (n : ℕ) (a : Adaptive) (loss : ℕ)
    → repeat_report (suc n) a loss ≡ report (repeat_report n a loss) loss
unfolding repeat_report
repeat_report-suc zero a loss = refl
repeat_report-suc (suc n) a loss = repeat_report-suc n (report a loss) loss

-- The fifteenth report without a sample since the last real one (or the last retirement) retires
-- exactly one level of parity and starts the count again; if no parity is left, the measured loss
-- is forgotten, and otherwise it stays. The reports before it changed nothing but the count.
pub idle_retires :
    (n : ℕ) (a : Adaptive)
    → a.unavailable_reports + n ≡ 14
    → let b = repeat_report (suc n) a loss_sample_unavailable in
      (b.parity ≡ a.parity - 1)
      × (b.unavailable_reports ≡ 0)
      × (b.smoothed_loss_ppm ≡ (if b.parity == 0 then 0 else a.smoothed_loss_ppm))
      × (b.last_loss_ppm ≡ (if b.parity == 0 then 0 else a.last_loss_ppm))
unfolding idle
idle_retires n a h =
    rw
      (
        repeat_report-suc n a loss_sample_unavailable,
        idle_counts n a (omega arith),
        idle_lem (record a { unavailable_reports = a.unavailable_reports + n }),
      )
      (ground arith)
