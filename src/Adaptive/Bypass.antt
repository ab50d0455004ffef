-- ===== src/Adaptive/Bypass.antt =====
-- The bypass of hopeless paths: when it starts, what a single spike does, and how it ends.
use smart_fec_tunnel.Base.{ℕ, ◌+◌, ◌*◌, ◌/◌, ◌≤◌, ◌<◌, ◌≡◌, true, false, arith}
use smart_fec_tunnel.Adaptive.{
  Adaptive, fec_bypass_loss_ppm, loss_sample_unavailable, target, idle, observe, high_loss, settle,
  report,
}
use smart_fec_tunnel.Adaptive.Bounds.{target-le}

-- A real sample at or above the bypass threshold.
pub record IsHigh (loss : ℕ) : Type 0 where
  pub above : fec_bypass_loss_ppm ≤ loss
  pub real : loss < loss_sample_unavailable

high_lem : (a : Adaptive) (loss : ℕ) → IsHigh loss → report a loss ≡ high_loss (observe a loss)
unfolding report
high_lem a loss h = ground arith

-- A sample at the threshold, from a controller that has counted fewer than two such samples in a
-- row, leaves the parity and the bypass flag as they are, and counts one more.
pub spike_keeps_parity :
    (a : Adaptive) (loss : ℕ)
    → IsHigh loss
    → a.bypass_streak < 2
    → ((report a loss).parity ≡ a.parity)
      × ((report a loss).bypassed ≡ a.bypassed)
      × ((report a loss).bypass_streak ≡ a.bypass_streak + 1)
unfolding high_loss observe
spike_keeps_parity a loss h s = rw (high_lem a loss h) (ground arith)

-- Three such samples in a row switch the bypass on, whatever the controller was: no parity, both
-- counters at zero.
pub three_high_bypass :
    (a : Adaptive) (l m n : ℕ)
    → IsHigh l
    → IsHigh m
    → IsHigh n
    → let b = report (report (report a l) m) n in
      (b.parity ≡ 0) × (b.bypassed ≡ true) × (b.bad ≡ 0) × (b.good ≡ 0)
unfolding high_loss observe
three_high_bypass a l m n hl hm hn =
    rw (high_lem a l hl, high_lem _ m hm, high_lem _ n hn) (ground arith)

-- A bypassed controller sends no parity until a sample below the threshold arrives: any mix of
-- high samples and reports without a sample keeps it bypassed and silent.
pub bypass_holds :
    (a : Adaptive) (loss : ℕ)
    → fec_bypass_loss_ppm ≤ loss
    → a.bypassed ≡ true
    → a.parity ≡ 0
    → ((report a loss).bypassed ≡ true) × ((report a loss).parity ≡ 0)
unfolding report idle high_loss observe
bypass_holds a loss h b p = ground arith

-- The first sample below the threshold after a bypass ends it and puts the parity straight at the
-- level of the smoothed loss, with every counter at zero.
pub recovery_jumps :
    (a : Adaptive) (loss : ℕ)
    → loss < fec_bypass_loss_ppm
    → a.bypassed ≡ true
    → let b = report a loss in
      (b.parity ≡ target ((a.smoothed_loss_ppm * 3 + loss) / 4))
      × (b.bypassed ≡ false)
      × (b.bad ≡ 0)
      × (b.good ≡ 0)
      × (b.bypass_streak ≡ 0)
unfolding report settle observe
recovery_jumps a loss h b = ground (arith, target-le ((a.smoothed_loss_ppm * 3 + loss) / 4))
