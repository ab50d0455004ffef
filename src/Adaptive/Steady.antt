-- ===== src/Adaptive/Steady.antt =====
-- Convergence: on a path whose loss stays put, the parity reaches the level of that loss.
use smart_fec_tunnel.Base.{ℕ, zero, suc, ◌-◌, ◌*◌, ◌≤◌, ◌<◌, ◌≡◌, false, ltb, if◌then◌else◌, arith}
use smart_fec_tunnel.Adaptive.{
  Adaptive, fec_bypass_loss_ppm, target, observe, settle, adjust, report,
}
use smart_fec_tunnel.Adaptive.Bounds.{IsValid, target-le}
use smart_fec_tunnel.Adaptive.Idle.{repeat_report}

-- A controller whose smoothed loss has come to rest at `loss`, outside the bypass.
pub record IsSteady (loss : ℕ) (a : Adaptive) : Type 0 where
  pub smoothed : a.smoothed_loss_ppm ≡ loss
  pub active : a.bypassed ≡ false
  pub bad_bound : a.bad < 2
  pub good_bound : a.good < 15

-- Reports that are still needed: two for each level up, fifteen for each level down, less those
-- that are counted already.
abbrev pub distance : ℕ → Adaptive → ℕ
distance t a = if ltb a.parity t then 2 * (t - a.parity) - a.bad else 15 * (a.parity - t) - a.good

adjust-distance :
    (t : ℕ) (a : Adaptive)
    → t ≤ 4
    → a.bad < 2
    → a.good < 15
    → distance t (adjust a t) ≤ distance t a - 1
unfolding adjust
adjust-distance t a h b g = ground arith

adjust-IsSteady : (loss t : ℕ) (a : Adaptive) → IsSteady loss a → IsSteady loss (adjust a t)
unfolding adjust
adjust-IsSteady loss t a s = ground arith

adjust_rest : (loss t : ℕ) (a : Adaptive) → IsSteady loss a → distance t a ≡ 0 → a.parity ≡ t
adjust_rest loss t a s d = ground arith

steady_lem :
    (loss : ℕ) (a : Adaptive)
    → loss < fec_bypass_loss_ppm
    → IsSteady loss a
    → report a loss
      ≡ adjust
          (record a { unavailable_reports = 0; last_loss_ppm = loss; bypass_streak = 0 })
          (target loss)
unfolding report observe settle
steady_lem loss a h s = ground arith

steady_run :
    (n : ℕ) (loss : ℕ) (a : Adaptive)
    → loss < fec_bypass_loss_ppm
    → IsSteady loss a
    → distance (target loss) a ≤ n
    → (repeat_report n a loss).parity ≡ target loss
unfolding repeat_report
steady_run zero loss a h s d = adjust_rest loss (target loss) a s (omega arith)
steady_run (suc n) loss a h s d =
    let rested : Adaptive = record a {
      unavailable_reports = 0;
      last_loss_ppm = loss;
      bypass_streak = 0;
    } in
    rw (repeat_report, steady_lem loss a h s)
      (steady_run n loss (adjust rested (target loss)) h
        (adjust-IsSteady loss (target loss) rested (ground arith))
        (omega (
          arith,
          target-le loss,
          adjust-distance (target loss) rested (target-le loss) s.bad_bound s.good_bound,
        )))

-- On a path with a constant loss below the bypass threshold, a controller within its ranges whose
-- smoothed loss has come to rest there has its parity at the level of that loss after `distance`
-- reports (two for each level up or fifteen for each level down, less those counted already), and
-- after any larger number of them; and `distance` is at most sixty.
pub steady_reaches :
    (n : ℕ) (loss : ℕ) (a : Adaptive)
    → loss < fec_bypass_loss_ppm
    → IsValid a
    → IsSteady loss a
    → distance (target loss) a ≤ n
    → ((repeat_report n a loss).parity ≡ target loss) × (distance (target loss) a ≤ 60)
steady_reaches n loss a h v s d =
    (steady_run n loss a h s d, ground (arith, v.parity_bound, target-le loss))
