-- ===== src/Relay/Backoff.antt =====
-- The pauses of `run_client` between its attempts.
use native.Mathlib.Nat.{pow-suc}
use smart_fec_tunnel.Base.{
  ℕ, suc, ◌+◌, ◌*◌, ◌^◌, ◌≡◌, refl, ap, ◌∙◌, min, Bool, true, false, if◌then◌else◌, List, [], ◌∷◌,
  arith,
}
use smart_fec_tunnel.Relay.{retry}

-- The delay after attempts of which some connected.
unfoldable pub backoff : ℕ → List Bool → ℕ
backoff delay [] = delay
backoff delay (connected ∷ attempts) = backoff ((retry delay connected).0) attempts

-- The pauses since the device last connected, that after the connection with them.
unfoldable pub streak : ℕ → List Bool → ℕ
streak n [] = n
streak n (true ∷ attempts) = streak 1 attempts
streak n (false ∷ attempts) = streak (n + 1) attempts

doubled : (n : ℕ) → min (min (2 ^ n) 30 * 2) 30 ≡ min (2 ^ (n + 1)) 30
doubled n =
    let e : n + 1 ≡ suc n = omega arith in
    let p : 2 ^ (n + 1) ≡ 2 ^ n * 2 = ap (λ k. 2 ^ k) e ∙ pow-suc 2 n in omega arith

backoff-streak_from :
    (n : ℕ) (attempts : List Bool)
    → backoff (min (2 ^ n) 30) attempts ≡ min (2 ^ streak n attempts) 30
unfolding backoff streak retry
backoff-streak_from n [] = refl
backoff-streak_from n (true ∷ attempts) = backoff-streak_from 1 attempts
backoff-streak_from n (false ∷ attempts) =
    ap (λ d. backoff d attempts) (doubled n) ∙ backoff-streak_from (n + 1) attempts

-- After any attempts the client's next failed attempt is followed by a pause of 2 to the number of
-- pauses since it was last connected, in seconds, and of 30 s at most; one that connects is
-- followed by a pause of 1 s when it ends.
pub retry-backoff :
    (attempts : List Bool) (connected : Bool)
    → (retry (backoff 1 attempts) connected).1
      ≡ (if connected then 1 else min (2 ^ streak 0 attempts) 30)
unfolding retry
retry-backoff attempts true = refl
retry-backoff attempts false = backoff-streak_from 0 attempts
