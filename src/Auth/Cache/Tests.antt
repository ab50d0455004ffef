-- ===== src/Auth/Cache/Tests.antt =====
-- The cache's unit tests of src/quic_auth.rs, run, and the theorems at concrete inputs.
use smart_fec_tunnel.Base.{ℕ, ◌≡◌, refl, true, false, [], ◌∷◌, replicate, arith}
use smart_fec_tunnel.Base.Maps.{get, contains_key, insert, remove}
use smart_fec_tunnel.Base.Bytes.{bytes_eq}
use smart_fec_tunnel.Auth.Cache.{Nonce, ReplayCache, new, check_and_insert}
use smart_fec_tunnel.Auth.Cache.Fifo.{
  IsValid, new-IsValid, drop_expired, trim, push_nonce, check_and_insert-push_nonce,
  check_and_insert-IsValid,
}
use smart_fec_tunnel.Auth.Cache.Replay.{Call, call, run, count_accepted, accepted_nonce_refused}

program : Unit {0}
unfolding new check_and_insert get contains_key insert remove bytes_eq run count_accepted push_nonce
    drop_expired trim
program = tt

abbrev nonce_of : ℕ → Nonce
nonce_of k = replicate 16 k

abbrev cache : ReplayCache
cache = record { capacity = 2; entries = []; order = [] }

cache-IsValid : IsValid cache
unfolding program
cache-IsValid = (new-IsValid 2 refl).0

-- expired_entries_can_be_reused_after_window
reused_after_window :
    let c = check_and_insert cache (nonce_of 9) 100 30 in
    (c.1 ≡ true)
    × ((check_and_insert c.0 (nonce_of 9) 130 30).1 ≡ false)
    × ((check_and_insert c.0 (nonce_of 9) 131 30).1 ≡ true)
unfolding program
reused_after_window = (refl, refl, refl)

check_and_insert-push_nonce_example :
    let (q, fresh) = push_nonce 2 [] (nonce_of 1) 100 30 in
    check_and_insert cache (nonce_of 1) 100 30 ≡ (record cache { entries = q; order = q }, fresh)
check_and_insert-push_nonce_example =
    check_and_insert-push_nonce cache (nonce_of 1) 100 30 cache-IsValid

check_and_insert-IsValid_example : IsValid (check_and_insert cache (nonce_of 1) 100 30).0
check_and_insert-IsValid_example = check_and_insert-IsValid cache (nonce_of 1) 100 30 cache-IsValid

abbrev at_time : ℕ → ℕ → Call
at_time k now = record { nonce = nonce_of k; now = now; window_secs = 30 }

accepted_nonce_refused_example :
    (call (run (call cache (at_time 1 100)).0 (at_time 2 101 ∷ [])) (at_time 1 130)).1 ≡ false
unfolding program
accepted_nonce_refused_example =
    accepted_nonce_refused cache (at_time 1 100) (at_time 1 130) (at_time 2 101 ∷ []) cache-IsValid
      refl refl (omega arith, tt) (omega arith) (omega arith)
