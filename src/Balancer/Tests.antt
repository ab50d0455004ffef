-- ===== src/Balancer/Tests.antt =====
-- Tests and witnesses of the balancer.
use smart_fec_tunnel.Base.{
  ℕ, zero, suc, ◌≡◌, refl, Bool, true, false, none, some, [], ◌∷◌, ◌++◌, length, ok, err, arith,
}
use smart_fec_tunnel.Balancer.{
  Bytes, Upstream, Chosen, Balancer, only_connect, requires_authentication, handle_balanced_client,
  socks_connect, choose, balance, check_health,
}
use smart_fec_tunnel.Balancer.Select.{Outcome, Answered, choose_lem}
use smart_fec_tunnel.Balancer.Client.{handle-ok}
use smart_fec_tunnel.Balancer.Request.{IsGreetingThen, IsConnect}
use smart_fec_tunnel.Balancer.Reads.{IsSuccess}

abbrev response : Bytes
response = 5 ∷ 0 ∷ 0 ∷ 1 ∷ 10 ∷ 0 ∷ 0 ∷ 1 ∷ 4 ∷ 56 ∷ []

-- The first upstream is down, the second one answers.
abbrev network : Bool → ℕ → Upstream
network pass zero request = none
network pass (suc i) request = some (5 ∷ 0 ∷ (response ++ 99 ∷ []))

-- Connect to a.b, port 80.
abbrev connect_request : Bytes
connect_request = 5 ∷ 1 ∷ 0 ∷ 3 ∷ 3 ∷ b'a' ∷ b'.' ∷ b'b' ∷ 0 ∷ 80 ∷ []

abbrev two_up : Balancer
two_up = record { health = true ∷ true ∷ []; cursor = 4 }

abbrev second : Chosen
second = record { index = 1; response = response; remote = 99 ∷ [] }

runs :
    (handle_balanced_client network two_up (5 ∷ 2 ∷ 2 ∷ 0 ∷ (connect_request ++ 7 ∷ []))
      ≡ (record { health = false ∷ true ∷ []; cursor = 5 }, 5 ∷ 0 ∷ response, ok second))
    × (handle_balanced_client network two_up (5 ∷ 1 ∷ 2 ∷ connect_request)
        ≡ (two_up, 5 ∷ 0xff ∷ [], err requires_authentication))
    × (handle_balanced_client network two_up (5 ∷ 1 ∷ 0 ∷ 5 ∷ 2 ∷ 0 ∷ 1 ∷ [])
        ≡ (two_up, 5 ∷ 0 ∷ 5 ∷ 7 ∷ 0 ∷ 1 ∷ 0 ∷ 0 ∷ 0 ∷ 0 ∷ 0 ∷ 0 ∷ [], err only_connect))
    × (balance 1 ≡ none)
    × (check_health (network true) 0 (true ∷ false ∷ []) ≡ false ∷ true ∷ [])
unfolding handle_balanced_client balance check_health
runs = (refl, refl, refl, refl, refl)

choose_lem_example :
    let r = choose network connect_request 0 (true ∷ true ∷ []) in
    (length (r.0) ≡ 2) × Outcome network connect_request (r.0) (r.1)
choose_lem_example = choose_lem network connect_request 0 (true ∷ true ∷ []) (omega arith)

handle-ok_example :
    let r = handle_balanced_client network two_up (5 ∷ 2 ∷ 2 ∷ 0 ∷ (connect_request ++ 7 ∷ [])) in
    (request rest : Bytes) × (pass : Bool) × IsGreetingThen
      (5 ∷ 2 ∷ 2 ∷ 0 ∷ (connect_request ++ 7 ∷ []))
      request
      rest
    × IsConnect request
    × (r.1 ≡ 5 ∷ 0 ∷ second.response)
    × IsSuccess second.response
    × Answered (network pass) request (r.0.health) second
unfolding handle_balanced_client socks_connect
handle-ok_example =
    handle-ok network two_up (5 ∷ 2 ∷ 2 ∷ 0 ∷ (connect_request ++ 7 ∷ [])) second (omega arith) refl
