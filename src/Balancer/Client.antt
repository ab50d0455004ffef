-- ===== src/Balancer/Client.antt =====
-- What a client of the balancer is told.
use native.Mathlib.Nat.{mod-lt}
use smart_fec_tunnel.Base.{
  ℕ, ◌+◌, ◌%◌, ◌^◌, ◌<◌, ◌≡◌, refl, sym, ap, subst, ◌∙◌, Bool, Option, none, some, ◌∷◌, ◌++◌,
  length, Result, ok, err, arith,
}
use smart_fec_tunnel.Balancer.{
  SocksError, Bytes, Upstream, Chosen, choose, read_request, Balancer, reply, forward, serve,
  handle_balanced_client,
}
use smart_fec_tunnel.Balancer.Request.{read_request-ok, IsGreetingThen, IsConnect}
use smart_fec_tunnel.Balancer.Reads.{IsSuccess, socks_connect-ok}
use smart_fec_tunnel.Balancer.Select.{Answered, Outcome, choose_lem}

reply-ok :
    (after : Balancer) (chosen : Option Chosen) (last : Option SocksError) (c : Chosen)
    → (reply after chosen last).2 ≡ ok c
    → (chosen ≡ some c)
      × ((reply after chosen last).1 ≡ c.response)
      × ((reply after chosen last).0 ≡ after)
reply-ok after none last c h = cc
reply-ok after (some d) last c h =
    let e : d ≡ c = ground arith in (ap some e, ap (λ d. d.response) e, refl)

forward-ok :
    (network : Bool → ℕ → Upstream) (request : Bytes) (b : Balancer) (c : Chosen)
    → 0 < length b.health
    → (forward network request b).2 ≡ ok c
    → ((forward network request b).1 ≡ c.response)
      × ((pass : Bool) × Answered (network pass) request ((forward network request b).0.health) c)
unfolding forward
forward-ok network request b c h e =
    let start = b.cursor % length b.health in
    let sel = choose network request start b.health in
    let sound = choose_lem network request start b.health (mod-lt b.cursor h) in
    let (picked, same, after) =
      reply-ok (record { health = sel.0; cursor = (b.cursor + 1) % 2 ^ 64 }) (sel.1) (sel.2) c e in
    (
      same,
      subst (λ (a : Balancer). (pass : Bool) × Answered (network pass) request a.health c)
          (sym after) (subst (Outcome network request (sel.0)) picked (sound.1)),
    )

serve-ok :
    (network : Bool → ℕ → Upstream) (b : Balancer) (written : Bytes)
    (read : Result SocksError (Bytes × Bytes)) (c : Chosen)
    → (serve network b written read).2 ≡ ok c
    → (r : Bytes × Bytes) × (read ≡ ok r)
      × ((forward network (r.0) b).2 ≡ ok c)
      × ((serve network b written read).1 ≡ written ++ (forward network (r.0) b).1)
      × ((serve network b written read).0 ≡ (forward network (r.0) b).0)
unfolding serve
serve-ok network b written (err e) c h = cc
serve-ok network b written (ok r) c h = (r, refl, h, refl, refl)

-- When a balancer that has upstreams connects a client, the client sent a greeting (`5`, and 1 to 32
-- methods with their number before them and `0` among them), then a request (`5 1 0`, the type 1, 3
-- or 4 of the address, and an address with a port of just that type), and that request, byte by
-- byte, is what an upstream was given and answered with success; the client was told `5 0` and then
-- that upstream's response, and the upstream is marked healthy.
pub handle-ok :
    (network : Bool → ℕ → Upstream) (b : Balancer) (input : Bytes) (c : Chosen)
    → 0 < length b.health
    → (handle_balanced_client network b input).2 ≡ ok c
    → let r = handle_balanced_client network b input in
      (request rest : Bytes) × (pass : Bool) × IsGreetingThen input request rest
      × IsConnect request
      × (r.1 ≡ 5 ∷ 0 ∷ c.response)
      × IsSuccess c.response
      × Answered (network pass) request (r.0.health) c
unfolding handle_balanced_client
handle-ok network b input c h e =
    let (w, read) = read_request input in
    let ((request, rest), got, e1, sent, after) = serve-ok network b w read c e in
    let (written, greeted, form) = read_request-ok input request rest got in
    let (response, (pass, answered)) = forward-ok network request b c h e1 in
    (
      request,
      rest,
      pass,
      greeted,
      form,
      sent ∙ ap (λ x. x ++ (forward network request b).1) written ∙ ap (λ x. 5 ∷ 0 ∷ x) response,
      socks_connect-ok (network pass c.index) request c.response c.remote (answered.1),
      subst (λ a. Answered (network pass) request a.health c) (sym after) answered,
    )
