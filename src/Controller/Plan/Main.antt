-- ===== src/Controller/Plan/Main.antt =====
-- When the planner has a plan, and when the program accepts it.
use smart_fec_tunnel.Base.{
  ◌≡◌, refl, sym, ap, subst, ◌∙◌, ◌↔◌, ◌⊎◌, ◌<◌, true, inl, inr, List, [], ◌∷◌, Result, ok, err,
  arith,
}
use smart_fec_tunnel.Config.{
  tuic, masque, Modules, ProductConfig, Profile, standard, enhanced, low_resource, laboratory,
  for_profile, resolve_modules,
}
use smart_fec_tunnel.Config.Overrides.{default_of}
use smart_fec_tunnel.Config.Resolve.{IsResolution, resolve_modules_iff}
use smart_fec_tunnel.Controller.Plan.{
  PortBinding, PortConflict, IoError, PlanError, DeploymentPlan, unspecified, tcp, udp,
  public_binding, transport_binding, requested_bindings, probe_all, build, socket_probe, Cli,
  cli_config, main,
}

abbrev pub Succeeds : {E A : Type 0} → Result E A → Type 0
Succeeds (ok a) = Unit {0}
Succeeds (err e) = ⊥

abbrev pub AllFree : (PortBinding → Result IoError (Unit {0})) → List PortBinding → Type 0
AllFree bind [] = Unit {0}
AllFree bind (b ∷ bs) = (bind b ≡ ok tt) × AllFree bind bs

List-cases : {A : Type 0} (xs : List A) → (xs ≡ []) ⊎ ((x : A) × (rest : List A) × (xs ≡ x ∷ rest))
List-cases [] = inl refl
List-cases (x ∷ rest) = inr (x, rest, refl)

ok-injective : {E A : Type 0} {a b : A} → Path (Result E A) (ok a) (ok b) → a ≡ b
ok-injective h = cc

probe_free_iff :
    (bind : PortBinding → Result IoError (Unit {0})) (bs : List PortBinding)
    → (probe_all (socket_probe bind) bs ≡ ok []) ↔ AllFree bind bs
unfolding probe_all socket_probe
probe_free_iff bind [] = (λ h. tt, λ h. refl)
probe_free_iff bind (b ∷ bs) = ground (arith, probe_free_iff bind bs)

result_cases : {E A : Type 0} (r : Result E A) → ((a : A) × (r ≡ ok a)) ⊎ ((e : E) × (r ≡ err e))
result_cases (ok a) = inl (a, refl)
result_cases (err e) = inr (e, refl)

ok_or_err : {E A : Type 0} {r : Result E A} {e : E} {a : A} → r ≡ err e → r ≡ ok a → ⊥
ok_or_err p q = cc

probe_all_cases :
    (bind : PortBinding → Result IoError (Unit {0})) (bs : List PortBinding)
    → ((cs : List PortConflict) × (probe_all (socket_probe bind) bs ≡ ok cs))
      ⊎ ((e : PlanError) × (probe_all (socket_probe bind) bs ≡ err e))
probe_all_cases bind bs = result_cases (probe_all (socket_probe bind) bs)

-- A plan without conflicts.
abbrev IsClear : Result PlanError DeploymentPlan → Type 0
IsClear (ok plan) = plan.conflicts ≡ []
IsClear (err e) = ⊥

-- The TCP port is wanted always, the UDP port for a transport.
requested_bindings-AllFree :
    (bind : PortBinding → Result IoError (Unit {0})) (c : ProductConfig) (r : Modules)
    → AllFree bind (requested_bindings c r) ↔ (
        (bind (public_binding c) ≡ ok tt)
        × ((r tuic ≡ true) ⊎ (r masque ≡ true) → bind (transport_binding c) ≡ ok tt))
unfolding requested_bindings
requested_bindings-AllFree bind c r = ground arith

at_resolved :
    (bind : PortBinding → Result IoError (Unit {0})) (c : ProductConfig) {k r : Modules}
    → k ≡ r
    → bind (public_binding c) ≡ ok tt
    → ((k tuic ≡ true) ⊎ (k masque ≡ true) → bind (transport_binding c) ≡ ok tt)
    → (bind (public_binding c) ≡ ok tt)
      × ((r tuic ≡ true) ⊎ (r masque ≡ true) → bind (transport_binding c) ≡ ok tt)
at_resolved bind c e t u =
    (t, subst (λ r. (r tuic ≡ true) ⊎ (r masque ≡ true) → bind (transport_binding c) ≡ ok tt) e u)

-- The planner finds no conflict exactly for the acceptable configurations whose public TCP port
-- can be bound, and whose public UDP port can be bound if tuic or masque is on.
build_iff :
    (bind : PortBinding → Result IoError (Unit {0})) (c : ProductConfig)
    → IsClear (build (socket_probe bind) c) ↔ (
        (r : Modules) × IsResolution c r
        × (bind (public_binding c) ≡ ok tt)
        × ((r tuic ≡ true) ⊎ (r masque ≡ true) → bind (transport_binding c) ≡ ok tt))
unfolding build
build_iff bind c = elim (result_cases (resolve_modules c)) [
  | inr (e, refused) ↦
      rw refused
        (λ h. absurd h, λ k. absurd (ok_or_err refused ((resolve_modules_iff c k.0).1 k.1)))
  | inl (r, resolved) ↦
      let free = probe_free_iff bind (requested_bindings c r) in
      let both = requested_bindings-AllFree bind c r in
      let own = (resolve_modules_iff c r).0 resolved in
      let same = λ (k : Modules) (other : IsResolution c k).
        ok-injective (sym ((resolve_modules_iff c k).1 other) ∙ resolved) in
      elim (probe_all_cases bind (requested_bindings c r)) [
        | inr (e, failed) ↦
            rw (resolved, failed)
              (
                λ h. absurd h,
                λ k. absurd (
                    ok_or_err failed (free.1 (both.1 (at_resolved bind c (same k.0 k.1) k.2 k.3)))),
              )
        | inl (found, probed) ↦
            rw (resolved, probed)
              (
                λ h. let (t, u) = both.0 (free.0 (probed ∙ ap ok h)) in (r, own, t, u),
                λ k.
                    ok-injective
                      (sym probed ∙ free.1 (both.1 (at_resolved bind c (same k.0 k.1) k.2 k.3))),
              )
      ]
]

main-IsClear :
    (bind : PortBinding → Result IoError (Unit {0})) (cli : Cli)
    → Succeeds (main bind cli) ↔ IsClear (build (socket_probe bind) (cli_config cli))
unfolding main
main-IsClear bind cli = elim (result_cases (build (socket_probe bind) (cli_config cli))) [
  | inr (e, failed) ↦ rw failed (λ h. h, λ h. h)
  | inl (plan, built) ↦ elim (List-cases plan.conflicts) [
    | inl clear ↦ rw (built, clear) (λ h. refl, λ h. tt)
    | inr (c, cs, blocked) ↦ rw (built, blocked) (λ h. absurd h, λ h. cc)
  ]
]

-- What the command line asks for is what its profile has on.
cli_config-IsResolution :
    (cli : Cli)
    → 0 < cli.bandwidth_mbps
    → 0 < cli.tcp_port
    → 0 < cli.udp_port
    → IsResolution (cli_config cli) (λ m. default_of m cli.profile)
unfolding cli_config for_profile
cli_config-IsResolution cli b t u = record {
  schema = refl;
  bandwidth = b;
  tcp_port = t;
  udp_port = u;
  forced_on = λ m h. cc;
  forced_off = λ m h. cc;
  left_auto = λ m h. cc;
  unset = λ m h. refl;
  one_transport = ground arith;
  laboratory_masque = ground arith;
  laboratory_doq = ground arith;
  fec_tuic = ground arith;
  fec_pmtu = ground arith;
  warp_egress = ground arith;
  google_egress = ground arith;
  dot_doh = ground arith;
  doq_egress = ground arith;
}

has_transport : (p : Profile) → (default_of tuic p ≡ true) ⊎ (default_of masque p ≡ true)
has_transport standard = inl refl
has_transport enhanced = inl refl
has_transport low_resource = inl refl
has_transport laboratory = inr refl

cli_config-transport :
    (cli : Cli) (r : Modules)
    → IsResolution (cli_config cli) r
    → (r tuic ≡ true) ⊎ (r masque ≡ true)
unfolding cli_config for_profile
cli_config-transport cli r k = elim (has_transport cli.profile) [
  | inl on ↦ inl (k.unset tuic refl ∙ on)
  | inr on ↦ inr (k.unset masque refl ∙ on)
]

-- The program accepts its arguments exactly when the bandwidth and both ports are not 0, the TCP
-- port can be bound on every address of IPv4, and so can the UDP port, since each profile has a
-- transport on.
pub main_iff :
    (bind : PortBinding → Result IoError (Unit {0})) (cli : Cli)
    → Succeeds (main bind cli) ↔ (
        (0 < cli.bandwidth_mbps)
        × (0 < cli.tcp_port)
        × (0 < cli.udp_port)
        × (bind (record {
          address = unspecified;
          port = cli.tcp_port;
          protocol = tcp;
          owner = "smart-gateway-public";
        })
            ≡ ok tt)
        × (bind (record {
          address = unspecified;
          port = cli.udp_port;
          protocol = udp;
          owner = "smart-gateway-transport";
        })
            ≡ ok tt))
unfolding cli_config for_profile
main_iff bind cli =
    let clear = main-IsClear bind cli in
    let planned = build_iff bind (cli_config cli) in
    (
      λ h.
          let (r, own, t, u) = planned.0 (clear.0 h) in
          (own.bandwidth, own.tcp_port, own.udp_port, t, u (cli_config-transport cli r own)),
      λ k. clear.1 (
          planned.1 (
            λ m. default_of m cli.profile,
            cli_config-IsResolution cli k.0 k.1 k.2,
            k.3,
            λ on. k.4,
          )),
    )
