-- ===== src/Config/Resolve.antt =====
-- Which configurations are accepted, and with which modules.
use smart_fec_tunnel.Base.{
  ◌<◌, ◌≡◌, refl, sym, ap, subst, fun_ext, ◌∙◌, ◌↔◌, true, false, inl, inr, none, some, ok, arith,
}
use smart_fec_tunnel.Config.{
  ModuleId, tuic, masque, adaptive_fec, pmtu, direct_egress, multi_warp, stable_google_egress,
  dns_doh, dns_dot_fallback, dns_doq, dependencies, Modules, ProductConfig, enabled, disabled, auto,
  Profile, standard, enhanced, low_resource, laboratory, is_laboratory, profile_defaults,
  for_profile, check_module, configured, resolve_modules,
}
use smart_fec_tunnel.Config.Overrides.{
  overridden, configured_lem, default_of, default_of_lem, overridden_iff, configured-IsOverride,
}
use smart_fec_tunnel.Config.Checks.{
  validate_scalar_fields_iff, check_experimental_iff, resolve_modules_cases, not_both,
  resolve-configured,
}

-- The configuration is acceptable, and the set is the one it asks for.
pub record IsResolution (c : ProductConfig) (r : Modules) : Type 0 where
  pub schema : c.schema_version ≡ 1
  pub bandwidth : 0 < c.server.bandwidth_mbps
  pub tcp_port : 0 < c.server.public_tcp_port
  pub udp_port : 0 < c.server.public_udp_port
  pub forced_on : (m : ModuleId) → c.modules m ≡ some enabled → r m ≡ true
  pub forced_off : (m : ModuleId) → c.modules m ≡ some disabled → r m ≡ false
  pub left_auto : (m : ModuleId) → c.modules m ≡ some auto → r m ≡ default_of m c.profile
  pub unset : (m : ModuleId) → c.modules m ≡ none → r m ≡ default_of m c.profile
  pub one_transport : r tuic ≡ true → r masque ≡ false
  pub laboratory_masque : r masque ≡ true → c.profile ≡ laboratory
  pub laboratory_doq : r dns_doq ≡ true → c.profile ≡ laboratory
  pub fec_tuic : r adaptive_fec ≡ true → r tuic ≡ true
  pub fec_pmtu : r adaptive_fec ≡ true → r pmtu ≡ true
  pub warp_egress : r multi_warp ≡ true → r direct_egress ≡ true
  pub google_egress : r stable_google_egress ≡ true → r direct_egress ≡ true
  pub dot_doh : r dns_dot_fallback ≡ true → r dns_doh ≡ true
  pub doq_egress : r dns_doq ≡ true → r direct_egress ≡ true

is_laboratory_iff : (p : Profile) → (is_laboratory p ≡ true) ↔ (p ≡ laboratory)
is_laboratory_iff p = ground arith

-- The set a configuration asks for, as its overrides and its profile say.
IsResolution-eq : {c : ProductConfig} {r : Modules} → IsResolution c r → r ≡ configured c
IsResolution-eq {c} {r} k = fun_ext (λ m.
    (overridden_iff (c.modules m) (default_of m c.profile) (r m)).0
      (k.forced_on m, k.forced_off m, k.left_auto m, k.unset m)
    ∙ (ap (overridden (c.modules m)) (sym (default_of_lem m c.profile)) ∙ sym (configured_lem c m)))

resolve-IsResolution :
    (c : ProductConfig) → resolve_modules c ≡ ok (configured c) → IsResolution c (configured c)
unfolding dependencies
resolve-IsResolution c h =
    let r = configured c in
    let (a, t, x, d) = (resolve-configured c).0 h in
    let (s, bw, tp, up) = (validate_scalar_fields_iff c).0 a in
    let (lm, ld) = (check_experimental_iff c.profile r).0 x in
    let (_, (_, (fec, (_, (_, (warp, (google, (_, (dot, (doq, _)))))))))) = d in
    record {
      schema = s;
      bandwidth = bw;
      tcp_port = tp;
      udp_port = up;
      forced_on = λ m. (configured-IsOverride c m).0;
      forced_off = λ m. (configured-IsOverride c m).1;
      left_auto = λ m. (configured-IsOverride c m).2;
      unset = λ m. (configured-IsOverride c m).3;
      one_transport = (not_both (r tuic) (r masque)).0 t;
      laboratory_masque = λ o. (is_laboratory_iff c.profile).0 (lm o);
      laboratory_doq = λ o. (is_laboratory_iff c.profile).0 (ld o);
      fec_tuic = λ o. (fec o).0;
      fec_pmtu = λ o. (fec o).1.0;
      warp_egress = λ o. (warp o).0;
      google_egress = λ o. (google o).0;
      dot_doh = λ o. (dot o).0;
      doq_egress = λ o. (doq o).0;
    }

IsResolution-resolve :
    (c : ProductConfig) → IsResolution c (configured c) → resolve_modules c ≡ ok (configured c)
unfolding dependencies
IsResolution-resolve c k =
    let r = configured c in
    let experimental = (check_experimental_iff c.profile r).1 in
    let laboratory_only = (is_laboratory_iff c.profile).1 in
    (resolve-configured c).1 (
      (validate_scalar_fields_iff c).1 (k.schema, k.bandwidth, k.tcp_port, k.udp_port),
      (not_both (r tuic) (r masque)).1 k.one_transport,
      experimental
          (λ o. laboratory_only (k.laboratory_masque o), λ o. laboratory_only (k.laboratory_doq o)),
      (
        λ o. tt,
        (
          λ o. tt,
          (
            λ o. (k.fec_tuic o, (k.fec_pmtu o, tt)),
            (
              λ o. tt,
              (
                λ o. tt,
                (
                  λ o. (k.warp_egress o, tt),
                  (
                    λ o. (k.google_egress o, tt),
                    (
                      λ o. tt,
                      (
                        λ o. (k.dot_doh o, tt),
                        (λ o. (k.doq_egress o, tt), (λ o. tt, (λ o. tt, tt))),
                      ),
                    ),
                  ),
                ),
              ),
            ),
          ),
        ),
      ),
    )

-- `resolve_modules` returns a set exactly when the configuration has the current schema, a
-- bandwidth and ports that are not 0, and the set has every enabled module, no disabled one and,
-- of the modules left to the profile, those the profile has on; at most one of tuic and masque;
-- masque and dns_doq only in the laboratory; and with a module what it needs: with adaptive_fec
-- both tuic and pmtu, with multi_warp, stable_google_egress or dns_doq direct_egress, and with
-- dns_dot_fallback dns_doh.
pub resolve_modules_iff :
    (c : ProductConfig) (r : Modules) → (resolve_modules c ≡ ok r) ↔ IsResolution c r
resolve_modules_iff c r = (
  λ h. elim (resolve_modules_cases c) [
    | inl resolved ↦
        let e : configured c ≡ r = cc in subst (IsResolution c) e (resolve-IsResolution c resolved)
    | inr (e, refused) ↦ cc
  ],
  λ k.
      let e = IsResolution-eq k in
      IsResolution-resolve c (subst (IsResolution c) e k) ∙ ap ok (sym e),
)

-- Every profile with the default server settings is accepted, with the profile's modules.
pub for_profile-resolve_modules :
    (p : Profile) → resolve_modules (for_profile p) ≡ ok (profile_defaults p)
unfolding resolve_modules for_profile check_module dependencies profile_defaults
for_profile-resolve_modules standard = refl
for_profile-resolve_modules enhanced = refl
for_profile-resolve_modules low_resource = refl
for_profile-resolve_modules laboratory = refl
