-- ===== src/Config/Tests.antt =====
-- The tests of src/product_config.rs, run, and the theorems at concrete inputs.
use smart_fec_tunnel.Base.{◌≡◌, refl, ◌↔◌, true, false, some, none, if◌then◌else◌, ok, err}
use smart_fec_tunnel.Config.{
  adaptive_fec, pmtu, masque, multi_warp, tuic, dns_doq, same_module, standard, enhanced, disabled,
  enabled, Modules, ProductConfig, missing_dependency, experimental_module_outside_laboratory,
  profile_defaults, for_profile, set_module, apply_settings, check_experimental, check_module,
  dependencies, check_dependencies, validate_scalar_fields, configured, resolve_modules,
}
use smart_fec_tunnel.Config.Resolve.{IsResolution, resolve_modules_iff}

program : Unit {0}
unfolding for_profile profile_defaults set_module apply_settings check_experimental check_module
    dependencies check_dependencies validate_scalar_fields configured resolve_modules
program = tt

-- enhanced_profile_has_production_modules
production :
    (profile_defaults enhanced multi_warp ≡ true)
    × (profile_defaults enhanced adaptive_fec ≡ true)
    × (profile_defaults enhanced masque ≡ false)
    × (profile_defaults enhanced dns_doq ≡ false)
unfolding program
production = (refl, refl, refl, refl)

-- disabling_required_dependency_is_rejected
abbrev without_pmtu : ProductConfig
unfolding program
without_pmtu = record (for_profile enhanced) {
  modules = λ m. if same_module m pmtu then some disabled else none;
}

dependency_rejected : resolve_modules without_pmtu ≡ err (missing_dependency adaptive_fec pmtu)
unfolding program
dependency_rejected = refl

-- experimental_module_requires_laboratory_profile
abbrev masque_outside : ProductConfig
unfolding program
masque_outside = record (for_profile standard) {
  modules = λ m.
      if same_module m masque
      then some enabled
      else if same_module m tuic
      then some disabled
      else none;
}

experimental_rejected :
    resolve_modules masque_outside ≡ err (experimental_module_outside_laboratory masque)
unfolding program
experimental_rejected = refl

-- The enhanced profile without its additional egress.
abbrev without_warp : ProductConfig
without_warp = record {
  schema_version = 1;
  profile = enhanced;
  server = record { bandwidth_mbps = 30; public_tcp_port = 443; public_udp_port = 443 };
  modules = λ m. if same_module m multi_warp then some disabled else none;
}

abbrev warp_left_out : Modules
unfolding program
warp_left_out m = if same_module m multi_warp then false else profile_defaults enhanced m

warp_not_resolved :
    (configured without_warp multi_warp ≡ false) × (configured without_warp adaptive_fec ≡ true)
unfolding program
warp_not_resolved = (refl, refl)

resolve_modules_iff_example :
    (resolve_modules without_warp ≡ ok warp_left_out) ↔ IsResolution without_warp warp_left_out
resolve_modules_iff_example = resolve_modules_iff without_warp warp_left_out
