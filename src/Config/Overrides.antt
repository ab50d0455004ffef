-- ===== src/Config/Overrides.antt =====
-- src/product_config.rs: what the overrides make of the profile's modules.
use smart_fec_tunnel.Base.{
  ◌≡◌, refl, ap, ◌∙◌, ◌↔◌, Bool, true, false, not, ◌||◌, if◌then◌else◌, Bool-cases, inl, inr,
  Option, none, some, List, [], ◌∷◌, get_elem?, arith,
}
use smart_fec_tunnel.Config.{
  ModuleId, tuic, masque, adaptive_fec, pmtu, direct_egress, multi_warp, stable_google_egress,
  dns_doh, dns_dot_fallback, dns_doq, observability, automatic_rollback, all_modules, rank,
  is_member, same_module, Modules, ProductConfig, ModuleSetting, enabled, disabled, auto, Profile,
  standard, enhanced, low_resource, laboratory, is_laboratory, profile_defaults, apply_settings,
  set_module, configured,
}

-- What an override makes of the profile's choice.
unfoldable pub overridden : Option ModuleSetting → Bool → Bool
overridden (some enabled) b = true
overridden (some disabled) b = false
overridden (some auto) b = b
overridden none b = b

all_modules-rank : (m : ModuleId) → get_elem? all_modules (rank m) ≡ some m
all_modules-rank m = ground arith

same_module→eq : (m n : ModuleId) → same_module m n ≡ true → m ≡ n
same_module→eq m n h =
    let e : rank m ≡ rank n = ground arith in
    cc (all_modules-rank m, all_modules-rank n, ap (get_elem? all_modules) e)

all_modules_complete : (m : ModuleId) → is_member m all_modules ≡ true
all_modules_complete m = ground arith

set_module_lem :
    (o : Option ModuleSetting) (n : ModuleId) (r : Modules) (m : ModuleId)
    → set_module o n r m ≡ (if same_module m n then overridden o (r m) else r m)
unfolding set_module overridden
set_module_lem (some enabled) n r m = refl
set_module_lem (some disabled) n r m = refl
set_module_lem (some auto) n r m = ground arith
set_module_lem none n r m = ground arith

overridden_idem :
    (o : Option ModuleSetting) (b : Bool) → overridden o (overridden o b) ≡ overridden o b
unfolding overridden
overridden_idem o b = ground arith

apply_settings_lem :
    (settings : ModuleId → Option ModuleSetting) (ms : List ModuleId) (r : Modules) (m : ModuleId)
    → apply_settings settings ms r m
      ≡ (if is_member m ms then overridden (settings m) (r m) else r m)
unfolding apply_settings
apply_settings_lem settings [] r m = refl
apply_settings_lem settings (n ∷ ms) r m = elim (Bool-cases (same_module m n)) [
  | inl here ↦
      let e = same_module→eq m n here in
      ground (
        arith,
        apply_settings_lem settings ms (set_module (settings n) n r) m,
        set_module_lem (settings n) n r m,
        ap settings e,
        overridden_idem (settings m) (r m),
      )
  | inr other ↦ ground (
    arith,
    apply_settings_lem settings ms (set_module (settings n) n r) m,
    set_module_lem (settings n) n r m,
  )
]

pub configured_lem :
    (c : ProductConfig) (m : ModuleId)
    → configured c m ≡ overridden (c.modules m) (profile_defaults c.profile m)
unfolding configured
configured_lem c m = rw (
  apply_settings_lem c.modules all_modules (profile_defaults c.profile) m,
  all_modules_complete m,
)

abbrev is_standard : Profile → Bool
is_standard standard = true
is_standard enhanced = false
is_standard low_resource = false
is_standard laboratory = false

abbrev is_enhanced : Profile → Bool
is_enhanced enhanced = true
is_enhanced standard = false
is_enhanced low_resource = false
is_enhanced laboratory = false

abbrev is_low_resource : Profile → Bool
is_low_resource low_resource = true
is_low_resource standard = false
is_low_resource enhanced = false
is_low_resource laboratory = false

-- Whether a profile has a module on, module by module.
abbrev pub default_of : ModuleId → Profile → Bool
default_of tuic p = not (is_laboratory p)
default_of masque p = is_laboratory p
default_of adaptive_fec p = not (is_laboratory p)
default_of multi_warp p = is_enhanced p
default_of stable_google_egress p = is_enhanced p
default_of dns_dot_fallback p = is_standard p || is_enhanced p
default_of dns_doq p = is_laboratory p
default_of observability p = not (is_low_resource p)
default_of pmtu p = true
default_of direct_egress p = true
default_of dns_doh p = true
default_of automatic_rollback p = true

pub default_of_lem : (m : ModuleId) (p : Profile) → profile_defaults p m ≡ default_of m p
unfolding profile_defaults
default_of_lem tuic p = ground arith
default_of_lem masque p = ground arith
default_of_lem adaptive_fec p = ground arith
default_of_lem pmtu p = ground arith
default_of_lem direct_egress p = ground arith
default_of_lem multi_warp p = ground arith
default_of_lem stable_google_egress p = ground arith
default_of_lem dns_doh p = ground arith
default_of_lem dns_dot_fallback p = ground arith
default_of_lem dns_doq p = ground arith
default_of_lem observability p = ground arith
default_of_lem automatic_rollback p = ground arith

-- What the four cases of an override come to.
abbrev IsOverride : Option ModuleSetting → Bool → Bool → Type 0
IsOverride o b x =
    (o ≡ some enabled → x ≡ true)
    × (o ≡ some disabled → x ≡ false)
    × (o ≡ some auto → x ≡ b)
    × (o ≡ none → x ≡ b)

pub overridden_iff :
    (o : Option ModuleSetting) (b x : Bool) → IsOverride o b x ↔ (x ≡ overridden o b)
unfolding overridden
overridden_iff (some enabled) b x = (λ h. h.0 refl, λ e. (λ p. e, λ p. cc, λ p. cc, λ p. cc))
overridden_iff (some disabled) b x = (λ h. h.1 refl, λ e. (λ p. cc, λ p. e, λ p. cc, λ p. cc))
overridden_iff (some auto) b x = (λ h. h.2 refl, λ e. (λ p. cc, λ p. cc, λ p. e, λ p. cc))
overridden_iff none b x = (λ h. h.3 refl, λ e. (λ p. cc, λ p. cc, λ p. cc, λ p. e))

pub configured-IsOverride :
    (c : ProductConfig) (m : ModuleId)
    → IsOverride (c.modules m) (default_of m c.profile) (configured c m)
configured-IsOverride c m =
    (overridden_iff (c.modules m) (default_of m c.profile) _).1
      (configured_lem c m ∙ ap (overridden (c.modules m)) (default_of_lem m c.profile))
