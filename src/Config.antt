-- ===== src/Config.antt =====
-- src/product_config.rs: the product's configuration and which modules it turns on. A set of
-- modules is its characteristic function, iterated in the order of `all_modules`, which is the
-- derived order of `ModuleId`; the overrides, a map from modules, are a function likewise.
pub mod Overrides
pub mod Checks
pub mod Resolve
mod Tests
use smart_fec_tunnel.Base.{
  ℕ, Bool, true, false, not, ◌&&◌, ◌||◌, ◌==◌, if◌then◌else◌, Option, none, some, List, [], ◌∷◌,
  Result, ok, err, ◌>>=◌, ◌>>◌, bail_if,
}

abbrev pub current_schema_version : ℕ
current_schema_version = 1

pub data Profile : Type 0 where
  standard enhanced low_resource laboratory : Profile

pub data ModuleId : Type 0 where
  tuic masque adaptive_fec pmtu direct_egress multi_warp stable_google_egress dns_doh : ModuleId
  dns_dot_fallback dns_doq observability automatic_rollback : ModuleId

-- The place in the derived order.
abbrev pub rank : ModuleId → ℕ
rank tuic = 0
rank masque = 1
rank adaptive_fec = 2
rank pmtu = 3
rank direct_egress = 4
rank multi_warp = 5
rank stable_google_egress = 6
rank dns_doh = 7
rank dns_dot_fallback = 8
rank dns_doq = 9
rank observability = 10
rank automatic_rollback = 11

abbrev pub same_module : ModuleId → ModuleId → Bool
same_module m n = rank m == rank n

abbrev pub all_modules : List ModuleId
all_modules =
    tuic ∷ masque ∷ adaptive_fec ∷ pmtu ∷ direct_egress ∷ multi_warp ∷ stable_google_egress
    ∷ dns_doh ∷ dns_dot_fallback ∷ dns_doq ∷ observability ∷ automatic_rollback ∷ []

-- ModuleId::dependencies
unfoldable pub dependencies : ModuleId → List ModuleId
dependencies adaptive_fec = tuic ∷ pmtu ∷ []
dependencies multi_warp = direct_egress ∷ []
dependencies stable_google_egress = direct_egress ∷ []
dependencies dns_dot_fallback = dns_doh ∷ []
dependencies dns_doq = direct_egress ∷ []
dependencies tuic = []
dependencies masque = []
dependencies pmtu = []
dependencies direct_egress = []
dependencies dns_doh = []
dependencies observability = []
dependencies automatic_rollback = []

pub data ModuleSetting : Type 0 where
  enabled disabled auto : ModuleSetting

pub record ServerConfig : Type 0 where
  pub bandwidth_mbps : ℕ
  pub public_tcp_port : ℕ
  pub public_udp_port : ℕ

abbrev pub Modules : Type 0
Modules = ModuleId → Bool

pub record ProductConfig : Type 0 where
  pub schema_version : ℕ
  pub profile : Profile
  pub server : ServerConfig
  pub modules : ModuleId → Option ModuleSetting

pub data ConfigError : Type 0 where
  unsupported_schema : ℕ → ℕ → ConfigError
  zero_bandwidth unsafe_public_port conflicting_transports : ConfigError
  missing_dependency : ModuleId → ModuleId → ConfigError
  experimental_module_outside_laboratory : ModuleId → ConfigError

abbrev pub is_member : ModuleId → List ModuleId → Bool
is_member m [] = false
is_member m (n ∷ ns) = same_module m n || is_member m ns

-- profile_defaults, in the source's order of listing.
abbrev pub profile_list : Profile → List ModuleId
profile_list standard =
    tuic ∷ adaptive_fec ∷ pmtu ∷ direct_egress ∷ dns_doh ∷ dns_dot_fallback ∷ observability
    ∷ automatic_rollback ∷ []
profile_list enhanced =
    tuic ∷ adaptive_fec ∷ pmtu ∷ direct_egress ∷ multi_warp ∷ stable_google_egress ∷ dns_doh
    ∷ dns_dot_fallback ∷ observability ∷ automatic_rollback ∷ []
profile_list low_resource =
    tuic ∷ adaptive_fec ∷ pmtu ∷ direct_egress ∷ dns_doh ∷ automatic_rollback ∷ []
profile_list laboratory =
    masque ∷ pmtu ∷ direct_egress ∷ dns_doh ∷ dns_doq ∷ observability ∷ automatic_rollback ∷ []

unfoldable pub profile_defaults : Profile → Modules
profile_defaults p m = is_member m (profile_list p)

-- ProductConfig::for_profile
unfoldable pub for_profile : Profile → ProductConfig
for_profile p = record {
  schema_version = current_schema_version;
  profile = p;
  server = record { bandwidth_mbps = 30; public_tcp_port = 443; public_udp_port = 443 };
  modules = λ m. none;
}

abbrev pub insert_module : ModuleId → Modules → Modules
insert_module m ms n = if same_module n m then true else ms n

abbrev pub remove_module : ModuleId → Modules → Modules
remove_module m ms n = if same_module n m then false else ms n

-- The `match setting`.
unfoldable pub set_module : Option ModuleSetting → ModuleId → Modules → Modules
set_module (some enabled) m resolved = insert_module m resolved
set_module (some disabled) m resolved = remove_module m resolved
set_module (some auto) m resolved = resolved
set_module none m resolved = resolved

-- The loop over the overrides.
unfoldable pub apply_settings :
    (ModuleId → Option ModuleSetting) → List ModuleId → Modules → Modules
unfolding set_module
apply_settings settings [] resolved = resolved
apply_settings settings (m ∷ ms) resolved =
    apply_settings settings ms (set_module (settings m) m resolved)

abbrev pub is_laboratory : Profile → Bool
is_laboratory laboratory = true
is_laboratory standard = false
is_laboratory enhanced = false
is_laboratory low_resource = false

-- The loop over the experimental modules.
unfoldable pub check_experimental :
    Profile → Modules → List ModuleId → Result ConfigError (Unit {0})
check_experimental profile resolved [] = ok tt
check_experimental profile resolved (m ∷ ms) = do
  bail_if (resolved m && not (is_laboratory profile)) (experimental_module_outside_laboratory m)
  check_experimental profile resolved ms

-- The inner loop over the dependencies of one module.
unfoldable pub check_module : ModuleId → Modules → List ModuleId → Result ConfigError (Unit {0})
check_module m resolved [] = ok tt
check_module m resolved (d ∷ ds) = do
  bail_if (not (resolved d)) (missing_dependency m d)
  check_module m resolved ds

-- The loop over the resolved modules, in order.
unfoldable pub check_dependencies : Modules → List ModuleId → Result ConfigError (Unit {0})
unfolding check_module
check_dependencies resolved [] = ok tt
check_dependencies resolved (m ∷ ms) = do
  if resolved m then check_module m resolved (dependencies m) else ok tt
  check_dependencies resolved ms

-- ProductConfig::validate_scalar_fields
unfoldable pub validate_scalar_fields : ProductConfig → Result ConfigError (Unit {0})
validate_scalar_fields c = do
  bail_if (not (c.schema_version == current_schema_version))
      (unsupported_schema c.schema_version current_schema_version)
  bail_if (c.server.bandwidth_mbps == 0) zero_bandwidth
  bail_if (c.server.public_tcp_port == 0 || c.server.public_udp_port == 0) unsafe_public_port
  ok tt

-- The modules before the checks.
unfoldable pub configured : ProductConfig → Modules
unfolding apply_settings profile_defaults
configured c = apply_settings c.modules all_modules (profile_defaults c.profile)

-- ProductConfig::resolve_modules
unfoldable pub resolve_modules : ProductConfig → Result ConfigError Modules
unfolding validate_scalar_fields configured check_experimental check_dependencies
resolve_modules c = do
  validate_scalar_fields c
  let resolved = configured c
  bail_if (resolved tuic && resolved masque) conflicting_transports
  check_experimental c.profile resolved (masque ∷ dns_doq ∷ [])
  check_dependencies resolved all_modules
  ok resolved
