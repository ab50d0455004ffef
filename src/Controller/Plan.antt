-- ===== src/Controller/Plan.antt =====
-- src/controller.rs, `Planner`, and the program src/bin/smart-gateway-controller.rs that runs it.
-- A port probe is a parameter; the program's own probe binds a socket, and what the system answers
-- is a parameter. What the program prints is not modelled.
pub mod Main
use Prim.Native.String.{String}
use smart_fec_tunnel.Base.{
  ℕ, Bool, true, false, not, ◌&&◌, ◌||◌, if◌then◌else◌, Option, none, some, List, [], ◌∷◌, ◌++◌,
  map, length, Result, ok, err, ◌>>=◌,
}
use smart_fec_tunnel.Config.{
  ModuleId, tuic, masque, all_modules, Modules, ProductConfig, ConfigError, Profile, for_profile,
  resolve_modules,
}

pub data TransportProtocol : Type 0 where
  tcp udp : TransportProtocol

pub data IpAddr : Type 0 where
  v4 v6 : ℕ → IpAddr

-- Ipv4Addr::UNSPECIFIED
abbrev pub unspecified : IpAddr
unspecified = v4 0

pub record PortBinding : Type 0 where
  pub address : IpAddr
  pub port : ℕ
  pub protocol : TransportProtocol
  pub owner : String

pub record PortConflict : Type 0 where
  pub requested : PortBinding
  pub current_owner : Option String

pub data IoError : Type 0 where
  addr_in_use : IoError
  other_error : ℕ → IoError

-- PortProbe::conflict
abbrev pub PortProbe : Type 0
PortProbe = PortBinding → Result IoError (Option PortConflict)

pub data PlanAction : Type 0 where
  enable_module : ModuleId → PlanAction
  bind_port : PortBinding → PlanAction
  stage_revision validate_candidate commit_revision : PlanAction

pub record DeploymentPlan : Type 0 where
  pub schema_version : ℕ
  pub modules : Modules
  pub actions : List PlanAction
  pub conflicts : List PortConflict

pub data PlanError : Type 0 where
  invalid_config : ConfigError → PlanError
  probe_failed : IoError → PlanError

abbrev pub transport_binding : ProductConfig → PortBinding
transport_binding c = record {
  address = unspecified;
  port = c.server.public_udp_port;
  protocol = udp;
  owner = "smart-gateway-transport";
}

abbrev pub public_binding : ProductConfig → PortBinding
public_binding c = record {
  address = unspecified;
  port = c.server.public_tcp_port;
  protocol = tcp;
  owner = "smart-gateway-public";
}

unfoldable pub requested_bindings : ProductConfig → Modules → List PortBinding
requested_bindings c ms =
    (if ms tuic || ms masque then transport_binding c ∷ [] else []) ++ public_binding c ∷ []

-- `map_err(PlanError::Config)`
abbrev pub map_err : {E F A : Type 0} → (E → F) → Result E A → Result F A
map_err f (ok a) = ok a
map_err f (err e) = err (f e)

-- The loop over the bindings.
unfoldable pub probe_all : PortProbe → List PortBinding → Result PlanError (List PortConflict)
probe_all probe [] = ok []
probe_all probe (b ∷ bs) = do
  found ← map_err probe_failed (probe b)
  conflicts ← probe_all probe bs
  ok (elim found [ none ↦ conflicts | some c ↦ c ∷ conflicts ])

-- The members of a set of modules, in order.
unfoldable pub members : Modules → List ModuleId → List ModuleId
members ms [] = []
members ms (m ∷ rest) = if ms m then m ∷ members ms rest else members ms rest

-- Planner::build
unfoldable pub build : PortProbe → ProductConfig → Result PlanError DeploymentPlan
unfolding probe_all requested_bindings members
build probe c = do
  modules ← map_err invalid_config (resolve_modules c)
  let bindings = requested_bindings c modules
  conflicts ← probe_all probe bindings
  ok (record {
    schema_version = c.schema_version;
    modules = modules;
    actions =
        map enable_module (members modules all_modules)
        ++ (map bind_port bindings ++ stage_revision ∷ validate_candidate ∷ commit_revision ∷ []);
    conflicts = conflicts;
  })

-- SocketProbe::conflict, from what `bind` answers.
unfoldable pub socket_probe : (PortBinding → Result IoError (Unit {0})) → PortProbe
socket_probe bind requested = elim (bind requested) [
  | ok _ ↦ ok none
  | err addr_in_use ↦ ok (some (record { requested = requested; current_owner = none }))
  | err (other_error n) ↦ err (other_error n)
]

-- Cli
pub record Cli : Type 0 where
  pub profile : Profile
  pub bandwidth_mbps : ℕ
  pub tcp_port : ℕ
  pub udp_port : ℕ

unfoldable pub cli_config : Cli → ProductConfig
unfolding for_profile
cli_config cli = record (for_profile cli.profile) {
  server = record {
    bandwidth_mbps = cli.bandwidth_mbps;
    public_tcp_port = cli.tcp_port;
    public_udp_port = cli.udp_port;
  };
}

pub data MainError : Type 0 where
  plan_failed : PlanError → MainError
  has_conflicts : ℕ → MainError

-- `main`: the plan, if nothing is in its way.
unfoldable pub main :
    (PortBinding → Result IoError (Unit {0})) → Cli → Result MainError DeploymentPlan
unfolding build socket_probe cli_config
main bind cli = do
  plan ← map_err plan_failed (build (socket_probe bind) (cli_config cli))
  elim plan.conflicts [ [] ↦ ok plan | c ∷ cs ↦ err (has_conflicts (length (c ∷ cs))) ]
