-- ===== src/Gateway/Router/Route.antt =====
-- sdks/typescript/src/gateway/router.ts: the address at which a remote peer is called.
pub mod Address
use Prim.Native.String.{◌++◌}
use neural_mesh_protocol.Prelude.{
  ℕ, zero, suc, String, Bool, true, false, ◌||◌, Option, none, some, List, [], ◌∷◌, any, str_eq,
  if◌then◌else◌, includes, decimal, to_lower_case,
}
use neural_mesh_protocol.Prelude.Assoc.{has}
use neural_mesh_protocol.Prelude.Split.{split}
use neural_mesh_protocol.Gateway.Router.{LiopManifest}
use neural_mesh_protocol.Gateway.Router.Tokens.{Environment, provider_name}

-- `process.env[name] === value`
abbrev env_is : Environment → (name value : String) → Bool
env_is env name value = elim (env name) [ none ↦ false | some v ↦ str_eq v value ]

is_docker_demo : (nexus_url : Option String) → Bool
is_docker_demo none = false
is_docker_demo (some nexus_url) =
    any (includes nexus_url)
      ("127.0.0.1:13000" ∷ "localhost:13000" ∷ "127.0.0.1:13001" ∷ "localhost:13001" ∷ [])

abbrev docker_ports : List String
docker_ports = "13001" ∷ "13003" ∷ "13004" ∷ "13005" ∷ "13011" ∷ "13021" ∷ "13031" ∷ []

-- `shouldRemapGrpcPorts`
unfoldable pub should_remap_grpc_ports : Environment → (addrs : List String) → Bool
unfolding is_docker_demo
should_remap_grpc_ports env addrs =
    env_is env "LIOP_USE_PUBLISHED_GRPC_PORTS" "1"
    || env_is env "LIOP_DOCKER_MAP" "true"
    || env_is env "LIOP_DEV_MODE" "true"
    || env_is env "NODE_ENV" "development"
    || env_is env "NODE_ENV" "test"
    || is_docker_demo (env "LIOP_NEXUS_URL")
    || any (λ a. any (includes a) docker_ports) addrs

-- the published port of a known provider
unfoldable pub published_port : (provider tool_name : String) → (grpc_port : ℕ) → ℕ
published_port provider tool_name grpc_port =
    let tn = to_lower_case tool_name in
    if includes provider "vault" || includes tn "medical"
    then 13011
    else if includes provider "bank" || includes tn "bank"
    then 13021
    else if includes provider "oracle" || includes tn "hft" || includes tn "market"
    then 13031
    else grpc_port

-- the part after the first "ip4"; it is undefined at the end
abbrev after_ip4 : List String → Option (Option String)
after_ip4 [] = none
after_ip4 (part ∷ []) = if str_eq part "ip4" then some none else none
after_ip4 (part ∷ next ∷ parts) =
    let later = after_ip4 (next ∷ parts) in if str_eq part "ip4" then some (some next) else later

-- `parts[ipIdx + 1]` of an address with an "ip4"
unfoldable pub advertised_ip : (addr : String) → Option (Option String)
advertised_ip addr = let (part, parts) = split b'/' addr in after_ip4 (part ∷ parts)

-- this machine: the loopback address, or one of its own
abbrev pub is_local_ip : (local_interfaces : List String) → Option String → Bool
is_local_ip local_interfaces none = false
is_local_ip local_interfaces (some ip) = str_eq ip "127.0.0.1" || has ip local_interfaces

-- `${host}:${grpcPort}`
abbrev pub at_port : (host : Option String) → (grpc_port : ℕ) → String
at_port none grpc_port = "undefined:" ++ decimal grpc_port
at_port (some host) grpc_port = host ++ (":" ++ decimal grpc_port)

abbrev pub or_first : Option String → String → Option String
or_first none addr = some addr
or_first (some target) addr = some target

-- the loop over the advertised addresses
unfoldable pub pick_address :
    (local_interfaces : List String) (grpc_port : ℕ) (target_addr : Option String)
    → List String
    → Option String
pick_address local_interfaces grpc_port target_addr [] = target_addr
pick_address local_interfaces grpc_port target_addr (addr ∷ addrs) = elim (advertised_ip addr) [
  | none ↦ pick_address local_interfaces grpc_port target_addr addrs
  | some ip ↦ elim (is_local_ip local_interfaces ip) [
    | true ↦ some (at_port (some "127.0.0.1") grpc_port)
    | false ↦
        pick_address local_interfaces grpc_port (or_first target_addr (at_port ip grpc_port)) addrs
  ]
]

abbrev pub or_loopback : Option String → (grpc_port : ℕ) → String
or_loopback none grpc_port = at_port (some "127.0.0.1") grpc_port
or_loopback (some target_addr) grpc_port = target_addr

-- `targetAddr`, for the port of the manifest or the default one
unfoldable pub target_address :
    Environment
    → (local_interfaces : List String) (manifest : Option LiopManifest) (tool_name : String)
    → (grpc_port : ℕ) (addrs : List String) → String
unfolding provider_name
target_address env local_interfaces manifest tool_name grpc_port addrs =
    if should_remap_grpc_ports env addrs
    then at_port (some "127.0.0.1") (published_port (provider_name manifest "") tool_name grpc_port)
    else or_loopback (pick_address local_interfaces grpc_port none addrs) grpc_port
