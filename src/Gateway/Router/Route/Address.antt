-- ===== src/Gateway/Router/Route/Address.antt =====
-- sdks/typescript/src/gateway/router.ts: the address that the loop over a peer's addresses picks.
use neural_mesh_protocol.Prelude.{
  ℕ, String, ◌≡◌, refl, ap, ◌∙◌, Option, none, some, List, [], ◌∷◌, any, if◌then◌else◌, Bool-cases,
  Option-cases, inl, inr,
}
use neural_mesh_protocol.Gateway.Router.{LiopManifest}
use neural_mesh_protocol.Gateway.Router.Tokens.{Environment, provider_name}
use neural_mesh_protocol.Gateway.Router.Route.{
  should_remap_grpc_ports, published_port, advertised_ip, is_local_ip, at_port, or_first,
  pick_address, or_loopback, target_address,
}

-- the addresses of version 4, in order; one may be cut off after its "ip4"
abbrev add_ip : Option (Option String) → List (Option String) → List (Option String)
add_ip none ips = ips
add_ip (some ip) ips = ip ∷ ips

abbrev pub advertised_ips : List String → List (Option String)
advertised_ips [] = []
advertised_ips (addr ∷ addrs) = add_ip (advertised_ip addr) (advertised_ips addrs)

abbrev pub first_host : List (Option String) → Option String
first_host [] = some "127.0.0.1"
first_host (ip ∷ ips) = ip

abbrev or_host : Option String → List (Option String) → (grpc_port : ℕ) → Option String
or_host (some target) ips grpc_port = some target
or_host none [] grpc_port = none
or_host none (ip ∷ ips) grpc_port = some (at_port ip grpc_port)

or_host-or_first :
    (target : Option String) (ip : Option String) (ips : List (Option String)) (port : ℕ)
    → or_host (or_first target (at_port ip port)) ips port ≡ or_host target (ip ∷ ips) port
or_host-or_first none ip ips port = refl
or_host-or_first (some target) ip ips port = refl

module _ (interfaces : List String) (port : ℕ) where
  abbrev picked : (target : Option String) → List (Option String) → Option String
  picked target ips =
      if any (is_local_ip interfaces) ips
      then some (at_port (some "127.0.0.1") port)
      else or_host target ips port

  picked-nil : (target : Option String) → target ≡ picked target []
  picked-nil none = refl
  picked-nil (some t) = refl

  pick_address-eq :
      (target : Option String) (addrs : List String)
      → pick_address interfaces port target addrs ≡ picked target (advertised_ips addrs)
  unfolding pick_address
  pick_address-eq target [] = picked-nil target
  pick_address-eq target (addr ∷ addrs) = elim (Option-cases (advertised_ip addr)) [
    | inl no_ip ↦ rw (no_ip, pick_address) (pick_address-eq target addrs)
    | inr (ip, has_ip) ↦ elim (Bool-cases (is_local_ip interfaces ip)) [
      | inl local ↦ rw (has_ip, pick_address, local) refl
      | inr remote ↦
          rw (has_ip, pick_address, remote)
            (pick_address-eq (or_first target (at_port ip port)) addrs
              ∙ ap
                  (λ o.
                    if any (is_local_ip interfaces) (advertised_ips addrs)
                    then some (at_port (some "127.0.0.1") port)
                    else o)
                  (or_host-or_first target ip (advertised_ips addrs) port))
    ]
  ]

or_loopback-picked :
    (interfaces : List String) (port : ℕ) (ips : List (Option String))
    → or_loopback (picked interfaces port none ips) port
      ≡ at_port (if any (is_local_ip interfaces) ips then some "127.0.0.1" else first_host ips) port
or_loopback-picked interfaces port [] = refl
or_loopback-picked interfaces port (ip ∷ ips) =
    elim (Bool-cases (any (is_local_ip interfaces) (ip ∷ ips))) [
      | inl here ↦ rw here refl
      | inr elsewhere ↦ rw elsewhere refl
    ]

-- A remote peer is called at the loopback address if the ports are remapped, if one of its addresses
-- is of this machine, or if it has no address of version 4, and otherwise at its first one; the port
-- is the published one if the ports are remapped, and otherwise the given one.
pub target_address-eq :
    (env : Environment) (interfaces : List String) (manifest : Option LiopManifest)
    (tool_name : String) (port : ℕ) (addrs : List String)
    → target_address env interfaces manifest tool_name port addrs ≡ (
        if should_remap_grpc_ports env addrs
        then at_port (some "127.0.0.1") (published_port (provider_name manifest "") tool_name port)
        else at_port
            (if any (is_local_ip interfaces) (advertised_ips addrs)
              then some "127.0.0.1"
              else first_host (advertised_ips addrs))
            port)
unfolding target_address
target_address-eq env interfaces manifest tool_name port addrs =
    elim (Bool-cases (should_remap_grpc_ports env addrs)) [
      | inl remapped ↦ rw remapped refl
      | inr direct ↦ rw direct (
          ap (λ o. or_loopback o port) (pick_address-eq interfaces port none addrs)
          ∙ or_loopback-picked interfaces port (advertised_ips addrs))
    ]
