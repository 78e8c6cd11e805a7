-- ===== src/Gateway/Router/Calls/Tests.antt =====
-- sdks/typescript/src/gateway/router.ts: calls of two remote nodes.
use neural_mesh_protocol.Prelude.{
  true, false, ◌≡◌, refl, none, some, [], ◌∷◌, str_eq, if◌then◌else◌, to_lower_case, to_upper_case,
  decimal, includes, any,
}
use neural_mesh_protocol.Prelude.Json.{object, empty, member_of}
use neural_mesh_protocol.Prelude.Split.{split, ends_with, last_chars}
use neural_mesh_protocol.Prelude.Assoc.{Assoc, lookup, insert}
use neural_mesh_protocol.Gateway.Router.{LiopManifest, CachedManifest, LiopMcpRouter}
use neural_mesh_protocol.Gateway.Router.Tokens.{
  Environment, node_token, shared_token, get_or_acquire_mesh_agent_token, provider_name, clean_name,
  authentication_required,
}
use neural_mesh_protocol.Gateway.Router.Route.{
  should_remap_grpc_ports, published_port, advertised_ip, is_local_ip, at_port, pick_address,
  target_address,
}
use neural_mesh_protocol.Gateway.Router.Route.Address.{
  advertised_ips, first_host, target_address-eq,
}
use neural_mesh_protocol.Gateway.Router.Calls.{
  stream_end, Mesh, World, calls, refuses, requires_auth, cached_for, embedded_args, proxy_logic,
  perform_transcoding, route_to_remote_provider, responds_with, reply_response,
}
use neural_mesh_protocol.Gateway.Router.Calls.Token.{
  HasToken, route_to_remote_provider-HasToken, direct_query_unverified,
}

call : Unit {0}
unfolding lookup insert split ends_with last_chars node_token shared_token
    get_or_acquire_mesh_agent_token provider_name clean_name authentication_required
    should_remap_grpc_ports published_port advertised_ip pick_address target_address embedded_args
    proxy_logic perform_transcoding route_to_remote_provider reply_response to_lower_case
    to_upper_case decimal member_of includes
call = tt

abbrev manifest : LiopManifest
manifest = record {
  grpc_port = 50051;
  tools = [];
  resources = some [];
  server_name = some "City Clinic";
  taxonomy = none;
  auth_required = true;
  token_slug = none;
  pqc_signature = some "s";
  pqc_public_key = some "k";
}

abbrev env : Environment
env name = if str_eq name "LIOP_TOKEN_CLINIC" then some "secret" else none

abbrev world : World
world = record {
  now = 1000;
  env = env;
  token_endpoint = λ url audience client secret. none;
  local_interfaces = "10.0.0.7" ∷ [];
  default_rpc_port = 50051;
  verify_manifest = λ m s k. false;
  verify_zk_receipt = λ logic last output. some false;
  stringify = λ v. "{}";
  parse = λ text. if str_eq text "{}" then some (object empty) else none;
}

abbrev mesh : Mesh
mesh = record {
  self_id = "SELF";
  query_manifest = λ peer. some (some manifest);
  manifest_providers = "12D3KooWAAAA" ∷ [];
  find_providers = λ tool attempt. [];
  resolve_peer = λ peer. "/ip4/192.0.2.1/tcp/4001" ∷ "/ip4/10.0.0.7/tcp/4001" ∷ [];
  execute = λ c. stream_end ("{}" ∷ []) none;
}

abbrev router : Assoc CachedManifest → LiopMcpRouter
router cache = record {
  manifest_cache = cache;
  manifest_failure_state = [];
  mesh_agent_token = none;
}

abbrev clinic : CachedManifest
clinic = record { manifest = record manifest { token_slug = some "CLINIC" }; cached_at = 0 }

route_to_remote_provider-HasToken_example :
    HasToken
      (requires_auth (
        cached_for "12D3KooWAAAA"
          (route_to_remote_provider world mesh "query" "12D3KooWAAAA" empty none (router [])).1))
      (route_to_remote_provider world mesh "query" "12D3KooWAAAA" empty none (router [])).0
route_to_remote_provider-HasToken_example =
    route_to_remote_provider-HasToken world mesh "query" "12D3KooWAAAA" empty none (router [])

direct_query_unverified_example :
    cached_for "12D3KooWAAAA"
      (route_to_remote_provider world mesh "query" "12D3KooWAAAA" empty none (router [])).1
    ≡ some manifest
unfolding call
direct_query_unverified_example =
    direct_query_unverified world mesh "query" "12D3KooWAAAA" empty none (router []) manifest refl
      refl

target_address-eq_example :
    target_address env
      ("10.0.0.7" ∷ [])
      (some manifest)
      "query"
      50051
      ("/ip4/192.0.2.1/tcp/4001" ∷ "/ip4/10.0.0.7/tcp/4001" ∷ [])
    ≡ (if should_remap_grpc_ports env ("/ip4/192.0.2.1/tcp/4001" ∷ "/ip4/10.0.0.7/tcp/4001" ∷ [])
        then at_port
            (some "127.0.0.1")
            (published_port (provider_name (some manifest) "") "query" 50051)
        else at_port
            (if any
                (is_local_ip ("10.0.0.7" ∷ []))
                (advertised_ips ("/ip4/192.0.2.1/tcp/4001" ∷ "/ip4/10.0.0.7/tcp/4001" ∷ []))
              then some "127.0.0.1"
              else first_host
                  (advertised_ips ("/ip4/192.0.2.1/tcp/4001" ∷ "/ip4/10.0.0.7/tcp/4001" ∷ [])))
            50051)
target_address-eq_example =
    target_address-eq env ("10.0.0.7" ∷ []) (some manifest) "query" 50051
      ("/ip4/192.0.2.1/tcp/4001" ∷ "/ip4/10.0.0.7/tcp/4001" ∷ [])

refused_without_token :
    (route_to_remote_provider world mesh "query" "12D3KooWabcd" empty none (router [])).0
    ≡ refuses
        "Authentication Required: The restricted node (city clinic) requires an access token. Please define the LIOP_TOKEN_CITY_CLINIC or LIOP_TOKEN_KOOWABCD environment variable on your agent/client host."
unfolding call
refused_without_token = refl

called_on_this_machine :
    (route_to_remote_provider world mesh "query" "P" empty
      (some "t")
      (router (("P", clinic) ∷ []))).0
    ≡ calls (record {
      target_addr = "127.0.0.1:50051";
      peer_id = "P";
      tool_name = "query";
      token = some "t";
      proxy_logic = "return { \"__liop_proxy_tool\": \"query\", \"__liop_proxy_args\": {} };";
    })
unfolding call
called_on_this_machine = refl

-- A response that says it is an error needs no receipt, and is no error for the client.
unaudited :
    reply_response world none "logic" (
      stream_end
        ("{}" ∷ [])
        (some (record { is_error = true; cryptographic_proof = ""; zk_receipt = "" })))
    ≡ some (responds_with none (object empty))
unfolding call
unaudited = refl
