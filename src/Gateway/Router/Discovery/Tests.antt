-- ===== src/Gateway/Router/Discovery/Tests.antt =====
-- sdks/typescript/src/gateway/router.ts: a refresh that asks three peers.
use neural_mesh_protocol.Prelude.{
  String, Bool, true, false, ◌≡◌, refl, none, some, [], ◌∷◌, str_eq, if◌then◌else◌,
}
use neural_mesh_protocol.Prelude.Assoc.{keys, lookup, insert, remove}
use neural_mesh_protocol.Gateway.Router.{
  LiopManifest, LiopMcpRouter, should_skip_manifest_query, record_manifest_query_success,
  record_manifest_query_failure, settle,
}
use neural_mesh_protocol.Gateway.Router.Discovery.{
  QueryManifest, eligible_peers, settle_all, query_all, refresh_manifest_cache,
}
use neural_mesh_protocol.Gateway.Router.Discovery.Attested.{
  IsAttested, refresh_manifest_cache-IsAttested,
}

refresh : Unit {0}
unfolding lookup insert remove should_skip_manifest_query record_manifest_query_success
    record_manifest_query_failure settle eligible_peers settle_all query_all refresh_manifest_cache
refresh = tt

abbrev manifest : (signature : String) → LiopManifest
manifest signature = record {
  grpc_port = 50051;
  tools = [];
  resources = some [];
  server_name = none;
  taxonomy = none;
  auth_required = false;
  token_slug = none;
  pqc_signature = some signature;
  pqc_public_key = some "key";
}

abbrev verify : LiopManifest → String → String → Bool
verify m signature key = str_eq signature "good"

abbrev query : QueryManifest
query peer =
    if str_eq peer "A" then some (some (manifest "good")) else some (some (manifest "forged"))

abbrev router : LiopMcpRouter
router = record {
  manifest_cache = ("C", record { manifest = manifest "good"; cached_at = 900 }) ∷ [];
  manifest_failure_state = [];
  mesh_agent_token = none;
}

refresh_manifest_cache-IsAttested_example :
    IsAttested verify
      (refresh_manifest_cache verify true 1000 "SELF" query
        ("A" ∷ "B" ∷ "C" ∷ "SELF" ∷ [])
        router).manifest_cache
unfolding refresh
refresh_manifest_cache-IsAttested_example =
    refresh_manifest_cache-IsAttested verify true 1000 "SELF" query ("A" ∷ "B" ∷ "C" ∷ "SELF" ∷ [])
      router (refl, tt)

-- The forged manifest is dropped, and counts as a failure of its peer.
refreshed :
    let after =
      refresh_manifest_cache verify true 1000 "SELF" query ("A" ∷ "B" ∷ "C" ∷ "SELF" ∷ []) router in
    (keys after.manifest_cache ≡ "C" ∷ "A" ∷ []) × (keys after.manifest_failure_state ≡ "B" ∷ [])
unfolding refresh
refreshed = (refl, refl)
