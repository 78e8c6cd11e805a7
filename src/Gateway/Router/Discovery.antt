-- ===== src/Gateway/Router/Discovery.antt =====
-- sdks/typescript/src/gateway/router.ts: refreshManifestCache, from the peers that the mesh has found on.
pub mod Attested
mod Tests
use neural_mesh_protocol.Prelude.{
  ℕ, String, Bool, false, not, ◌&&◌, Option, none, some, List, [], ◌∷◌, map, all, str_eq,
  if◌then◌else◌,
}
use neural_mesh_protocol.Prelude.Assoc.{Assoc, lookup}
use neural_mesh_protocol.Gateway.Router.{
  LiopManifest, CachedManifest, FailureState, LiopMcpRouter, QueryResult, found, not_found,
  rejected, should_skip_manifest_query, settle, is_fresh,
}

-- `queryManifest` of a peer: it is rejected, finds nothing, or gives a manifest.
abbrev pub QueryManifest : Type 0
QueryManifest = (peer_id : String) → Option (Option LiopManifest)

-- `eligiblePeers`: not this node, not cooling down, and with no fresh manifest; to ask the breaker
-- may note a log line
unfoldable pub eligible_peers :
    (now : ℕ) (self_id : String)
    → Assoc CachedManifest
    → List String
    → Assoc FailureState
    → List String × Assoc FailureState
eligible_peers now self_id cache [] states = ([], states)
eligible_peers now self_id cache (peer_id ∷ peers) states =
    let is_self = str_eq peer_id self_id in
    let (skips, asked) = should_skip_manifest_query now peer_id states in
    let (rest, states') =
      eligible_peers now self_id cache peers (if is_self then states else asked) in
    if not is_self && (not skips && not (is_fresh now (lookup peer_id cache)))
    then (peer_id ∷ rest, states')
    else (rest, states')

-- a settled query
abbrev query_result : (peer_id : String) → Option (Option LiopManifest) → QueryResult
query_result peer_id none = rejected
query_result peer_id (some none) = not_found peer_id
query_result peer_id (some (some manifest)) = found peer_id manifest

-- the fast path: a cache that is filled and fresh
abbrev pub all_fresh : (now : ℕ) → Assoc CachedManifest → Bool
all_fresh now [] = false
all_fresh now (e ∷ es) = all (λ (p : String × CachedManifest). is_fresh now (some p.1)) (e ∷ es)

module _ (verify : LiopManifest → String → String → Bool) where
  -- the loop over the settled queries
  unfoldable pub settle_all : (now : ℕ) → List QueryResult → LiopMcpRouter → LiopMcpRouter
  settle_all now [] r = r
  settle_all now (result ∷ results) r = settle_all now results (settle verify now result r)

  -- the queries of a refresh, all at one time
  unfoldable pub query_all :
      (now : ℕ) (self_id : String)
      → QueryManifest
      → (provider_ids : List String) → LiopMcpRouter
      → LiopMcpRouter
  query_all now self_id query provider_ids r =
      let (peers, states) =
        eligible_peers now self_id r.manifest_cache provider_ids r.manifest_failure_state in
      settle_all now (map (λ p. query_result p (query p)) peers)
        (record r { manifest_failure_state = states })

  -- `refreshManifestCache`, for the providers that the mesh finds
  unfoldable pub refresh_manifest_cache :
      (silent : Bool) (now : ℕ) (self_id : String)
      → QueryManifest
      → (provider_ids : List String) → LiopMcpRouter
      → LiopMcpRouter
  unfolding query_all
  refresh_manifest_cache silent now self_id query provider_ids r =
      if not silent && all_fresh now r.manifest_cache
      then r
      else query_all now self_id query provider_ids r
