-- ===== src/Gateway/Router.antt =====
-- sdks/typescript/src/gateway/router.ts: the state of the router, the circuit breaker for the queries for
-- manifests, and what a settled query does. The manifests are those of mesh/node.ts. Queries and
-- signatures are a library's: the answers are arguments.
pub mod Breaker
pub mod Tools
pub mod Tokens
pub mod Resources
pub mod Route
pub mod Discovery
pub mod Calls
pub mod Dispatch
mod Tests
use Prim.Native.String.{◌++◌}
use neural_mesh_protocol.Prelude.{
  ℕ, zero, suc, ◌+◌, ◌-◌, ◌*◌, ◌^◌, min, max, String, Bool, true, false, not, ◌&&◌, ◌||◌, Option,
  none, some, List, [], ◌∷◌, any, ltb, leb, ◌==◌, str_eq, if◌then◌else◌,
}
use neural_mesh_protocol.Prelude.Json.{Entries}
use neural_mesh_protocol.Prelude.Assoc.{Assoc, has, lookup, insert, remove}

pub record ManifestTool : Type 0 where
  pub name : String
  pub description : Option String
  pub input_schema : Option Entries

pub record ManifestResource : Type 0 where
  pub name : String
  pub uri : String
  pub description : Option String
  pub mime_type : Option String
  pub text : Option String

pub record Taxonomy : Type 0 where
  pub domain : String
  pub clearance_tier : ℕ
  pub execution_types : List String

-- `LiopManifest`; a peer may leave out `serverInfo`.
pub record LiopManifest : Type 0 where
  pub grpc_port : ℕ
  pub tools : List ManifestTool
  -- a manifest that a peer sends may lack them: it is JSON that is not checked
  pub resources : Option (List ManifestResource)
  pub server_name : Option String
  pub taxonomy : Option Taxonomy
  pub auth_required : Bool
  pub token_slug : Option String
  pub pqc_signature : Option String
  pub pqc_public_key : Option String

pub record CachedManifest : Type 0 where
  pub manifest : LiopManifest
  pub cached_at : ℕ

-- An entry of `manifestFailureState`.
pub record FailureState : Type 0 where
  pub failures : ℕ
  pub cooldown_until : ℕ
  pub last_skip_log_at : ℕ

pub record LiopMcpRouter : Type 0 where
  pub manifest_cache : Assoc CachedManifest
  pub manifest_failure_state : Assoc FailureState
  pub mesh_agent_token : Option String

-- `MANIFEST_FAILURE_BASE_COOLDOWN_MS`, `MANIFEST_FAILURE_MAX_COOLDOWN_MS`,
-- `MANIFEST_SKIP_LOG_THROTTLE_MS` and `MANIFEST_CACHE_TTL_S`
abbrev base_cooldown_ms : ℕ
base_cooldown_ms = 15000

abbrev max_cooldown_ms : ℕ
max_cooldown_ms = 300000

abbrev pub skip_log_throttle_ms : ℕ
skip_log_throttle_ms = 30000

abbrev manifest_cache_ttl_s : ℕ
manifest_cache_ttl_s = 300

-- a state that cools down, and a log line at most every 30 seconds
abbrev pub skip_state :
    (now : ℕ) (peer_id : String)
    → Option FailureState
    → Assoc FailureState
    → Bool × Assoc FailureState
skip_state now peer_id none states = (false, states)
skip_state now peer_id (some state) states =
    if leb state.cooldown_until now
    then (false, states)
    else if ltb (state.last_skip_log_at + skip_log_throttle_ms) now
    then (true, insert peer_id (record state { last_skip_log_at = now }) states)
    else (true, states)

-- `shouldSkipManifestQuery`
unfoldable pub should_skip_manifest_query :
    (now : ℕ) (peer_id : String) → Assoc FailureState → Bool × Assoc FailureState
should_skip_manifest_query now peer_id states =
    skip_state now peer_id (lookup peer_id states) states

-- `recordManifestQuerySuccess`
unfoldable pub record_manifest_query_success :
    (peer_id : String) → Assoc FailureState → Assoc FailureState
record_manifest_query_success peer_id states = remove peer_id states

-- `prev?.failures || 0`
abbrev pub failures_of : Option FailureState → ℕ
failures_of none = 0
failures_of (some prev) = prev.failures

abbrev pub backoff : (failures : ℕ) → ℕ
backoff failures = min (base_cooldown_ms * 2 ^ (failures - 1)) max_cooldown_ms

-- `recordManifestQueryFailure`
unfoldable pub record_manifest_query_failure :
    (now : ℕ) (peer_id : String) → Assoc FailureState → Assoc FailureState
record_manifest_query_failure now peer_id states =
    let failures : ℕ = failures_of (lookup peer_id states) + 1 in
    insert peer_id
      (record {
        failures = failures;
        cooldown_until = now + backoff failures;
        last_skip_log_at = 0;
      })
      states

-- A query for a manifest that has settled.
pub data QueryResult : Type 0 where
  found : (peer_id : String) → LiopManifest → QueryResult
  not_found : (peer_id : String) → QueryResult
  rejected : QueryResult

-- `manifest.pqcSignature && manifest.pqcPublicKey`, and the check of the signature
abbrev pub is_tampered :
    (verify : LiopManifest → String → String → Bool)
    → LiopManifest
    → Option String
    → Option String
    → Bool
is_tampered verify manifest (some signature) (some key) =
    not (str_eq signature "") && not (str_eq key "") && not (verify manifest signature key)
is_tampered verify manifest _ _ = false

-- the loop over the settled queries, for one of them
unfoldable pub settle :
    (verify : LiopManifest → String → String → Bool) (now : ℕ)
    → QueryResult
    → LiopMcpRouter
    → LiopMcpRouter
unfolding record_manifest_query_success record_manifest_query_failure
settle verify now (found peer_id manifest) r =
    if is_tampered verify manifest manifest.pqc_signature manifest.pqc_public_key
    then record r {
      manifest_failure_state = record_manifest_query_failure now peer_id r.manifest_failure_state;
    }
    else record r {
      manifest_cache =
          insert peer_id (record { manifest = manifest; cached_at = now }) r.manifest_cache;
      manifest_failure_state = record_manifest_query_success peer_id r.manifest_failure_state;
    }
settle verify now (not_found peer_id) r = record r {
  manifest_failure_state = record_manifest_query_failure now peer_id r.manifest_failure_state;
}
settle verify now rejected r = r

-- a manifest that is not asked for again yet
abbrev pub is_fresh : (now : ℕ) → Option CachedManifest → Bool
is_fresh now none = false
is_fresh now (some cached) = ltb now (cached.cached_at + manifest_cache_ttl_s * 1000)
