-- ===== src/Gateway/Router/Tests.antt =====
-- sdks/typescript/src/gateway/router.ts: the circuit breaker on concrete histories.
use neural_mesh_protocol.Prelude.{String, Bool, true, false, ◌≡◌, refl, none, some, List, [], ◌∷◌}
use neural_mesh_protocol.Prelude.Assoc.{lookup, insert, remove}
use neural_mesh_protocol.Gateway.Router.{
  LiopManifest, LiopMcpRouter, found, not_found, should_skip_manifest_query,
  record_manifest_query_success, record_manifest_query_failure, settle, is_fresh,
}
use neural_mesh_protocol.Gateway.Router.Breaker.{
  Event, asks, settles, cooldown, step, run, should_skip-run,
}

router : Unit {0}
unfolding lookup insert remove should_skip_manifest_query record_manifest_query_success
    record_manifest_query_failure settle cooldown step run
router = tt

abbrev unsigned : LiopManifest
unsigned = record {
  grpc_port = 50051;
  tools = record { name = "query"; description = none; input_schema = none } ∷ [];
  resources = some [];
  server_name = some "Bank";
  taxonomy = none;
  auth_required = false;
  token_slug = none;
  pqc_signature = none;
  pqc_public_key = none;
}

abbrev signed : LiopManifest
signed = record unsigned { pqc_signature = some "s"; pqc_public_key = some "k" }

-- No signature is valid.
abbrev verify : LiopManifest → String → String → Bool
verify manifest signature key = false

abbrev new_router : LiopMcpRouter
new_router = record { manifest_cache = []; manifest_failure_state = []; mesh_agent_token = none }

abbrev two_failures : List Event
two_failures = settles 1000 (not_found "p") ∷ asks 2000 "p" ∷ settles 20000 (found "p" signed) ∷ []

should_skip-run_example :
    (should_skip_manifest_query 49999 "p"
      (run verify two_failures new_router).manifest_failure_state).0
    ≡ true
unfolding router
should_skip-run_example = should_skip-run verify two_failures 49999 "p" new_router refl

-- A manifest without a signature is taken, and ends the cooldown.
unsigned_manifests :
    ((settle verify 5
        (found "p" unsigned)
        (run verify two_failures new_router)).manifest_failure_state
      ≡ [])
    × (is_fresh 300004 (lookup "p" (settle verify 5 (found "p" unsigned) new_router).manifest_cache)
        ≡ true)
    × (is_fresh 300005 (lookup "p" (settle verify 5 (found "p" unsigned) new_router).manifest_cache)
        ≡ false)
unfolding router
unsigned_manifests = (refl, refl, refl)
