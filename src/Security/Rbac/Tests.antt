-- ===== src/Security/Rbac/Tests.antt =====
-- sdks/typescript/src/security/rbac.ts on concrete requests.
use neural_mesh_protocol.Prelude.{◌≡◌, ◌↔◌, refl, none, some, [], ◌∷◌}
use neural_mesh_protocol.Prelude.Assoc.{lookup}
use neural_mesh_protocol.Security.Rbac.{
  AuthInfo, allowed, denied, returns, type_error, method_scopes, scope_map, prototype_functions,
  is_public, needed_scopes, missing_scopes, authorize_request,
}
use neural_mesh_protocol.Security.Rbac.Laws.{IsAuthorized, authorize_iff}

rbac : Unit {0}
unfolding authorize_request method_scopes scope_map prototype_functions is_public needed_scopes
    missing_scopes lookup
rbac = tt

abbrev analyst : AuthInfo
analyst = record {
  token = "t";
  client_id = "agent";
  scopes = "liop:tools:list" ∷ "liop:tools:call" ∷ [];
  expires_at = none;
}

requests :
    (authorize_request "ping" none none ≡ returns allowed)
    × (authorize_request "tools/call" (some analyst) none ≡ returns allowed)
    × (authorize_request "tools/call" none none
        ≡ returns (denied "Authentication required for method: tools/call"))
    × (authorize_request "prompts/get" (some analyst) none
        ≡ returns (denied "Insufficient scopes for prompts/get. Missing: liop:schema:read"))
    × (authorize_request "x" (some analyst) none
        ≡ returns (denied "Unknown method: x. Access denied (fail-closed)."))
    × (authorize_request "toString" none none ≡ returns allowed)
    × (authorize_request "constructor" (some analyst) none ≡ type_error)
unfolding rbac
requests = (refl, refl, refl, refl, refl, refl, refl)

authorize_iff_example :
    (authorize_request "tools/call" (some analyst) none ≡ returns allowed)
    ↔ IsAuthorized "tools/call" (some analyst) none
authorize_iff_example = authorize_iff "tools/call" (some analyst) none
