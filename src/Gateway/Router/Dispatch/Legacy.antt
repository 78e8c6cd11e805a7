-- ===== src/Gateway/Router/Dispatch/Legacy.antt =====
-- sdks/typescript/src/gateway/router.ts: what a legacy client is answered.
use neural_mesh_protocol.Prelude.{
  String, Bool, true, false, ◌≡◌, refl, Option, none, some, arith, str_eq, if_either,
}
use neural_mesh_protocol.Prelude.Json.{Json, member_of, is_truthy}
use neural_mesh_protocol.Prelude.Assoc.{lookup}
use neural_mesh_protocol.Security.Rbac.{
  AuthInfo, allowed, denied, Outcome, returns, type_error, authorize_request,
}
use neural_mesh_protocol.Gateway.Compat.{
  McpRequest, legacy, optional_member, detect_era, build_legacy_initialize_response,
  adapt_response_for_legacy_client, adapt_for_era,
}
use neural_mesh_protocol.Gateway.Compat.Era.{IsLegacyResult, adapt_result-IsLegacy}
use neural_mesh_protocol.Gateway.Router.{ManifestResource, LiopMcpRouter}
use neural_mesh_protocol.Gateway.Router.Calls.{World}
use neural_mesh_protocol.Gateway.Router.Dispatch.{
  ServerResult, value, throws, LiopServer, Dispatched, responds, silent, raised, pending, Method,
  initialize, initialized, cancelled, discover, ping, tools_list, tools_call, resources_list,
  resources_read, prompts_list, prompts_get, templates_list, listen, unknown, method_of, fails_with,
  all_resources,
}
use neural_mesh_protocol.Gateway.Router.Dispatch.Transcode.{or_empty, transcode_mcp_to_liop}
use neural_mesh_protocol.Gateway.Router.Dispatch.Handle.{
  answer, finish_call, from_cache, read_result, read_uri, find_cached, listed_resources, got_prompt,
  get_named, token_of_auth, handle, authorized, dispatch,
}

-- The result has none of the fields `resultType`, `ttlMs` and `cacheScope`.
abbrev pub IsLegacyDispatched : Dispatched → Type 0
IsLegacyDispatched (responds response) = IsLegacyResult response.result
IsLegacyDispatched silent = Unit
IsLegacyDispatched raised = Unit
IsLegacyDispatched pending = Unit

abbrev is_discover : Method → Bool
is_discover discover = true
is_discover initialize = false
is_discover _ = false

method_of-discover :
    (name : String) → str_eq "server/discover" name ≡ false → is_discover (method_of name) ≡ false
unfolding method_of lookup
method_of-discover name h = ground (arith, h)

module _ (request : McpRequest) (era : detect_era request ≡ legacy) where
  answer-IsLegacy : (result : Json) → IsLegacyDispatched (answer request result)
  unfolding adapt_for_era adapt_response_for_legacy_client
  answer-IsLegacy result = rw era (adapt_result-IsLegacy (some result))

  finish_call-IsLegacy :
      (called : Dispatched × LiopMcpRouter)
      → IsLegacyDispatched (finish_call (detect_era request) called).0
  unfolding adapt_for_era adapt_response_for_legacy_client
  finish_call-IsLegacy (responds response, r) = rw era (adapt_result-IsLegacy response.result)
  finish_call-IsLegacy (silent, r) = tt
  finish_call-IsLegacy (raised, r) = tt
  finish_call-IsLegacy (pending, r) = tt

  from_cache-IsLegacy :
      (message : String) (found : Option (Option ManifestResource))
      → IsLegacyDispatched (from_cache request message found)
  from_cache-IsLegacy message none = tt
  from_cache-IsLegacy message (some none) = tt
  from_cache-IsLegacy message (some (some r)) = answer-IsLegacy _

  listed-IsLegacy : (items : Option Json) → IsLegacyDispatched (listed_resources request items)
  listed-IsLegacy none = tt
  listed-IsLegacy (some items) = answer-IsLegacy _

  read_result-IsLegacy :
      (uri : Json) (r : LiopMcpRouter) (result : ServerResult)
      → IsLegacyDispatched (read_result request uri r result)
  read_result-IsLegacy uri r (value v) = answer-IsLegacy _
  read_result-IsLegacy uri r (throws message) =
      from_cache-IsLegacy message (find_cached uri r.manifest_cache)

  read_uri-IsLegacy :
      (server : LiopServer) (uri : Option Json) (r : LiopMcpRouter)
      → IsLegacyDispatched (read_uri server request uri r)
  read_uri-IsLegacy server none r = tt
  read_uri-IsLegacy server (some uri) r =
      if_either IsLegacyDispatched (is_truthy uri) _
        (responds (fails_with request.id "-32602" "Missing resource uri"))
        (read_result-IsLegacy uri r (server.read_resource uri)) tt

  got_prompt-IsLegacy : (result : ServerResult) → IsLegacyDispatched (got_prompt request result)
  got_prompt-IsLegacy (value v) = answer-IsLegacy _
  got_prompt-IsLegacy (throws message) = tt

  get_named-IsLegacy :
      (server : LiopServer) (name : Option Json)
      → IsLegacyDispatched (get_named server request name)
  get_named-IsLegacy server none = tt
  get_named-IsLegacy server (some name) =
      if_either IsLegacyDispatched (is_truthy name)
        (got_prompt request
          (server.get_prompt name (or_empty (optional_member "arguments" request.params))))
        (responds (fails_with request.id "-32602" "Missing prompt name")) (got_prompt-IsLegacy _) tt

  module _ (w : World) (server : LiopServer) where
    handle-IsLegacy :
        (method : Method) (token : Option String) (r : LiopMcpRouter)
        → is_discover method ≡ false
        → IsLegacyDispatched (handle w server method request token r).0
    unfolding handle build_legacy_initialize_response member_of
    handle-IsLegacy initialize token r h = (refl, refl, refl)
    handle-IsLegacy initialized token r h = tt
    handle-IsLegacy cancelled token r h = tt
    handle-IsLegacy discover token r h = absurd (cc h)
    handle-IsLegacy ping token r h = (refl, refl, refl)
    handle-IsLegacy tools_list token r h = answer-IsLegacy _
    handle-IsLegacy tools_call token r h =
        finish_call-IsLegacy (transcode_mcp_to_liop w server request.id request.params token r)
    handle-IsLegacy resources_list token r h = listed-IsLegacy (all_resources server r)
    handle-IsLegacy resources_read token r h =
        read_uri-IsLegacy server (optional_member "uri" request.params) r
    handle-IsLegacy prompts_list token r h = answer-IsLegacy _
    handle-IsLegacy prompts_get token r h =
        get_named-IsLegacy server (optional_member "name" request.params)
    handle-IsLegacy templates_list token r h = answer-IsLegacy _
    handle-IsLegacy listen token r h = answer-IsLegacy _
    handle-IsLegacy unknown token r h = tt

    authorized-IsLegacy :
        (auth : Option AuthInfo) (outcome : Outcome) (r : LiopMcpRouter)
        → str_eq "server/discover" request.method ≡ false
        → IsLegacyDispatched (authorized w server request auth outcome r).0
    authorized-IsLegacy auth type_error r h = tt
    authorized-IsLegacy auth (returns allowed) r h =
        handle-IsLegacy (method_of request.method) _ r (method_of-discover request.method h)
    authorized-IsLegacy auth (returns (denied reason)) r h = tt

-- Whatever a request of a legacy client leads to, unless its method is server/discover: no result
-- that it is answered has a field resultType, ttlMs or cacheScope, neither one of this router's own
-- results nor one of the server, of a cached manifest or of a remote node.
pub dispatch-IsLegacy :
    (w : World) (server : LiopServer) (request : McpRequest) (auth : Option AuthInfo)
    (r : LiopMcpRouter)
    → detect_era request ≡ legacy
    → str_eq "server/discover" request.method ≡ false
    → IsLegacyDispatched (dispatch w server request auth r).0
unfolding dispatch
dispatch-IsLegacy w server request auth r era h =
    if_either (λ (d : Dispatched × LiopMcpRouter). IsLegacyDispatched d.0) server.has_jwt_validator
      _ (handle w server (method_of request.method) request (token_of_auth auth) r)
      (authorized-IsLegacy request era w server auth (authorize_request request.method auth none) r
        h)
      (handle-IsLegacy request era w server (method_of request.method) (token_of_auth auth) r
        (method_of-discover request.method h))
