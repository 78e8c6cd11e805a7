-- ===== src/Gateway/Router/Dispatch/Tests.antt =====
-- sdks/typescript/src/gateway/router.ts: requests to a server with one tool, whose mesh has no peers.
use neural_mesh_protocol.Prelude.{
  String, Bool, true, false, ◌≡◌, refl, none, some, [], ◌∷◌, if◌then◌else◌,
}
use neural_mesh_protocol.Prelude.Json.{
  Json, string, number, array, object, nil, empty, entry, member_of,
}
use neural_mesh_protocol.Prelude.Json.Members.{remove_member, set_member, spread}
use neural_mesh_protocol.Prelude.Assoc.{lookup, has}
use neural_mesh_protocol.Security.Rbac.{
  AuthInfo, authorize_request, method_scopes, scope_map, prototype_functions, is_public,
  needed_scopes, missing_scopes,
}
use neural_mesh_protocol.Security.Rbac.Laws.{open_methods}
use neural_mesh_protocol.Gateway.Compat.{
  McpRequest, version_of, is_legacy_request, detect_era, strip_modern_fields,
  adapt_response_for_legacy_client, adapt_for_era, build_legacy_initialize_response,
}
use neural_mesh_protocol.Gateway.Router.{LiopMcpRouter}
use neural_mesh_protocol.Gateway.Router.Calls.{World, responds_with}
use neural_mesh_protocol.Gateway.Router.Dispatch.{
  value, throws, LiopServer, responds, method_of, fails_with,
}
use neural_mesh_protocol.Gateway.Router.Dispatch.Transcode.{
  no_provider, transcode_named, transcode_mcp_to_liop,
}
use neural_mesh_protocol.Gateway.Router.Dispatch.Handle.{
  mark_complete, readable, prompt_result, handle, dispatch,
}
use neural_mesh_protocol.Gateway.Router.Dispatch.Access.{token_required, dispatch-anonymous}
use neural_mesh_protocol.Gateway.Router.Dispatch.Legacy.{IsLegacyDispatched, dispatch-IsLegacy}

dispatched : Unit {0}
unfolding lookup member_of remove_member set_member spread authorize_request method_scopes scope_map
    prototype_functions is_public needed_scopes missing_scopes version_of is_legacy_request
    detect_era strip_modern_fields adapt_response_for_legacy_client adapt_for_era
    build_legacy_initialize_response method_of no_provider transcode_named transcode_mcp_to_liop
    mark_complete readable prompt_result handle dispatch
dispatched = tt

abbrev world : World
world = record {
  now = 1000;
  env = λ name. none;
  token_endpoint = λ url audience client secret. none;
  local_interfaces = [];
  default_rpc_port = 50051;
  verify_manifest = λ m s k. false;
  verify_zk_receipt = λ logic last output. some false;
  stringify = λ v. "{}";
  parse = λ text. none;
}

abbrev server : (has_jwt_validator : Bool) → LiopServer
server has_jwt_validator = record {
  has_jwt_validator = has_jwt_validator;
  server_info = object empty;
  tools = record { name = "query"; description = some "Runs logic."; input_schema = none } ∷ [];
  resources = [];
  prompts = [];
  read_resource = λ uri. throws "Resource not found";
  get_prompt = λ name arguments. throws "Prompt not found";
  call_tool = λ name arguments.
      value (object (entry "content" (array nil) (entry "ttlMs" (number "5") empty)));
  mesh = none;
  status_text = λ r. "LIOP Mesh Status: Offline";
  sort = λ items. items;
  print = λ v. "undefined";
}

abbrev router : LiopMcpRouter
router = record { manifest_cache = []; manifest_failure_state = []; mesh_agent_token = none }

abbrev request : (method : String) → Json → McpRequest
request method params = record { method = method; params = some params; id = some (number "1") }

abbrev call_query : McpRequest
call_query = request "tools/call" (object (entry "name" (string "query") empty))

abbrev modern_query : McpRequest
modern_query = request "tools/call" (
    object (
      entry "name" (string "query") (
        entry "_meta"
          (object (entry "io.modelcontextprotocol/protocolVersion" (string "2026-07-28") empty))
          empty)))

dispatch-IsLegacy_example :
    IsLegacyDispatched (dispatch world (server false) call_query none router).0
unfolding dispatched
dispatch-IsLegacy_example = dispatch-IsLegacy world (server false) call_query none router refl refl

dispatch-anonymous_example : dispatch world (server true) call_query none router ≡ (
    if has "tools/call" open_methods
    then handle world (server true) (method_of "tools/call") call_query none router
    else (responds (fails_with (some (number "1")) "-32099" (token_required "tools/call")), router))
dispatch-anonymous_example = dispatch-anonymous world (server true) call_query router refl

-- A legacy client gets the result of a tool without the newer fields, also without one that the
-- tool itself has given; another client gets it as it is, marked as complete.
two_clients :
    ((dispatch world (server false) call_query none router).0
      ≡ responds (responds_with (some (number "1")) (object (entry "content" (array nil) empty))))
    × ((dispatch world (server false) modern_query none router).0
        ≡ responds (
            responds_with (some (number "1")) (
              object (
                entry "content"
                  (array nil)
                  (entry "ttlMs" (number "5") (entry "resultType" (string "complete") empty))))))
unfolding dispatched
two_clients = (refl, refl)

abbrev every_scope : AuthInfo
every_scope = record {
  token = "t";
  client_id = "c";
  scopes =
      "liop:tools:list" ∷ "liop:tools:call" ∷ "liop:resources:read" ∷ "liop:schema:read"
      ∷ "liop:mesh:query" ∷ [];
  expires_at = none;
}

-- The map of scopes lacks three methods of `dispatch`: no token opens them.
closed_methods :
    ((dispatch world
        (server true)
        (request "server/discover" (object empty))
        (some every_scope)
        router).0
      ≡ responds (
          fails_with
            (some (number "1"))
            "-32099"
            "Unknown method: server/discover. Access denied (fail-closed)."))
    × ((dispatch world
          (server true)
          (request "subscriptions/listen" (object empty))
          (some every_scope)
          router).0
        ≡ responds (
            fails_with
              (some (number "1"))
              "-32099"
              "Unknown method: subscriptions/listen. Access denied (fail-closed)."))
    × ((dispatch world
          (server true)
          (request "resources/templates/list" (object empty))
          (some every_scope)
          router).0
        ≡ responds (
            fails_with
              (some (number "1"))
              "-32099"
              "Unknown method: resources/templates/list. Access denied (fail-closed)."))
unfolding dispatched
closed_methods = (refl, refl, refl)
