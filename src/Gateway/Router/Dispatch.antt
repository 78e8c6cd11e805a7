-- ===== src/Gateway/Router/Dispatch.antt =====
-- sdks/typescript/src/gateway/router.ts: dispatch, with transcodeMcpToLiop for the calls of tools. Telemetry and
-- logs are left out, and a refresh in the background is an event of its own.
pub mod Transcode
pub mod Handle
pub mod CallAnswers
pub mod Raised
pub mod Answers
pub mod Access
pub mod Legacy
mod Tests
use Prim.Native.String.{◌++◌}
use mathlib.Core.List
use neural_mesh_protocol.Prelude.{
  ℕ, zero, suc, ◌+◌, String, Bool, true, false, not, ◌&&◌, ◌||◌, Option, none, some, List, [], ◌∷◌,
  any, str_eq, if◌then◌else◌, to_lower_case,
}
use neural_mesh_protocol.Prelude.Trim.{trim}
use neural_mesh_protocol.Prelude.Json.{
  Json, Jsons, null, boolean, number, string, array, object, nil, cons, Entries, empty, entry,
  member_of, member, is_truthy, is_truthy_member,
}
use neural_mesh_protocol.Prelude.Json.Members.{set_member, spread, index_members}
use neural_mesh_protocol.Prelude.Assoc.{Assoc, lookup}
use neural_mesh_protocol.Security.Rbac.{
  AuthInfo, AuthorizationResult, allowed, denied, Outcome, returns, type_error, authorize_request,
}
use neural_mesh_protocol.Gateway.Compat.{
  McpRequest, RpcError, rpc_error, McpResponse, McpEra, legacy, modern, mcp_protocol_version,
  mcp_protocol_version_legacy, optional_member, detect_era, capabilities,
  build_legacy_initialize_response, adapt_for_era,
}
use neural_mesh_protocol.Gateway.Router.{
  ManifestTool, ManifestResource, CachedManifest, LiopMcpRouter,
}
use neural_mesh_protocol.Gateway.Router.Tools.{
  or_else, strip_verbose_liop_tool_description, get_remote_tools, resolve_manifest_target,
}
use neural_mesh_protocol.Gateway.Router.Resources.{list_remote_resources}
use neural_mesh_protocol.Gateway.Router.Tokens.{Environment, non_empty, authentication_required}
use neural_mesh_protocol.Gateway.Router.Discovery.{refresh_manifest_cache}
use neural_mesh_protocol.Gateway.Router.Calls.{
  Reply, RemoteCall, Mesh, World, Routing, calls, refuses, raises, requires_auth, cached_for,
  or_acquire, route_to_remote_provider, responds_with, text_response, error_response,
  reply_response,
}

-- A method of the local server returns a value or throws an error.
pub data ServerResult : Type 0 where
  value : Json → ServerResult
  throws : (message : String) → ServerResult

-- The local server, and what a request finds besides the router: the mesh node, the text of the
-- diagnostic tool, and `sort` by `localeCompare` on the first component.
pub record LiopServer : Type 0 where
  pub has_jwt_validator : Bool
  pub server_info : Json
  pub tools : List ManifestTool
  pub resources : List ManifestResource
  pub prompts : List (String × Json)
  pub read_resource : (uri : Json) → ServerResult
  pub get_prompt : (name arguments : Json) → ServerResult
  pub call_tool : (name : String) → (arguments : Json) → ServerResult
  pub mesh : Option Mesh
  pub status_text : LiopMcpRouter → String
  pub sort : List (String × Json) → List (String × Json)
  pub print : Option Json → String

-- What a request leads to: a response, none for a notification, an error that is raised, or a
-- promise that never settles.
pub data Dispatched : Type 0 where
  responds : McpResponse → Dispatched
  silent : Dispatched
  raised : Dispatched
  pending : Dispatched

pub data Method : Type 0 where
  initialize : Method
  initialized : Method
  cancelled : Method
  discover : Method
  ping : Method
  tools_list : Method
  tools_call : Method
  resources_list : Method
  resources_read : Method
  prompts_list : Method
  prompts_get : Method
  templates_list : Method
  listen : Method
  unknown : Method

abbrev method_names : Assoc Method
method_names =
    ("initialize", initialize)
    ∷ ("notifications/initialized", initialized)
    ∷ ("notifications/cancelled", cancelled)
    ∷ ("server/discover", discover)
    ∷ ("ping", ping)
    ∷ ("tools/list", tools_list)
    ∷ ("tools/call", tools_call)
    ∷ ("resources/list", resources_list)
    ∷ ("resources/read", resources_read)
    ∷ ("prompts/list", prompts_list)
    ∷ ("prompts/get", prompts_get)
    ∷ ("resources/templates/list", templates_list)
    ∷ ("subscriptions/listen", listen)
    ∷ []

or_unknown : Option Method → Method
or_unknown none = unknown
or_unknown (some method) = method

-- the cases of the `switch`
unfoldable pub method_of : String → Method
unfolding or_unknown
method_of name = or_unknown (lookup name method_names)

abbrev pub fails_with : (id : Option Json) → (code message : String) → McpResponse
fails_with id code message = record {
  id = id;
  result = none;
  error = some (rpc_error code message);
}

-- `{ resultType: "complete", ttlMs, cacheScope, … }`
abbrev pub complete : Entries → Json
complete es = object (entry "resultType" (string "complete") es)

abbrev pub cacheable : (ttl_ms scope : String) → Entries → Json
cacheable ttl_ms scope es =
    complete (entry "ttlMs" (number ttl_ms) (entry "cacheScope" (string scope) es))

abbrev pub json_list : List (String × Json) → Jsons
json_list [] = nil
json_list ((k, v) ∷ es) = cons v (json_list es)

abbrev optional_text : (key : String) → Option String → Entries → Entries
optional_text key none es = es
optional_text key (some t) es = entry key (string t) es

abbrev optional_object : (key : String) → Option Entries → Entries → Entries
optional_object key none es = es
optional_object key (some o) es = entry key (object o) es

abbrev tool_json : ManifestTool → String × Json
tool_json t = (
  t.name,
  object (
      entry "name" (string t.name) (
        optional_text "description" t.description
          (optional_object "inputSchema" t.input_schema empty))),
)

abbrev resource_json : ManifestResource → String × Json
resource_json r = (
  r.uri,
  object (
      entry "name" (string r.name) (
        entry "uri" (string r.uri) (
          optional_text "description" r.description
            (optional_text "mimeType" r.mime_type (optional_text "text" r.text empty))))),
)

is_no : Option String → Bool
is_no none = false
is_no (some v) = let t = trim (to_lower_case v) in str_eq t "0" || str_eq t "false" || str_eq t "no"

-- `mcpCompactToolDescriptions` of utils/mcpCompact.ts
unfoldable pub is_compact : Environment → Bool
unfolding is_no
is_compact env = not (is_no (env "LIOP_MCP_COMPACT_TOOL_DESCRIPTIONS"))

abbrev text_or_empty : Option String → String
text_or_empty none = ""
text_or_empty (some t) = t

-- `listedLocals`
unfoldable pub listed_local : (compact : Bool) → ManifestTool → ManifestTool
listed_local compact t =
    if compact
    then record t {
      description = some (strip_verbose_liop_tool_description (text_or_empty t.description));
    }
    else t

abbrev diagnostic_tool : ManifestTool
diagnostic_tool = record {
  name = "LiopMeshStatus";
  description =
      some
        "LiopMeshStatus: Returns the current dynamic diagnostic status of the Zero-Trust Neural Mesh.";
  input_schema = some (
      entry "type" (string "object")
        (entry "properties" (object empty) (entry "additionalProperties" (boolean false) empty)));
}

-- `allTools`, for the cache as discovery leaves it
unfoldable pub all_tools : World → LiopServer → LiopMcpRouter → Json
all_tools w server r = array (
    json_list (
      server.sort (
        tool_json diagnostic_tool
        ∷ List.◌++◌ (List.map (λ t. tool_json (listed_local (is_compact w.env) t)) server.tools) (
            List.map tool_json (
              get_remote_tools (is_compact w.env)
                (List.map (λ (t : ManifestTool). t.name) server.tools) r.manifest_cache)))))

abbrev pub resources_json : LiopServer → List ManifestResource → Json
resources_json server remote = array (
    json_list (
      server.sort
        (List.◌++◌ (List.map resource_json server.resources) (List.map resource_json remote))))

abbrev pub sorted_resources : LiopServer → Option (List ManifestResource) → Option Json
sorted_resources server none = none
sorted_resources server (some remote) = some (resources_json server remote)

-- `allResources`, or the error that is raised
unfoldable pub all_resources : LiopServer → LiopMcpRouter → Option Json
all_resources server r = sorted_resources server (
    list_remote_resources (List.map (λ (x : ManifestResource). x.uri) server.resources)
      r.manifest_cache)
