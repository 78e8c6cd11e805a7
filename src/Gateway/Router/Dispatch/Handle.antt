-- ===== src/Gateway/Router/Dispatch/Handle.antt =====
-- sdks/typescript/src/gateway/router.ts: the methods of dispatch.
use neural_mesh_protocol.Prelude.{String, Option, none, some, List, [], ◌∷◌, str_eq, if◌then◌else◌}
use Prim.Native.String.{◌++◌}
use neural_mesh_protocol.Prelude.Json.{
  Json, null, boolean, number, string, array, object, nil, cons, empty, entry, member_of, is_truthy,
  is_truthy_member,
}
use neural_mesh_protocol.Prelude.Json.Members.{set_member, spread, index_members}
use neural_mesh_protocol.Security.Rbac.{
  AuthInfo, allowed, denied, Outcome, returns, type_error, authorize_request,
}
use neural_mesh_protocol.Gateway.Compat.{
  McpRequest, McpResponse, McpEra, legacy, modern, mcp_protocol_version,
  mcp_protocol_version_legacy, optional_member, detect_era, capabilities,
  build_legacy_initialize_response, adapt_for_era,
}
use neural_mesh_protocol.Gateway.Router.{ManifestResource, CachedManifest, LiopMcpRouter}
use neural_mesh_protocol.Gateway.Router.Tools.{or_else}
use neural_mesh_protocol.Prelude.Assoc.{Assoc}
use neural_mesh_protocol.Gateway.Router.Calls.{World, responds_with}
use neural_mesh_protocol.Gateway.Router.Dispatch.{
  ServerResult, value, throws, LiopServer, Dispatched, responds, silent, raised, pending, Method,
  initialize, initialized, cancelled, discover, ping, tools_list, tools_call, resources_list,
  resources_read, prompts_list, prompts_get, templates_list, listen, unknown, method_of, fails_with,
  complete, cacheable, json_list, all_tools, all_resources,
}
use neural_mesh_protocol.Gateway.Router.Dispatch.Transcode.{or_empty, transcode_mcp_to_liop}

-- a result, in the form for the client's era
abbrev pub answer : McpRequest → Json → Dispatched
answer request result =
    responds (adapt_for_era (detect_era request) (responds_with request.id result))

abbrev pub discovery : LiopServer → Json
discovery server = complete (
    entry "supportedVersions"
      (array (cons (string mcp_protocol_version) (cons (string mcp_protocol_version_legacy) nil)))
      (entry "capabilities" capabilities (entry "serverInfo" server.server_info empty)))

-- `if (!resObj.resultType) resObj.resultType = "complete"`; on an array it leaves no trace in JSON
unfoldable pub mark_complete : Option Json → Option Json
mark_complete (some (object es)) = some (
    object (
      if is_truthy_member (member_of "resultType" es)
      then es
      else set_member "resultType" (string "complete") es))
mark_complete (some (array vs)) = some (array vs)
mark_complete (some null) = some null
mark_complete (some (boolean b)) = some (boolean b)
mark_complete (some (number t)) = some (number t)
mark_complete (some (string t)) = some (string t)
mark_complete none = none

abbrev finish_response : McpEra → McpResponse → McpResponse
finish_response legacy response = adapt_for_era legacy response
finish_response modern response = record response { result = mark_complete response.result }

abbrev pub finish_call : McpEra → Dispatched × LiopMcpRouter → Dispatched × LiopMcpRouter
finish_call era (responds response, r) = (responds (finish_response era response), r)
finish_call era (silent, r) = (silent, r)
finish_call era (raised, r) = (raised, r)
finish_call era (pending, r) = (pending, r)

-- `rawResult` of a resource
unfoldable pub readable : Json → Json
readable (object es) = object (
    spread
      (entry "resultType" (string "complete")
        (entry "ttlMs" (number "60000") (entry "cacheScope" (string "private") empty)))
      es)
readable (array vs) = object (
    spread
      (entry "resultType" (string "complete")
        (entry "ttlMs" (number "60000") (entry "cacheScope" (string "private") empty)))
      (index_members 0 vs))
readable other = cacheable "60000" "private" (entry "contents" other empty)

-- the first resource of an URI in a manifest
unfoldable pub find_resource : (uri : Json) → List ManifestResource → Option ManifestResource
find_resource (string uri) (r ∷ rs) =
    if str_eq r.uri uri then some r else find_resource (string uri) rs
find_resource _ _ = none

abbrev pub or_next :
    Option ManifestResource → Option (Option ManifestResource) → Option (Option ManifestResource)
or_next (some r) rest = some (some r)
or_next none rest = rest

abbrev pub found_in :
    (uri : Json)
    → Option (List ManifestResource)
    → Option (Option ManifestResource)
    → Option (Option ManifestResource)
found_in uri none rest = none
found_in uri (some resources) rest = or_next (find_resource uri resources) rest

-- the loop over the cached manifests, which a manifest without resources ends by an error
unfoldable pub find_cached : (uri : Json) → Assoc CachedManifest → Option (Option ManifestResource)
find_cached uri [] = some none
find_cached uri ((peer_id, cached) ∷ cache) =
    let rest = find_cached uri cache in found_in uri cached.manifest.resources rest

unfoldable pub cached_contents : ManifestResource → Json
cached_contents r = cacheable "60000" "private" (
    entry "contents"
      (array (
        cons
          (object (
            entry "uri" (string r.uri) (
              entry "mimeType" (string (or_else r.mime_type "text/plain")) (
                entry "text" (string (or_else r.text (or_else r.description "No content provided")))
                  empty))))
          nil))
      empty)

abbrev pub from_cache :
    McpRequest → (message : String) → Option (Option ManifestResource) → Dispatched
from_cache request message none = raised
from_cache request message (some none) = responds (fails_with request.id "-32000" message)
from_cache request message (some (some r)) = answer request (cached_contents r)

abbrev pub read_result : McpRequest → (uri : Json) → LiopMcpRouter → ServerResult → Dispatched
read_result request uri r (value v) = answer request (readable v)
read_result request uri r (throws message) =
    from_cache request message (find_cached uri r.manifest_cache)

-- `resources/read`, by the URI of the parameters
abbrev pub read_uri : LiopServer → McpRequest → (uri : Option Json) → LiopMcpRouter → Dispatched
read_uri server request none r = responds (fails_with request.id "-32602" "Missing resource uri")
read_uri server request (some uri) r =
    if is_truthy uri
    then read_result request uri r (server.read_resource uri)
    else responds (fails_with request.id "-32602" "Missing resource uri")

-- `rawResult` of a prompt
unfoldable pub prompt_result : Json → Json
prompt_result (object es) = object (spread (entry "resultType" (string "complete") empty) es)
prompt_result (array vs) =
    object (spread (entry "resultType" (string "complete") empty) (index_members 0 vs))
prompt_result other = other

abbrev pub got_prompt : McpRequest → ServerResult → Dispatched
got_prompt request (value v) = answer request (prompt_result v)
got_prompt request (throws message) = responds (fails_with request.id "-32000" message)

abbrev pub get_named : LiopServer → McpRequest → (name : Option Json) → Dispatched
get_named server request none = responds (fails_with request.id "-32602" "Missing prompt name")
get_named server request (some name) =
    if is_truthy name
    then got_prompt request
        (server.get_prompt name (or_empty (optional_member "arguments" request.params)))
    else responds (fails_with request.id "-32602" "Missing prompt name")

-- `authInfo?.token`
abbrev pub token_of_auth : Option AuthInfo → Option String
token_of_auth none = none
token_of_auth (some auth) = some auth.token

abbrev list_of : (key : String) → Json → Json
list_of key items = cacheable "300000" "public" (entry key items empty)

abbrev pub listed_resources : McpRequest → Option Json → Dispatched
listed_resources request none = raised
listed_resources request (some items) = answer request (list_of "resources" items)

-- the `switch` of `dispatch`
unfoldable pub handle :
    World
    → LiopServer
    → Method
    → McpRequest
    → (token : Option String) → LiopMcpRouter
    → Dispatched × LiopMcpRouter
handle w server initialize request token r =
    (responds (build_legacy_initialize_response server.server_info request.id), r)
handle w server initialized request token r = (silent, r)
handle w server cancelled request token r = (silent, r)
handle w server discover request token r =
    (responds (responds_with request.id (discovery server)), r)
handle w server ping request token r = (responds (responds_with request.id (object empty)), r)
handle w server tools_list request token r =
    (answer request (list_of "tools" (all_tools w server r)), r)
handle w server tools_call request token r =
    finish_call (detect_era request)
      (transcode_mcp_to_liop w server request.id request.params token r)
handle w server resources_list request token r =
    (listed_resources request (all_resources server r), r)
handle w server resources_read request token r =
    (read_uri server request (optional_member "uri" request.params) r, r)
handle w server prompts_list request token r =
    (answer request (list_of "prompts" (array (json_list (server.sort server.prompts)))), r)
handle w server prompts_get request token r =
    (get_named server request (optional_member "name" request.params), r)
handle w server templates_list request token r =
    (answer request (list_of "resourceTemplates" (array nil)), r)
handle w server listen request token r = (answer request (complete empty), r)
handle w server unknown request token r =
    (responds (fails_with request.id "-32601" ("Method not found: " ++ request.method)), r)

-- the verdict of `authorizeRequest`
abbrev pub authorized :
    World
    → LiopServer
    → McpRequest
    → Option AuthInfo
    → Outcome
    → LiopMcpRouter
    → Dispatched × LiopMcpRouter
authorized w server request auth type_error r = (raised, r)
authorized w server request auth (returns allowed) r =
    handle w server (method_of request.method) request (token_of_auth auth) r
authorized w server request auth (returns (denied reason)) r =
    (responds (fails_with request.id "-32099" (or_else (some reason) "Access Denied")), r)

-- `dispatch`
unfoldable pub dispatch :
    World → LiopServer → McpRequest → Option AuthInfo → LiopMcpRouter → Dispatched × LiopMcpRouter
dispatch w server request auth r =
    if server.has_jwt_validator
    then authorized w server request auth (authorize_request request.method auth none) r
    else handle w server (method_of request.method) request (token_of_auth auth) r
