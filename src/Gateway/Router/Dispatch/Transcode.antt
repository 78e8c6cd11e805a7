-- ===== src/Gateway/Router/Dispatch/Transcode.antt =====
-- sdks/typescript/src/gateway/router.ts: transcodeMcpToLiop, the call of a tool wherever it is.
use Prim.Native.String.{◌++◌}
use neural_mesh_protocol.Prelude.{
  String, Bool, false, Option, none, some, List, [], ◌∷◌, any, str_eq, if◌then◌else◌,
}
use neural_mesh_protocol.Prelude.Json.{
  Json, null, string, object, Entries, empty, member_of, is_truthy,
}
use neural_mesh_protocol.Gateway.Router.{ManifestTool, LiopMcpRouter}
use neural_mesh_protocol.Gateway.Compat.{McpResponse}
use neural_mesh_protocol.Gateway.Router.Tools.{resolve_manifest_target}
use neural_mesh_protocol.Gateway.Router.Tokens.{non_empty, authentication_required}
use neural_mesh_protocol.Gateway.Router.Discovery.{refresh_manifest_cache}
use neural_mesh_protocol.Gateway.Router.Calls.{
  Mesh, World, Routing, calls, refuses, raises, requires_auth, cached_for, or_acquire,
  route_to_remote_provider, responds_with, text_response, error_response, reply_response,
}
use neural_mesh_protocol.Gateway.Router.Dispatch.{
  ServerResult, value, throws, LiopServer, Dispatched, responds, raised, pending, fails_with,
}

abbrev pub replied : Option McpResponse → Dispatched
replied none = pending
replied (some response) = responds response

abbrev pub routed : World → Mesh → (id : Option Json) → Routing → Dispatched
routed w mesh id (calls c) = replied (reply_response w id c.proxy_logic (mesh.execute c))
routed w mesh id (refuses message) = responds (error_response id message)
routed w mesh id raises = raised

-- the call with the token that was found, if one was
abbrev call_authorized :
    World
    → Mesh
    → (peer_id original_name : String) (params : Entries) → Option String × LiopMcpRouter
    → Routing × LiopMcpRouter
call_authorized w mesh peer_id original_name params (none, r) =
    (refuses (authentication_required peer_id (cached_for peer_id r)), r)
call_authorized w mesh peer_id original_name params (some token, r) =
    route_to_remote_provider w mesh original_name peer_id params (some token) r

-- a peer of the cache that offers the tool
unfoldable pub call_target :
    World
    → Mesh
    → String × String
    → (params : Entries) (token : Option String) → LiopMcpRouter
    → Routing × LiopMcpRouter
call_target w mesh (peer_id, original_name) params token r =
    if requires_auth (cached_for peer_id r)
    then call_authorized w mesh peer_id original_name params
        (or_acquire w peer_id (non_empty token) r)
    else route_to_remote_provider w mesh original_name peer_id params token r

-- the cache first, and once more after a refresh
abbrev after_refresh :
    World
    → Mesh
    → (tool_name : String) → Option (String × String)
    → LiopMcpRouter
    → Option (String × String) × LiopMcpRouter
after_refresh w mesh tool_name (some target) r = (some target, r)
after_refresh w mesh tool_name none r =
    let r' =
      refresh_manifest_cache w.verify_manifest false w.now mesh.self_id mesh.query_manifest
        mesh.manifest_providers r in
    (resolve_manifest_target tool_name r'.manifest_cache, r')

unfoldable pub find_target :
    World → Mesh → (tool_name : String) → LiopMcpRouter → Option (String × String) × LiopMcpRouter
find_target w mesh tool_name r =
    after_refresh w mesh tool_name (resolve_manifest_target tool_name r.manifest_cache) r

abbrev or_providers : List String → List String → List String
or_providers [] later = later
or_providers (p ∷ ps) later = p ∷ ps

-- the three attempts to find providers
unfoldable pub dht_providers : Mesh → (tool_name : String) → List String
dht_providers mesh tool_name =
    or_providers (mesh.find_providers tool_name 0)
      (or_providers (mesh.find_providers tool_name 1) (mesh.find_providers tool_name 2))

unfoldable pub no_provider : (id : Option Json) → (tool_name : String) → Dispatched
no_provider id tool_name = responds (
    fails_with id "-32002" (
      "No provider found for tool: "
      ++ (tool_name ++ ". Ensure the provider node is active and connected to the mesh.")))

abbrev pub answered :
    World → Mesh → (id : Option Json) → Routing × LiopMcpRouter → Dispatched × LiopMcpRouter
answered w mesh id (routing, r) = (routed w mesh id routing, r)

abbrev pub call_provider :
    World
    → Mesh
    → (id : Option Json) (tool_name : String) (params : Entries) (token : Option String)
    → List String
    → LiopMcpRouter
    → Dispatched × LiopMcpRouter
call_provider w mesh id tool_name params token [] r = (no_provider id tool_name, r)
call_provider w mesh id tool_name params token (peer_id ∷ peers) r =
    answered w mesh id (route_to_remote_provider w mesh tool_name peer_id params token r)

abbrev pub call_found :
    World
    → Mesh
    → (id : Option Json) (tool_name : String) (params : Entries) (token : Option String)
    → Option (String × String) × LiopMcpRouter
    → Dispatched × LiopMcpRouter
call_found w mesh id tool_name params token (some target, r) =
    answered w mesh id (call_target w mesh target params token r)
call_found w mesh id tool_name params token (none, r) =
    call_provider w mesh id tool_name params token (dht_providers mesh tool_name) r

abbrev pub call_remote :
    World
    → (id : Option Json) (tool_name : String) (params : Entries) (token : Option String)
    → Option Mesh
    → LiopMcpRouter
    → Dispatched × LiopMcpRouter
call_remote w id tool_name params token none r = (no_provider id tool_name, r)
call_remote w id tool_name params token (some mesh) r =
    call_found w mesh id tool_name params token (find_target w mesh tool_name r)

abbrev pub local_result : (id : Option Json) → ServerResult → Dispatched
local_result id (value v) = responds (responds_with id v)
local_result id (throws message) = responds (fails_with id "-32000" message)

-- `value || {}`
abbrev pub or_empty : Option Json → Json
or_empty none = object empty
or_empty (some v) = if is_truthy v then v else object empty

abbrev pub is_local : LiopServer → (tool_name : String) → Bool
is_local server tool_name = any (λ (t : ManifestTool). str_eq t.name tool_name) server.tools

-- `transcodeMcpToLiop`, for a name that is a text
unfoldable pub transcode_named :
    World
    → LiopServer
    → (id : Option Json) (tool_name : String) (params : Entries) (token : Option String)
    → LiopMcpRouter
    → Dispatched × LiopMcpRouter
transcode_named w server id tool_name params token r =
    if str_eq tool_name "LiopMeshStatus"
    then (responds (text_response id (server.status_text r)), r)
    else if is_local server tool_name
    then (local_result id (server.call_tool tool_name (or_empty (member_of "arguments" params))), r)
    else call_remote w id tool_name params token server.mesh r

-- another name is no local tool, and has no `split`
abbrev pub transcode_unnamed :
    LiopServer → (id : Option Json) → Option Json → Option Mesh → Dispatched
transcode_unnamed server id name none = no_provider id (server.print name)
transcode_unnamed server id name (some mesh) = raised

abbrev pub transcode_params :
    World
    → LiopServer
    → (id : Option Json) (name : Option Json) (params : Entries) (token : Option String)
    → LiopMcpRouter
    → Dispatched × LiopMcpRouter
transcode_params w server id (some (string tool_name)) params token r =
    transcode_named w server id tool_name params token r
transcode_params w server id (some null) params token r =
    (transcode_unnamed server id (some null) server.mesh, r)
transcode_params w server id (some other) params token r =
    (transcode_unnamed server id (some other) server.mesh, r)
transcode_params w server id none params token r = (transcode_unnamed server id none server.mesh, r)

-- `transcodeMcpToLiop`: `params.name` raises an error if there are no parameters
unfoldable pub transcode_mcp_to_liop :
    World
    → LiopServer
    → (id : Option Json) (params : Option Json) (token : Option String) → LiopMcpRouter
    → Dispatched × LiopMcpRouter
unfolding transcode_named
transcode_mcp_to_liop w server id none token r = (raised, r)
transcode_mcp_to_liop w server id (some null) token r = (raised, r)
transcode_mcp_to_liop w server id (some (object es)) token r =
    transcode_params w server id (member_of "name" es) es token r
transcode_mcp_to_liop w server id (some other) token r =
    transcode_params w server id none empty token r
