-- ===== src/Gateway/Router/Calls.antt =====
-- sdks/typescript/src/gateway/router.ts: routeToRemoteProvider and performTranscoding up to the calls of the
-- remote node, and what its answer becomes.
pub mod Token
mod Tests
use Prim.Native.String.{◌++◌}
use neural_mesh_protocol.Prelude.{
  ℕ, String, Bool, true, false, not, ◌&&◌, Option, none, some, List, [], ◌∷◌, if◌then◌else◌,
}
use neural_mesh_protocol.Prelude.Json.{
  Json, Jsons, null, boolean, string, array, object, nil, cons, Entries, empty, entry, member_of,
}
use neural_mesh_protocol.Prelude.Assoc.{lookup, insert}
use neural_mesh_protocol.Gateway.Compat.{RpcError, rpc_error, McpResponse}
use neural_mesh_protocol.Gateway.Router.{LiopManifest, CachedManifest, LiopMcpRouter}
use neural_mesh_protocol.Gateway.Router.Tokens.{
  Environment, TokenEndpoint, non_empty, or_default, manifest_of, get_or_acquire_mesh_agent_token,
  authentication_required,
}
use neural_mesh_protocol.Gateway.Router.Discovery.{QueryManifest}
use neural_mesh_protocol.Gateway.Router.Route.{target_address}

-- The last message of a stream of `executeLogic`.
pub record LogicResponse : Type 0 where
  pub is_error : Bool
  pub cryptographic_proof : String
  pub zk_receipt : String

-- How the calls of a remote node end: they may never settle, as when the callback of
-- `negotiateIntent`, which has no `try`, throws at the encapsulation of the node's key.
pub data Reply : Type 0 where
  handshake_failed : (message : Option String) → Reply
  stream_error : (message : String) → Reply
  unsettled : Reply
  stream_end : (evidence : List String) → (last_response : Option LogicResponse) → Reply

-- The call of a remote node: `executeLogic` after `negotiateIntent`, both with the token.
pub record RemoteCall : Type 0 where
  pub target_addr : String
  pub peer_id : String
  pub tool_name : String
  pub token : Option String
  pub proxy_logic : String

-- A mesh node, as the router asks it.
pub record Mesh : Type 0 where
  pub self_id : String
  pub query_manifest : QueryManifest
  pub manifest_providers : List String
  pub find_providers : (tool_name : String) → (attempt : ℕ) → List String
  pub resolve_peer : (peer_id : String) → List String
  pub execute : RemoteCall → Reply

-- What the router does not keep itself. The check of a receipt may raise an error.
pub record World : Type 0 where
  pub now : ℕ
  pub env : Environment
  pub token_endpoint : TokenEndpoint
  pub local_interfaces : List String
  pub default_rpc_port : ℕ
  pub verify_manifest : LiopManifest → String → String → Bool
  pub verify_zk_receipt : (logic : String) → LogicResponse → (output : String) → Option Bool
  pub stringify : Json → String
  pub parse : String → Option Json

-- What becomes of a request for a remote tool.
pub data Routing : Type 0 where
  calls : RemoteCall → Routing
  refuses : (message : String) → Routing
  raises : Routing

-- `params?.arguments ?? (params?.payload !== undefined ? params : {})`
abbrev or_payload : Option Json → Entries → Json
or_payload none es = elim (member_of "payload" es) [ none ↦ object empty | some p ↦ object es ]
or_payload (some null) es = elim (member_of "payload" es) [
  | none ↦ object empty
  | some p ↦ object es
]
or_payload (some value) es = value

unfoldable pub embedded_args : (params : Entries) → Json
embedded_args params = or_payload (member_of "arguments" params) params

-- `proxyLogic`
unfoldable pub proxy_logic : (args_json tool_name : String) → String
proxy_logic args_json tool_name =
    "return { \"__liop_proxy_tool\": \""
    ++ (tool_name ++ ("\", \"__liop_proxy_args\": " ++ (args_json ++ " };")))

abbrev pub requires_auth : Option LiopManifest → Bool
requires_auth none = false
requires_auth (some manifest) = manifest.auth_required

abbrev pub cached_for : (peer_id : String) → LiopMcpRouter → Option LiopManifest
cached_for peer_id r = manifest_of (lookup peer_id r.manifest_cache)

-- the caller's token, or one that this node has or acquires
abbrev pub or_acquire :
    World → (peer_id : String) → Option String → LiopMcpRouter → Option String × LiopMcpRouter
or_acquire w peer_id (some token) r = (some token, r)
or_acquire w peer_id none r = get_or_acquire_mesh_agent_token w.env w.token_endpoint peer_id r

abbrev pub is_missing : Option String → Bool
is_missing none = true
is_missing (some token) = false

-- `performTranscoding`, before the answer of the remote node
unfoldable pub perform_transcoding :
    World
    → (target_addr tool_name peer_id : String) (params : Entries) (token : Option String)
    → LiopMcpRouter
    → Routing × LiopMcpRouter
perform_transcoding w target_addr tool_name peer_id params token r =
    let (active_token, r') = or_acquire w peer_id (non_empty token) r in
    if requires_auth (cached_for peer_id r') && is_missing active_token
    then (refuses (authentication_required peer_id (cached_for peer_id r')), r')
    else (
      calls (record {
        target_addr = target_addr;
        peer_id = peer_id;
        tool_name = tool_name;
        token = active_token;
        proxy_logic = proxy_logic (w.stringify (embedded_args params)) tool_name;
      }),
      r',
    )

-- a peer with no manifest in the cache is asked for it; the query may raise an error
abbrev after_direct_query :
    (now : ℕ) (peer_id : String)
    → Option (Option LiopManifest)
    → LiopMcpRouter
    → Option LiopMcpRouter
after_direct_query now peer_id none r = none
after_direct_query now peer_id (some none) r = some r
after_direct_query now peer_id (some (some manifest)) r = some (record r {
  manifest_cache =
      insert peer_id (record { manifest = manifest; cached_at = now }) r.manifest_cache;
})

abbrev know_manifest :
    (now : ℕ)
    → QueryManifest
    → (peer_id : String) → Option CachedManifest
    → LiopMcpRouter
    → Option LiopMcpRouter
know_manifest now query peer_id (some cached) r = some r
know_manifest now query peer_id none r = after_direct_query now peer_id (query peer_id) r

abbrev port_of : (default_port : ℕ) → Option LiopManifest → ℕ
port_of default_port none = default_port
port_of default_port (some manifest) = manifest.grpc_port

-- the address and the call, once the manifest is known
abbrev pub route_known :
    World
    → Mesh
    → (tool_name peer_id : String) (params : Entries) (token : Option String)
      (before : LiopMcpRouter)
    → Option LiopMcpRouter
    → Routing × LiopMcpRouter
route_known w mesh tool_name peer_id params token before none = (raises, before)
route_known w mesh tool_name peer_id params token before (some r) =
    perform_transcoding w
      (target_address w.env w.local_interfaces (cached_for peer_id r) tool_name
        (port_of w.default_rpc_port (cached_for peer_id r)) (mesh.resolve_peer peer_id))
      tool_name peer_id params token r

-- `routeToRemoteProvider`
unfoldable pub route_to_remote_provider :
    World
    → Mesh
    → (tool_name peer_id : String) (params : Entries) (token : Option String) → LiopMcpRouter
    → Routing × LiopMcpRouter
route_to_remote_provider w mesh tool_name peer_id params token r =
    route_known w mesh tool_name peer_id params token r
      (know_manifest w.now mesh.query_manifest peer_id (lookup peer_id r.manifest_cache) r)

-- a result with one text, and what else it has
abbrev text_result : (text : String) (rest : Entries) → Json
text_result text rest = object (
    entry "content"
      (array (cons (object (entry "type" (string "text") (entry "text" (string text) empty))) nil))
      rest)

abbrev error_flag : Entries
error_flag = entry "isError" (boolean true) empty

abbrev pub responds_with : (id : Option Json) → Json → McpResponse
responds_with id result = record { id = id; result = some result; error = none }

abbrev pub text_response : (id : Option Json) → (text : String) → McpResponse
text_response id text = responds_with id (text_result text empty)

abbrev pub error_response : (id : Option Json) → (text : String) → McpResponse
error_response id text = responds_with id (text_result text error_flag)

-- `resultBody`
abbrev pub concat_texts : List String → String
concat_texts [] = ""
concat_texts (t ∷ ts) = t ++ concat_texts ts

abbrev pub parsed_response : (id : Option Json) → (body : String) → Option Json → McpResponse
parsed_response id body none = text_response id body
parsed_response id body (some value) = responds_with id value

-- the receipt of a response that is no error
abbrev pub is_valid : World → (logic body : String) → Option LogicResponse → Option Bool
is_valid w logic body none = some true
is_valid w logic body (some last) =
    if last.is_error then some true else w.verify_zk_receipt logic last body

abbrev pub audited_response :
    World → (id : Option Json) → (body : String) → Option Bool → McpResponse
audited_response w id body none = text_response id body
audited_response w id body (some true) = parsed_response id body (w.parse body)
audited_response w id body (some false) =
    error_response id "SECURITY ALERT: Remote response failed cryptographic integrity audit."

-- what the answer of a remote node becomes, if the promise is ever resolved
unfoldable pub reply_response :
    World → (id : Option Json) → (logic : String) → Reply → Option McpResponse
reply_response w id logic unsettled = none
reply_response w id logic (handshake_failed message) =
    some (error_response id ("PQC Handshake Failed: " ++ or_default (non_empty message) "Rejected"))
reply_response w id logic (stream_error message) =
    some (error_response id ("LIOP gRPC Error: " ++ message))
reply_response w id logic (stream_end evidence last_response) =
    let body = concat_texts evidence in
    some (audited_response w id body (is_valid w logic body last_response))
