-- ===== src/Gateway/Compat.antt =====
-- sdks/typescript/src/gateway/mcp-compat.ts and `detectEra` of gateway/router.ts: clients of the
-- protocol of 2025.
pub mod Era
use neural_mesh_protocol.Prelude.{
  String, Bool, true, false, not, ◌||◌, Option, none, some, str_eq, if◌then◌else◌,
}
use neural_mesh_protocol.Prelude.Json.{
  Json, null, boolean, number, string, array, object, Entries, empty, entry, member,
}
use neural_mesh_protocol.Prelude.Json.Members.{remove_member, index_members}

-- A field that may be absent is an option.
pub record McpRequest : Type 0 where
  pub method : String
  pub params : Option Json
  pub id : Option Json

pub data RpcError : Type 0 where
  rpc_error : (code message : String) → RpcError

pub record McpResponse : Type 0 where
  pub id : Option Json
  pub result : Option Json
  pub error : Option RpcError

pub data McpEra : Type 0 where
  legacy : McpEra
  modern : McpEra

-- `MCP_PROTOCOL_VERSION` of types.ts and `MCP_PROTOCOL_VERSION_LEGACY`
abbrev pub mcp_protocol_version : String
mcp_protocol_version = "2026-07-28"

abbrev pub mcp_protocol_version_legacy : String
mcp_protocol_version_legacy = "2025-11-25"

-- `value?.key`
abbrev pub optional_member : (key : String) → Option Json → Option Json
optional_member key none = none
optional_member key (some value) = member key value

-- `params?._meta?.["io.modelcontextprotocol/protocolVersion"]`
unfoldable pub version_of : McpRequest → Option Json
version_of request =
    optional_member "io.modelcontextprotocol/protocolVersion"
      (optional_member "_meta" request.params)

-- `!version || version === MCP_PROTOCOL_VERSION_LEGACY`
abbrev is_legacy_version : Option Json → Bool
is_legacy_version none = true
is_legacy_version (some null) = true
is_legacy_version (some (boolean b)) = not b
is_legacy_version (some (number t)) = str_eq t "0"
is_legacy_version (some (string t)) = str_eq t "" || str_eq t mcp_protocol_version_legacy
is_legacy_version (some _) = false

-- `isLegacyRequest`
unfoldable pub is_legacy_request : McpRequest → Bool
is_legacy_request request =
    str_eq request.method "initialize"
    || str_eq request.method "notifications/initialized"
    || is_legacy_version (version_of request)

abbrev is_modern_version : Option Json → Bool
is_modern_version (some (string t)) = str_eq t mcp_protocol_version
is_modern_version _ = false

-- `detectEra`, where the support of legacy clients is enabled, as it is
unfoldable pub detect_era : McpRequest → McpEra
detect_era request =
    if is_modern_version (version_of request)
    then modern
    else if is_legacy_request request
    then legacy
    else modern

-- `{ tools: { listChanged: true }, … }`
abbrev pub capabilities : Json
capabilities =
    let changes = object (entry "listChanged" (boolean true) empty) in
    object (entry "tools" changes (entry "resources" changes (entry "prompts" changes empty)))

-- `id ?? null`
abbrev pub or_null : Option Json → Json
or_null none = null
or_null (some id) = id

-- `buildLegacyInitializeResponse`
unfoldable pub build_legacy_initialize_response : (server_info : Json) → Option Json → McpResponse
build_legacy_initialize_response server_info id = record {
  id = some (or_null id);
  result = some (
      object (
        entry "protocolVersion" (string mcp_protocol_version_legacy)
          (entry "capabilities" capabilities (entry "serverInfo" server_info empty))));
  error = none;
}

-- the three `delete`s
unfoldable pub strip_modern_fields : Entries → Entries
strip_modern_fields es =
    remove_member "cacheScope" (remove_member "ttlMs" (remove_member "resultType" es))

abbrev pub adapt_result : Option Json → Option Json
adapt_result (some (object es)) = some (object (strip_modern_fields es))
adapt_result (some (array vs)) = some (object (strip_modern_fields (index_members 0 vs)))
adapt_result (some null) = some null
adapt_result (some (boolean b)) = some (boolean b)
adapt_result (some (number t)) = some (number t)
adapt_result (some (string t)) = some (string t)
adapt_result none = none

-- `adaptResponseForLegacyClient`
unfoldable pub adapt_response_for_legacy_client : McpResponse → McpResponse
adapt_response_for_legacy_client response = record response {
  result = adapt_result response.result;
}

-- the end of most branches of `dispatch`
unfoldable pub adapt_for_era : McpEra → McpResponse → McpResponse
unfolding adapt_response_for_legacy_client
adapt_for_era legacy response = adapt_response_for_legacy_client response
adapt_for_era modern response = response
