-- ===== src/Gateway/Router/Dispatch/CallAnswers.antt =====
-- sdks/typescript/src/gateway/router.ts: the form of the response to a call of a tool.
use neural_mesh_protocol.Prelude.{
  String, Bool, true, false, ◌≡◌, refl, Option, none, some, List, [], ◌∷◌, if_either, str_eq,
}
use neural_mesh_protocol.Prelude.Json.{
  Json, null, boolean, number, string, array, object, Entries, empty, member_of,
}
use neural_mesh_protocol.Gateway.Compat.{RpcError, McpResponse, or_null}
use neural_mesh_protocol.Gateway.Router.{LiopMcpRouter}
use neural_mesh_protocol.Gateway.Router.Calls.{
  Reply, handshake_failed, stream_error, unsettled, stream_end, Mesh, World, Routing, calls,
  refuses, raises, concat_texts, parsed_response, is_valid, audited_response, reply_response,
  route_to_remote_provider,
}
use neural_mesh_protocol.Gateway.Router.Dispatch.{
  ServerResult, value, throws, LiopServer, Dispatched, responds, silent, raised, pending,
}
use neural_mesh_protocol.Gateway.Router.Dispatch.Transcode.{
  replied, routed, call_target, find_target, dht_providers, no_provider, call_provider, call_found,
  call_remote, local_result, or_empty, is_local, transcode_named, transcode_unnamed,
  transcode_params, transcode_mcp_to_liop,
}

-- Either a result or an error.
abbrev pub is_either : Option Json → Option RpcError → Bool
is_either (some result) none = true
is_either none (some error) = true
is_either _ _ = false

-- A response with the identifier of the request, where an absent one may be null.
abbrev pub IsResponse : Option Json → McpResponse → Type 0
IsResponse id response =
    (or_null response.id ≡ or_null id) × (is_either response.result response.error ≡ true)

-- A response, an error that is raised, or a promise that never settles.
abbrev pub IsAnswered : Option Json → Dispatched → Type 0
IsAnswered id (responds response) = IsResponse id response
IsAnswered id silent = ⊥
IsAnswered id raised = Unit
IsAnswered id pending = Unit

audited-IsResponse :
    (w : World) (id : Option Json) (body : String) (valid : Option Bool)
    → IsResponse id (audited_response w id body valid)
audited-IsResponse w id body none = (refl, refl)
audited-IsResponse w id body (some false) = (refl, refl)
audited-IsResponse w id body (some true) = parsed (w.parse body)
  where
    parsed : (value : Option Json) → IsResponse id (parsed_response id body value)
    parsed none = (refl, refl)
    parsed (some v) = (refl, refl)

reply-IsAnswered :
    (w : World) (id : Option Json) (logic : String) (reply : Reply)
    → IsAnswered id (replied (reply_response w id logic reply))
unfolding reply_response
reply-IsAnswered w id logic unsettled = tt
reply-IsAnswered w id logic (handshake_failed message) = (refl, refl)
reply-IsAnswered w id logic (stream_error message) = (refl, refl)
reply-IsAnswered w id logic (stream_end evidence last) =
    audited-IsResponse w id (concat_texts evidence) (is_valid w logic (concat_texts evidence) last)

routed-IsAnswered :
    (w : World) (mesh : Mesh) (id : Option Json) (routing : Routing)
    → IsAnswered id (routed w mesh id routing)
routed-IsAnswered w mesh id (calls c) = reply-IsAnswered w id c.proxy_logic (mesh.execute c)
routed-IsAnswered w mesh id (refuses message) = (refl, refl)
routed-IsAnswered w mesh id raises = tt

no_provider-IsAnswered : (id : Option Json) (name : String) → IsAnswered id (no_provider id name)
unfolding no_provider
no_provider-IsAnswered id name = (refl, refl)

module _ (w : World) (id : Option Json) (params : Entries) (token : Option String) where
  call_provider-IsAnswered :
      (mesh : Mesh) (name : String) (peers : List String) (r : LiopMcpRouter)
      → IsAnswered id (call_provider w mesh id name params token peers r).0
  call_provider-IsAnswered mesh name [] r = no_provider-IsAnswered id name
  call_provider-IsAnswered mesh name (p ∷ peers) r =
      routed-IsAnswered w mesh id (route_to_remote_provider w mesh name p params token r).0

  call_found-IsAnswered :
      (mesh : Mesh) (name : String) (found : Option (String × String) × LiopMcpRouter)
      → IsAnswered id (call_found w mesh id name params token found).0
  call_found-IsAnswered mesh name (some target, r) =
      routed-IsAnswered w mesh id (call_target w mesh target params token r).0
  call_found-IsAnswered mesh name (none, r) =
      call_provider-IsAnswered mesh name (dht_providers mesh name) r

  call_remote-IsAnswered :
      (name : String) (mesh : Option Mesh) (r : LiopMcpRouter)
      → IsAnswered id (call_remote w id name params token mesh r).0
  call_remote-IsAnswered name none r = no_provider-IsAnswered id name
  call_remote-IsAnswered name (some mesh) r =
      call_found-IsAnswered mesh name (find_target w mesh name r)

  local-IsAnswered : (result : ServerResult) → IsAnswered id (local_result id result)
  local-IsAnswered (value v) = (refl, refl)
  local-IsAnswered (throws message) = (refl, refl)

  named-IsAnswered :
      (server : LiopServer) (name : String) (r : LiopMcpRouter)
      → IsAnswered id (transcode_named w server id name params token r).0
  unfolding transcode_named
  named-IsAnswered server name r =
      if_either (λ (d : Dispatched × LiopMcpRouter). IsAnswered id d.0)
        (str_eq name "LiopMeshStatus") _ _ (refl, refl)
        (if_either (λ (d : Dispatched × LiopMcpRouter). IsAnswered id d.0) (is_local server name) _
          _ (local-IsAnswered (server.call_tool name (or_empty (member_of "arguments" params))))
          (call_remote-IsAnswered name server.mesh r))

  unnamed-IsAnswered :
      (server : LiopServer) (name : Option Json) (mesh : Option Mesh)
      → IsAnswered id (transcode_unnamed server id name mesh)
  unnamed-IsAnswered server name none = no_provider-IsAnswered id (server.print name)
  unnamed-IsAnswered server name (some mesh) = tt

  params-IsAnswered :
      (server : LiopServer) (name : Option Json) (r : LiopMcpRouter)
      → IsAnswered id (transcode_params w server id name params token r).0
  params-IsAnswered server none r = unnamed-IsAnswered server none server.mesh
  params-IsAnswered server (some (string t)) r = named-IsAnswered server t r
  params-IsAnswered server (some null) r = unnamed-IsAnswered server _ server.mesh
  params-IsAnswered server (some (boolean b)) r = unnamed-IsAnswered server _ server.mesh
  params-IsAnswered server (some (number t)) r = unnamed-IsAnswered server _ server.mesh
  params-IsAnswered server (some (array vs)) r = unnamed-IsAnswered server _ server.mesh
  params-IsAnswered server (some (object es)) r = unnamed-IsAnswered server _ server.mesh

pub transcode-IsAnswered :
    (w : World) (server : LiopServer) (id params : Option Json) (token : Option String)
    (r : LiopMcpRouter)
    → IsAnswered id (transcode_mcp_to_liop w server id params token r).0
unfolding transcode_mcp_to_liop
transcode-IsAnswered w server id none token r = tt
transcode-IsAnswered w server id (some null) token r = tt
transcode-IsAnswered w server id (some (object es)) token r =
    params-IsAnswered w id es token server (member_of "name" es) r
transcode-IsAnswered w server id (some (array vs)) token r =
    unnamed-IsAnswered w id empty token server none server.mesh
transcode-IsAnswered w server id (some (boolean b)) token r =
    unnamed-IsAnswered w id empty token server none server.mesh
transcode-IsAnswered w server id (some (number t)) token r =
    unnamed-IsAnswered w id empty token server none server.mesh
transcode-IsAnswered w server id (some (string t)) token r =
    unnamed-IsAnswered w id empty token server none server.mesh
