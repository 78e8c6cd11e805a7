-- ===== src/Bridge/Stream/Events.antt =====
-- sdks/typescript/src/bridge/stream.ts: histories of the bridge, as sequences of events.
use neural_mesh_protocol.Prelude.{ℕ, String, Bool, List, [], ◌∷◌}
use neural_mesh_protocol.Bridge.Stream.{
  LiopStreamBridge, on_session_initialized, on_message, on_close, evict_idle_sessions, Body,
  McpHttpRequest, JsonRpcOutcome, Route, existing_transport, new_transport, handle_mcp,
  after_transport,
}

-- What happens at the bridge. `serves` is a whole request, with the identifier that its session
-- gets if it opens one: the transport initializes before the next event.
pub data Event : Type 0 where
  serves : (now : ℕ) (session_id : String) → McpHttpRequest → Event
  initializes : (now : ℕ) (session_id client_ip : String) → Event
  messages : (now : ℕ) (session_id : String) → Event
  closes : (session_id : String) → Event
  evicts : (now : ℕ) → Event

-- the transport's part of a request, and the rest of the handler
unfoldable pub complete :
    (http_method : String) (now : ℕ) (session_id : String)
    → Route × LiopStreamBridge
    → LiopStreamBridge
complete http_method now session_id (new_transport ip, b) =
    on_session_initialized now session_id ip b
complete http_method now session_id (existing_transport id, b) = after_transport http_method id b
complete http_method now session_id (_, b) = b

module _ (legacy : Bool) (handle_json_rpc_request : Body → JsonRpcOutcome) where
  unfoldable pub step : Event → LiopStreamBridge → LiopStreamBridge
  step (serves now session_id r) b =
      complete r.http_method now session_id (handle_mcp legacy handle_json_rpc_request now r b)
  step (initializes now session_id ip) b = on_session_initialized now session_id ip b
  step (messages now session_id) b = on_message now session_id b
  step (closes session_id) b = on_close session_id b
  step (evicts now) b = evict_idle_sessions now b

  unfoldable pub run : List Event → LiopStreamBridge → LiopStreamBridge
  run [] b = b
  run (e ∷ events) b = run events (step e b)
