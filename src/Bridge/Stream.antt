-- ===== src/Bridge/Stream.antt =====
-- sdks/typescript/src/bridge/stream.ts: the sessions of the bridge. A handler is cut where it
-- waits: `handle_mcp` decides on a request, and the calls that the transport makes later
-- (`onsessioninitialized`, `onmessage`, `onclose`) are operations of their own. The transports
-- themselves are a library's.
pub mod Cap
pub mod Events
pub mod Serves
pub mod Idle
pub mod Access
pub mod Auth
mod Tests
use Prim.Native.Char.{code}
use Prim.Native.String
use neural_mesh_protocol.Prelude.{
  ℕ, ◌+◌, String, Bool, true, false, not, ◌&&◌, ◌||◌, Option, none, some, List, [], ◌∷◌, ltb, leb,
  ◌==◌, includes, str_eq, if◌then◌else◌,
}
use neural_mesh_protocol.Prelude.Assoc.{Assoc, lookup, insert, remove, filter_values}
use neural_mesh_protocol.Prelude.Prefix.{strip_prefix}
use neural_mesh_protocol.Prelude.Trim.{trim, split_first}

pub record SessionEntry : Type 0 where
  pub last_activity : ℕ
  pub client_ip : String

pub record LiopStreamBridge : Type 0 where
  pub active_sessions : Assoc SessionEntry
  pub max_sessions_per_ip : ℕ
  pub session_timeout_ms : ℕ

abbrev or_default : Option ℕ → ℕ → ℕ
or_default none d = d
or_default (some n) d = n

-- the constructor, with its defaults
unfoldable pub create : (max_sessions_per_ip session_timeout_ms : Option ℕ) → LiopStreamBridge
create max_sessions_per_ip session_timeout_ms = record {
  active_sessions = [];
  max_sessions_per_ip = or_default max_sessions_per_ip 10;
  session_timeout_ms = or_default session_timeout_ms 1800000;
}

-- `onsessioninitialized`: the session of a transport that was made for an address
unfoldable pub on_session_initialized :
    (now : ℕ) (session_id client_ip : String) → LiopStreamBridge → LiopStreamBridge
on_session_initialized now session_id client_ip b = record b {
  active_sessions =
      insert session_id (record { last_activity = now; client_ip = client_ip }) b.active_sessions;
}

-- `if (entry) entry.lastActivity = Date.now()`
unfoldable pub touch_entry :
    (now : ℕ) (session_id : String) → Option SessionEntry → LiopStreamBridge → LiopStreamBridge
touch_entry now session_id none b = b
touch_entry now session_id (some e) b = record b {
  active_sessions = insert session_id (record e { last_activity = now }) b.active_sessions;
}

-- `onmessage`, as far as it changes the sessions
unfoldable pub on_message : (now : ℕ) (session_id : String) → LiopStreamBridge → LiopStreamBridge
unfolding touch_entry
on_message now session_id b = touch_entry now session_id (lookup session_id b.active_sessions) b

-- `onclose`
unfoldable pub on_close : (session_id : String) → LiopStreamBridge → LiopStreamBridge
on_close session_id b = record b { active_sessions = remove session_id b.active_sessions }

-- the loop of `countSessionsByIp`
unfoldable pub count_entries : String → Assoc SessionEntry → ℕ
count_entries ip [] = 0
count_entries ip ((session_id, e) ∷ sessions) =
    (if str_eq e.client_ip ip then 1 else 0) + count_entries ip sessions

-- `countSessionsByIp`
abbrev pub count_sessions_by_ip : String → LiopStreamBridge → ℕ
count_sessions_by_ip ip b = count_entries ip b.active_sessions

-- `now - entry.lastActivity > this.sessionTimeoutMs`, over the integers
abbrev pub is_idle : (session_timeout_ms now : ℕ) → SessionEntry → Bool
is_idle session_timeout_ms now e = ltb (e.last_activity + session_timeout_ms) now

-- `evictIdleSessions`
unfoldable pub evict_idle_sessions : (now : ℕ) → LiopStreamBridge → LiopStreamBridge
evict_idle_sessions now b = record b {
  active_sessions = filter_values (λ e. not (is_idle b.session_timeout_ms now e)) b.active_sessions;
}

-- `a || b` of texts
unfoldable pub or_text : Option String → String → String
or_text none b = b
or_text (some a) b = if str_eq a "" then b else a

-- `c.req.header("x-forwarded-for")?.split(",")[0]?.trim()`
unfoldable pub forwarded : Option String → Option String
forwarded none = none
forwarded (some addresses) = some (trim (split_first b',' addresses))

-- `getClientIp`
unfoldable pub get_client_ip : (x_forwarded_for x_real_ip : Option String) → String
get_client_ip x_forwarded_for x_real_ip =
    or_text (forwarded x_forwarded_for) (or_text x_real_ip "unknown")

-- A parsed JSON-RPC message, as far as the routing reads it.
pub record Body : Type 0 where
  pub rpc_method : Option String
  pub has_meta : Bool

-- A request; there is no body where it cannot be parsed, or is `null`.
pub record McpHttpRequest : Type 0 where
  pub http_method : String
  pub mcp_session_id : Option String
  pub content_type : Option String
  pub x_forwarded_for : Option String
  pub x_real_ip : Option String
  pub body : Option Body

-- What `bridgeLogic.handleJsonRpcRequest` does with a message.
pub data JsonRpcOutcome : Type 0 where
  answered : String → JsonRpcOutcome
  silent : JsonRpcOutcome
  throws : JsonRpcOutcome

-- The answer to a request, or the transport that answers it.
pub data Route : Type 0 where
  sessions_retired : Route
  session_not_found : Route
  existing_transport : (session_id : String) → Route
  json_result : String → Route
  no_content : Route
  stateless_required : Route
  too_many_sessions : Route
  new_transport : (client_ip : String) → Route

abbrev pub has_text : Option String → String → Bool
has_text none part = false
has_text (some h) part = includes h part

abbrev pub is_discover : Option String → Bool
is_discover none = false
is_discover (some m) = str_eq m "server/discover"

-- `body.method === "server/discover" || body.params?._meta || !MCP_LEGACY_SUPPORT_ENABLED`
abbrev pub is_stateless : (legacy : Bool) → Body → Bool
is_stateless legacy body = is_discover body.rpc_method || body.has_meta || not legacy

-- the answer of the message handler; an error falls through
unfoldable pub stateless_route : JsonRpcOutcome → Option Route
stateless_route (answered result) = some (json_result result)
stateless_route silent = some no_content
stateless_route throws = none

-- the legacy handshake: the sessions of the address are counted here, but one is added only when
-- the transport has been initialized
unfoldable pub legacy_route : (legacy : Bool) → McpHttpRequest → LiopStreamBridge → Route
legacy_route legacy r b =
    if not legacy
    then stateless_required
    else if leb b.max_sessions_per_ip
        (count_sessions_by_ip (get_client_ip r.x_forwarded_for r.x_real_ip) b)
    then too_many_sessions
    else new_transport (get_client_ip r.x_forwarded_for r.x_real_ip)

abbrev pub or_route : Option Route → Route → Route
or_route none route = route
or_route (some route) other = route

-- `legacy` is MCP_LEGACY_SUPPORT_ENABLED
module _ (legacy : Bool) (handle_json_rpc_request : Body → JsonRpcOutcome) where
  unfoldable pub direct_route : McpHttpRequest → Option Body → Option Route
  unfolding stateless_route
  direct_route r none = none
  direct_route r (some body) =
      if str_eq r.http_method "POST"
        && has_text r.content_type "application/json"
        && is_stateless legacy body
      then stateless_route (handle_json_rpc_request body)
      else none

  unfoldable pub session_route :
      (now : ℕ) (session_id : String)
      → Option SessionEntry
      → LiopStreamBridge
      → Route × LiopStreamBridge
  unfolding touch_entry
  session_route now session_id none b = (session_not_found, b)
  session_route now session_id (some e) b =
      (existing_transport session_id, touch_entry now session_id (some e) b)

  unfoldable pub route_header :
      (now : ℕ) → Option String → McpHttpRequest → LiopStreamBridge → Route × LiopStreamBridge
  unfolding direct_route session_route legacy_route
  route_header now none r b = (or_route (direct_route r r.body) (legacy_route legacy r b), b)
  route_header now (some session_id) r b =
      if str_eq session_id ""
      then (or_route (direct_route r r.body) (legacy_route legacy r b), b)
      else if not legacy
      then (sessions_retired, b)
      else session_route now session_id (lookup session_id b.active_sessions) b

  -- the handler of "/mcp", up to the transport's part
  unfoldable pub handle_mcp :
      (now : ℕ) → McpHttpRequest → LiopStreamBridge → Route × LiopStreamBridge
  unfolding route_header
  handle_mcp now r b = route_header now r.mcp_session_id r b

-- the rest of the handler of "/mcp", after the transport of a session has answered
unfoldable pub after_transport :
    (http_method session_id : String) → LiopStreamBridge → LiopStreamBridge
after_transport http_method session_id b =
    if str_eq http_method "DELETE"
    then record b { active_sessions = remove session_id b.active_sessions }
    else b

-- `stop`: every session is deleted
unfoldable pub stop : LiopStreamBridge → LiopStreamBridge
stop b = record b { active_sessions = [] }
