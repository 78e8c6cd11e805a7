-- ===== src/Bridge/Stream/Serves.antt =====
-- sdks/typescript/src/bridge/stream.ts: what one request does to the sessions.
use neural_mesh_protocol.Prelude.{
  ℕ, ◌<◌, String, Bool, ◌&&◌, ◌≡◌, refl, ◌⊎◌, inl, inr, Option, none, some, arith, str_eq, leb,
  Bool-cases,
}
use neural_mesh_protocol.Prelude.Assoc.{lookup}
use neural_mesh_protocol.Bridge.Stream.{
  SessionEntry, LiopStreamBridge, on_session_initialized, touch_entry, count_sessions_by_ip,
  get_client_ip, Body, McpHttpRequest, JsonRpcOutcome, answered, silent, throws, is_stateless,
  has_text, stateless_route, legacy_route, or_route, direct_route, session_route, route_header,
  handle_mcp, after_transport,
}
use neural_mesh_protocol.Bridge.Stream.Events.{complete}

-- The address of a request.
abbrev pub ip_of : McpHttpRequest → String
ip_of r = get_client_ip r.x_forwarded_for r.x_real_ip

-- What a request leaves of a bridge: the same sessions; one more for its address, for which there
-- was room; or the session that it names touched, and deleted for a DELETE.
abbrev pub Served :
    (now : ℕ) (session_id : String) → McpHttpRequest → (b after : LiopStreamBridge) → Type 0
Served now session_id r b after =
    (after ≡ b)
    ⊎ (((count_sessions_by_ip (ip_of r) b < b.max_sessions_per_ip)
          × (after ≡ on_session_initialized now session_id (ip_of r) b))
        ⊎ ((id : String) × (e : SessionEntry) × (r.mcp_session_id ≡ some id)
            × (lookup id b.active_sessions ≡ some e)
            × (after ≡ after_transport r.http_method id (touch_entry now id (some e) b))))

module _ (legacy : Bool) (handle_json_rpc_request : Body → JsonRpcOutcome) where
  legacy-Served :
      (now : ℕ) (session_id : String) (r : McpHttpRequest) (b : LiopStreamBridge)
      → Served now session_id r b
          (complete r.http_method now session_id (legacy_route legacy r b, b))
  unfolding complete legacy_route
  legacy-Served now session_id r b = elim (Bool-cases legacy) [
    | inl on ↦ elim (Bool-cases (leb b.max_sessions_per_ip (count_sessions_by_ip (ip_of r) b))) [
      | inl full ↦ rw (on, full) (inl refl)
      | inr room ↦ rw (on, room) (inr (inl (ground (arith, room), refl)))
    ]
    | inr off ↦ rw off (inl refl)
  ]

  stateless-Served :
      (now : ℕ) (session_id : String) (r : McpHttpRequest) (b : LiopStreamBridge)
      (o : JsonRpcOutcome)
      → Served now session_id r b (
          complete r.http_method now session_id
            (or_route (stateless_route o) (legacy_route legacy r b), b))
  unfolding complete stateless_route
  stateless-Served now session_id r b (answered result) = inl refl
  stateless-Served now session_id r b silent = inl refl
  stateless-Served now session_id r b throws = legacy-Served now session_id r b

  direct-Served :
      (now : ℕ) (session_id : String) (r : McpHttpRequest) (b : LiopStreamBridge)
      (body : Option Body)
      → Served now session_id r b (
          complete r.http_method now session_id (
            or_route (direct_route legacy handle_json_rpc_request r body) (legacy_route legacy r b),
            b,
          ))
  unfolding direct_route
  direct-Served now session_id r b none = legacy-Served now session_id r b
  direct-Served now session_id r b (some body) =
      elim (Bool-cases (
        str_eq r.http_method "POST"
        && has_text r.content_type "application/json"
        && is_stateless legacy body)) [
          | inl direct ↦
              rw direct (stateless-Served now session_id r b (handle_json_rpc_request body))
          | inr other ↦ rw other (legacy-Served now session_id r b)
        ]

  session-Served :
      (now : ℕ) (session_id id : String) (r : McpHttpRequest) (b : LiopStreamBridge)
      (o : Option SessionEntry)
      → r.mcp_session_id ≡ some id
      → lookup id b.active_sessions ≡ o
      → Served now session_id r b (
          complete r.http_method now session_id
            (session_route legacy handle_json_rpc_request now id o b))
  unfolding complete session_route
  session-Served now session_id id r b none named known = inl refl
  session-Served now session_id id r b (some e) named known = inr (inr (id, e, named, known, refl))

  header-Served :
      (now : ℕ) (session_id : String) (r : McpHttpRequest) (b : LiopStreamBridge)
      (header : Option String)
      → r.mcp_session_id ≡ header
      → Served now session_id r b (
          complete r.http_method now session_id
            (route_header legacy handle_json_rpc_request now header r b))
  unfolding route_header complete
  header-Served now session_id r b none named = direct-Served now session_id r b r.body
  header-Served now session_id r b (some id) named = elim (Bool-cases (str_eq id "")) [
    | inl blank ↦ rw blank (direct-Served now session_id r b r.body)
    | inr given ↦ elim (Bool-cases legacy) [
      | inl on ↦ rw (given, on) (session-Served now session_id id r b _ named refl)
      | inr off ↦ rw (given, off) (inl refl)
    ]
  ]

  pub complete-Served :
      (now : ℕ) (session_id : String) (r : McpHttpRequest) (b : LiopStreamBridge)
      → Served now session_id r b (
          complete r.http_method now session_id (handle_mcp legacy handle_json_rpc_request now r b))
  unfolding handle_mcp
  complete-Served now session_id r b = header-Served now session_id r b r.mcp_session_id refl
