-- ===== src/Bridge/Stream/Tests.antt =====
-- sdks/typescript/src/bridge/stream.ts: sessions, histories and access on concrete requests.
use neural_mesh_protocol.Prelude.{
  String, true, false, ◌≡◌, refl, inr, Option, none, some, [], ◌∷◌, str_eq, includes, arith,
  if◌then◌else◌,
}
use neural_mesh_protocol.Prelude.Trim.{trim, split_first, is_space, trim_start, keep_char, trim_end}
use neural_mesh_protocol.Prelude.Assoc.{lookup, insert, remove, filter_values}
use neural_mesh_protocol.Prelude.Prefix.{strip_prefix}
use neural_mesh_protocol.Bridge.Stream.{
  LiopStreamBridge, create, on_session_initialized, on_message, on_close, count_entries,
  count_sessions_by_ip, evict_idle_sessions, get_client_ip, Body, McpHttpRequest, JsonRpcOutcome,
  answered, throws, sessions_retired, existing_transport, json_result, too_many_sessions,
  new_transport, touch_entry, or_text, forwarded, stateless_route, direct_route, session_route,
  route_header, after_transport, legacy_route, handle_mcp, stop,
}
use neural_mesh_protocol.Bridge.Stream.Access.{
  validate_jwt, check_token, check_bearer, check_header, next, unauthorized, jwt_validation_failed,
  check_access,
}
use neural_mesh_protocol.Bridge.Stream.Events.{serves, messages, evicts, complete, step, run}
use neural_mesh_protocol.Bridge.Stream.Cap.{
  IsCapped, run-IsCapped, concurrent_handshakes_exceed, initialize_all,
}
use neural_mesh_protocol.Bridge.Stream.Idle.{session_expires}
use neural_mesh_protocol.Bridge.Stream.Auth.{check_access-eq-next_iff}

stream : Unit {0}
unfolding includes lookup insert remove filter_values trim split_first is_space trim_start keep_char
    trim_end create on_session_initialized on_message on_close touch_entry count_entries
    evict_idle_sessions or_text forwarded get_client_ip stateless_route legacy_route direct_route
    session_route route_header handle_mcp after_transport stop strip_prefix validate_jwt check_token
    check_bearer check_header check_access complete step run
stream = tt

-- Every message is answered with its method.
abbrev handle_message : Body → JsonRpcOutcome
handle_message body = elim body.rpc_method [ none ↦ throws | some m ↦ answered m ]

abbrev handshake : McpHttpRequest
handshake = record {
  http_method = "POST";
  mcp_session_id = none;
  content_type = some "application/json";
  x_forwarded_for = some " 10.0.0.7 , 10.0.0.1";
  x_real_ip = none;
  body = some (record { rpc_method = some "initialize"; has_meta = false });
}

abbrev other_handshake : McpHttpRequest
other_handshake = record handshake { x_forwarded_for = none }

abbrev bridge : LiopStreamBridge
bridge = record { active_sessions = []; max_sessions_per_ip = 1; session_timeout_ms = 100 }

abbrev with_session : LiopStreamBridge
with_session = record bridge {
  active_sessions = ("s1", record { last_activity = 20; client_ip = "10.0.0.7" }) ∷ [];
}

addresses :
    (get_client_ip (some " 10.0.0.7 , 10.0.0.1") (some "x") ≡ "10.0.0.7")
    × (get_client_ip (some "") (some "10.1.1.1") ≡ "10.1.1.1")
    × (get_client_ip none none ≡ "unknown")
unfolding stream
addresses = (refl, refl, refl)

routes :
    (handle_mcp true handle_message 5 handshake bridge ≡ (new_transport "10.0.0.7", bridge))
    × (handle_mcp true handle_message 5 handshake with_session ≡ (too_many_sessions, with_session))
    × ((handle_mcp false handle_message 5 handshake bridge).0 ≡ json_result "initialize")
    × ((handle_mcp false handle_message 5
          (record handshake { mcp_session_id = some "s1" })
          with_session).0
        ≡ sessions_retired)
    × (handle_mcp true handle_message 30
          (record handshake { mcp_session_id = some "s1" })
          with_session
        ≡ (existing_transport "s1", on_message 30 "s1" with_session))
unfolding stream
routes = (refl, refl, refl, refl, refl)

bridge-IsCapped : IsCapped bridge
unfolding stream
bridge-IsCapped ip = omega arith

run-IsCapped_example : IsCapped (
    run true handle_message
      (serves 5 "s1" handshake ∷ serves 6 "s2" handshake ∷ messages 9 "s1" ∷ evicts 200 ∷ [])
      bridge)
run-IsCapped_example =
    run-IsCapped true handle_message
      (serves 5 "s1" handshake ∷ serves 6 "s2" handshake ∷ messages 9 "s1" ∷ evicts 200 ∷ []) bridge
      (refl, (refl, (refl, (refl, tt)))) bridge-IsCapped

three_sessions_of_two :
    (legacy_route true handshake bridge ≡ new_transport "10.0.0.7")
    × (count_sessions_by_ip "10.0.0.7"
          (run true handle_message (initialize_all 5 "10.0.0.7" ("s1" ∷ "s2" ∷ "s3" ∷ [])) bridge)
        ≡ 3)
unfolding stream
three_sessions_of_two =
    concurrent_handshakes_exceed true handle_message 5 handshake ("s1" ∷ "s2" ∷ "s3" ∷ []) bridge
      (omega arith) (refl, refl, (refl, refl, (refl, refl, tt)))

session_expires_example :
    lookup "s1"
      (run true handle_message
        (serves 30 "s2" other_handshake ∷ evicts 121 ∷ messages 130 "s2" ∷ [])
        with_session).active_sessions
    ≡ none
unfolding stream
session_expires_example =
    session_expires true handle_message
      (serves 30 "s2" other_handshake ∷ evicts 121 ∷ messages 130 "s2" ∷ []) "s1"
      (record { last_activity = 20; client_ip = "10.0.0.7" }) with_session (refl, tt) refl
      (refl, (refl, (refl, tt))) refl

-- a validator that knows one token
abbrev validate_token : String → Option String
validate_token token = if str_eq token "jwt" then none else some "expired"

accesses :
    (check_access (some "") none (some "Bearer ") ≡ unauthorized)
    × (check_access (some "key") (some validate_token) (some "bearer key") ≡ unauthorized)
    × (check_access (some "key") (some validate_token) (some "Bearer  key")
        ≡ jwt_validation_failed "expired")
unfolding stream
accesses = (refl, refl, refl)

check_access-eq-next_iff_example :
    check_access (some "key") (some validate_token) (some "Bearer jwt") ≡ next
unfolding stream
check_access-eq-next_iff_example =
    (check_access-eq-next_iff (some "key") (some validate_token) (some "Bearer jwt")).1
      ("jwt", refl, inr (validate_token, refl, refl))
