-- ===== src/Bridge/Stream/Cap.antt =====
-- sdks/typescript/src/bridge/stream.ts: the number of sessions of one address.
use neural_mesh_protocol.Prelude.{
  ℕ, ◌+◌, ◌≤◌, ◌<◌, String, Bool, true, false, ◌≡◌, refl, inl, inr, ap, none, some, List, [], ◌∷◌,
  arith, str_eq, str_eq_iff, if◌then◌else◌, All, length, Bool-cases, Option-cases,
}
use neural_mesh_protocol.Prelude.Assoc.{
  Assoc, has, lookup, insert, remove, filter_values, lookup-insert,
}
use neural_mesh_protocol.Bridge.Stream.{
  SessionEntry, LiopStreamBridge, on_session_initialized, touch_entry, on_message, on_close,
  count_entries, count_sessions_by_ip, evict_idle_sessions, Body, McpHttpRequest, JsonRpcOutcome,
  new_transport, legacy_route, after_transport,
}
use neural_mesh_protocol.Bridge.Stream.Events.{
  Event, serves, initializes, messages, closes, evicts, step, run,
}
use neural_mesh_protocol.Bridge.Stream.Serves.{ip_of, Served, complete-Served}

count-insert-le :
    (ip id : String) (e : SessionEntry) (m : Assoc SessionEntry)
    → count_entries ip (insert id e m)
      ≤ count_entries ip m + (if str_eq e.client_ip ip then 1 else 0)
unfolding count_entries insert
count-insert-le ip id e [] = omega arith
count-insert-le ip id e ((j, x) ∷ m) = ground (arith, count-insert-le ip id e m)

count-insert-fresh :
    (ip id : String) (e : SessionEntry) (m : Assoc SessionEntry)
    → lookup id m ≡ none
    → count_entries ip (insert id e m)
      ≡ count_entries ip m + (if str_eq e.client_ip ip then 1 else 0)
unfolding count_entries insert lookup
count-insert-fresh ip id e [] h = omega arith
count-insert-fresh ip id e ((j, x) ∷ m) h = ground (arith, count-insert-fresh ip id e m)

count-insert-same :
    (ip id : String) (e x : SessionEntry) (m : Assoc SessionEntry)
    → lookup id m ≡ some x
    → e.client_ip ≡ x.client_ip
    → count_entries ip (insert id e m) ≡ count_entries ip m
unfolding count_entries insert lookup
count-insert-same ip id e x [] h same = absurd (cc h)
count-insert-same ip id e x ((j, y) ∷ m) h same =
    ground (arith, h, same, count-insert-same ip id e x m)

count-remove-le :
    (ip id : String) (m : Assoc SessionEntry) → count_entries ip (remove id m) ≤ count_entries ip m
unfolding count_entries remove
count-remove-le ip id [] = omega arith
count-remove-le ip id ((j, x) ∷ m) = ground (arith, count-remove-le ip id m)

count-filter_values-le :
    (ip : String) (p : SessionEntry → Bool) (m : Assoc SessionEntry)
    → count_entries ip (filter_values p m) ≤ count_entries ip m
unfolding count_entries filter_values
count-filter_values-le ip p [] = omega arith
count-filter_values-le ip p ((j, x) ∷ m) = ground (arith, count-filter_values-le ip p m)

-- No address has more sessions than the limit.
abbrev pub IsCapped : LiopStreamBridge → Type 0
IsCapped b = (ip : String) → count_sessions_by_ip ip b ≤ b.max_sessions_per_ip

on_session_initialized-IsCapped :
    (now : ℕ) (id ip : String) (b : LiopStreamBridge)
    → count_sessions_by_ip ip b < b.max_sessions_per_ip
    → IsCapped b
    → IsCapped (on_session_initialized now id ip b)
unfolding on_session_initialized
on_session_initialized-IsCapped now id ip b room capped other =
    let e : SessionEntry = record { last_activity = now; client_ip = ip } in
    let le = count-insert-le other id e b.active_sessions in
    elim (Bool-cases (str_eq ip other)) [
      | inl same ↦
          ground (
            arith,
            le,
            same,
            room,
            ap (λ x. count_sessions_by_ip x b) ((str_eq_iff ip other).0 same),
          )
      | inr different ↦ ground (arith, le, different, capped other)
    ]

touch_entry-IsCapped :
    (now : ℕ) (id : String) (e : SessionEntry) (b : LiopStreamBridge)
    → lookup id b.active_sessions ≡ some e
    → IsCapped b
    → IsCapped (touch_entry now id (some e) b)
unfolding touch_entry
touch_entry-IsCapped now id e b known capped ip = omega (
  arith,
  capped ip,
  count-insert-same ip id (record e { last_activity = now }) e b.active_sessions known refl,
)

on_close-IsCapped : (id : String) (b : LiopStreamBridge) → IsCapped b → IsCapped (on_close id b)
unfolding on_close
on_close-IsCapped id b capped ip = omega (arith, capped ip, count-remove-le ip id b.active_sessions)

after_transport-IsCapped :
    (http_method id : String) (b : LiopStreamBridge)
    → IsCapped b
    → IsCapped (after_transport http_method id b)
unfolding after_transport on_close
after_transport-IsCapped http_method id b capped = elim (Bool-cases (str_eq http_method "DELETE")) [
  | inl deleted ↦ rw deleted (on_close-IsCapped id b capped)
  | inr other ↦ rw other capped
]

on_message-IsCapped :
    (now : ℕ) (id : String) (b : LiopStreamBridge) → IsCapped b → IsCapped (on_message now id b)
unfolding on_message
on_message-IsCapped now id b capped = elim (Option-cases (lookup id b.active_sessions)) [
  | inl unknown ↦ rw (unknown, touch_entry) capped
  | inr (e, known) ↦ rw known (touch_entry-IsCapped now id e b known capped)
]

evict_idle_sessions-IsCapped :
    (now : ℕ) (b : LiopStreamBridge) → IsCapped b → IsCapped (evict_idle_sessions now b)
unfolding evict_idle_sessions
evict_idle_sessions-IsCapped now b capped ip =
    omega (arith, capped ip, count-filter_values-le ip _ b.active_sessions)

-- A transport initializes within its request, or not at all.
abbrev pub is_serial : Event → Bool
is_serial (initializes _ _ _) = false
is_serial _ = true

module _ (legacy : Bool) (handle_json_rpc_request : Body → JsonRpcOutcome) where
  Served-IsCapped :
      (now : ℕ) (id : String) (r : McpHttpRequest) (b after : LiopStreamBridge)
      → Served now id r b after
      → IsCapped b
      → IsCapped after
  Served-IsCapped now id r b after (inl same) capped = rw same capped
  Served-IsCapped now id r b after (inr (inl (room, opened))) capped =
      rw opened (on_session_initialized-IsCapped now id (ip_of r) b room capped)
  Served-IsCapped now id r b after (inr (inr (named, e, header, known, touched))) capped =
      rw touched (
        after_transport-IsCapped r.http_method named (touch_entry now named (some e) b)
          (touch_entry-IsCapped now named e b known capped))

  step-IsCapped :
      (e : Event) (b : LiopStreamBridge)
      → is_serial e ≡ true
      → IsCapped b
      → IsCapped (step legacy handle_json_rpc_request e b)
  unfolding step
  step-IsCapped (serves now id r) b serial capped =
      Served-IsCapped now id r b _ (complete-Served legacy handle_json_rpc_request now id r b)
        capped
  step-IsCapped (initializes now id ip) b serial capped = absurd (cc serial)
  step-IsCapped (messages now id) b serial capped = on_message-IsCapped now id b capped
  step-IsCapped (closes id) b serial capped = on_close-IsCapped id b capped
  step-IsCapped (evicts now) b serial capped = evict_idle_sessions-IsCapped now b capped

  -- As long as each transport that a request opens initializes before the next event, no history
  -- gives an address more sessions than the limit.
  pub run-IsCapped :
      (events : List Event) (b : LiopStreamBridge)
      → All (λ e. is_serial e ≡ true) events
      → IsCapped b
      → IsCapped (run legacy handle_json_rpc_request events b)
  unfolding run
  run-IsCapped [] b serial capped = capped
  run-IsCapped (e ∷ events) b (first, serial) capped =
      run-IsCapped events (step legacy handle_json_rpc_request e b) serial
        (step-IsCapped e b first capped)

-- The transports that were opened for an address initialize, one after the other.
abbrev pub initialize_all : ℕ → String → List String → List Event
initialize_all now ip [] = []
initialize_all now ip (id ∷ ids) = initializes now id ip ∷ initialize_all now ip ids

-- No identifier is in use, or stands twice.
abbrev pub IsFreshFor : LiopStreamBridge → List String → Type 0
IsFreshFor b [] = Unit
IsFreshFor b (id ∷ ids) =
    (lookup id b.active_sessions ≡ none) × (has id ids ≡ false) × IsFreshFor b ids

IsFreshFor-later :
    (now : ℕ) (id ip : String) (b : LiopStreamBridge) (ids : List String)
    → has id ids ≡ false
    → IsFreshFor b ids
    → IsFreshFor (on_session_initialized now id ip b) ids
unfolding on_session_initialized
IsFreshFor-later now id ip b [] new h = tt
IsFreshFor-later now id ip b (j ∷ ids) new (unused, once, h) = (
  ground (
    arith,
    new,
    unused,
    str_eq_iff j id,
    str_eq_iff id j,
    lookup-insert id j (record { last_activity = now; client_ip = ip }) b.active_sessions,
  ),
  once,
  IsFreshFor-later now id ip b ids (ground (arith, new)) h,
)

module _ (legacy : Bool) (handle_json_rpc_request : Body → JsonRpcOutcome) where
  initialize_all-count :
      (now : ℕ) (ip : String) (ids : List String) (b : LiopStreamBridge)
      → IsFreshFor b ids
      → count_sessions_by_ip ip (run legacy handle_json_rpc_request (initialize_all now ip ids) b)
        ≡ count_sessions_by_ip ip b + length ids
  unfolding run step on_session_initialized
  initialize_all-count now ip [] b h = omega arith
  initialize_all-count now ip (id ∷ ids) b (unused, once, h) =
      let e : SessionEntry = record { last_activity = now; client_ip = ip } in
      ground (
        arith,
        initialize_all-count now ip ids (on_session_initialized now id ip b)
            (IsFreshFor-later now id ip b ids once h),
        count-insert-fresh ip id e b.active_sessions unused,
        str_eq_iff ip ip,
      )

  -- The limit does not hold for requests that overlap: where there is room for one more session of
  -- an address, a request of that address gets a transport however often it is repeated before
  -- the first of them initializes, and each of these transports then adds a session.
  pub concurrent_handshakes_exceed :
      (now : ℕ) (r : McpHttpRequest) (ids : List String) (b : LiopStreamBridge)
      → count_sessions_by_ip (ip_of r) b < b.max_sessions_per_ip
      → IsFreshFor b ids
      → (legacy_route true r b ≡ new_transport (ip_of r))
        × (count_sessions_by_ip
              (ip_of r)
              (run legacy handle_json_rpc_request (initialize_all now (ip_of r) ids) b)
            ≡ count_sessions_by_ip (ip_of r) b + length ids)
  unfolding legacy_route
  concurrent_handshakes_exceed now r ids b room fresh =
      (ground (arith, room), initialize_all-count now (ip_of r) ids b fresh)
