-- ===== src/Bridge/Stream/Idle.antt =====
-- sdks/typescript/src/bridge/stream.ts: sessions that are idle.
use neural_mesh_protocol.Prelude.{
  ℕ, ◌+◌, String, Bool, true, false, not, ◌||◌, ◌≡◌, refl, ◌⊎◌, inl, inr, ap, ◌∙◌, Option, none,
  some, List, [], ◌∷◌, arith, any, str_eq, All, ltb, Bool-cases, Option-cases,
}
use neural_mesh_protocol.Prelude.Assoc.{
  IsUnique, lookup, insert, remove, lookup-insert, lookup-remove, lookup-filter_values,
  insert-IsUnique, remove-IsUnique, filter_values-IsUnique, keep,
}
use neural_mesh_protocol.Bridge.Stream.{
  SessionEntry, LiopStreamBridge, on_session_initialized, touch_entry, on_message, on_close,
  is_idle, evict_idle_sessions, Body, McpHttpRequest, JsonRpcOutcome, after_transport,
}
use neural_mesh_protocol.Bridge.Stream.Events.{
  Event, serves, initializes, messages, closes, evicts, step, run,
}
use neural_mesh_protocol.Bridge.Stream.Serves.{Served, complete-Served}

-- An eviction keeps exactly the sessions whose last activity is at most the timeout ago.
pub lookup-evict_idle_sessions :
    (now : ℕ) (id : String) (b : LiopStreamBridge)
    → IsUnique b.active_sessions
    → lookup id (evict_idle_sessions now b).active_sessions
      ≡ keep
          (λ e. not (ltb (e.last_activity + b.session_timeout_ms) now))
          (lookup id b.active_sessions)
unfolding evict_idle_sessions
lookup-evict_idle_sessions now id b unique =
    lookup-filter_values (λ e. not (is_idle b.session_timeout_ms now e)) id b.active_sessions unique

-- Does the event name the session, other than to close it?
abbrev pub is_header : Option String → String → Bool
is_header none id = false
is_header (some h) id = str_eq h id

abbrev pub touches : String → Event → Bool
touches id (serves now session_id r) = str_eq session_id id || is_header r.mcp_session_id id
touches id (initializes now session_id ip) = str_eq session_id id
touches id (messages now session_id) = str_eq session_id id
touches id (closes session_id) = false
touches id (evicts now) = false

abbrev pub evicts_after : ℕ → Event → Bool
evicts_after time (evicts now) = ltb time now
evicts_after time _ = false

-- The bridge holds each session once; the session `id` is gone, or as it was.
abbrev pub IsLeft : (id : String) (timeout : ℕ) → Option SessionEntry → LiopStreamBridge → Type 0
IsLeft id timeout o b =
    IsUnique b.active_sessions
    × (b.session_timeout_ms ≡ timeout)
    × ((lookup id b.active_sessions ≡ none) ⊎ (lookup id b.active_sessions ≡ o))

insert-IsLeft :
    (id j : String) (timeout : ℕ) (o : Option SessionEntry) (x : SessionEntry)
    (b : LiopStreamBridge)
    → str_eq j id ≡ false
    → IsLeft id timeout o b
    → IsLeft id timeout o (record b { active_sessions = insert j x b.active_sessions })
insert-IsLeft id j timeout o x b other (unique, same, left) = (
  insert-IsUnique j x b.active_sessions unique,
  same,
  ground (arith, other, left, lookup-insert j id x b.active_sessions),
)

remove-IsLeft :
    (id j : String) (timeout : ℕ) (o : Option SessionEntry) (b : LiopStreamBridge)
    → IsLeft id timeout o b
    → IsLeft id timeout o (record b { active_sessions = remove j b.active_sessions })
remove-IsLeft id j timeout o b (unique, same, left) = (
  remove-IsUnique j b.active_sessions unique,
  same,
  ground (arith, left, lookup-remove j id b.active_sessions),
)

after_transport-IsLeft :
    (http_method id j : String) (timeout : ℕ) (o : Option SessionEntry) (b : LiopStreamBridge)
    → IsLeft id timeout o b
    → IsLeft id timeout o (after_transport http_method j b)
unfolding after_transport
after_transport-IsLeft http_method id j timeout o b left =
    elim (Bool-cases (str_eq http_method "DELETE")) [
      | inl deleted ↦ rw deleted (remove-IsLeft id j timeout o b left)
      | inr other ↦ rw other left
    ]

Served-IsLeft :
    (now : ℕ) (session_id id : String) (r : McpHttpRequest) (timeout : ℕ) (o : Option SessionEntry)
    (b after : LiopStreamBridge)
    → Served now session_id r b after
    → (str_eq session_id id || is_header r.mcp_session_id id) ≡ false
    → IsLeft id timeout o b
    → IsLeft id timeout o after
unfolding on_session_initialized touch_entry
Served-IsLeft now session_id id r timeout o b after (inl same) other left = rw same left
Served-IsLeft now session_id id r timeout o b after (inr (inl (room, opened))) other left =
    rw opened (insert-IsLeft id session_id timeout o _ b (ground arith) left)
Served-IsLeft now session_id id r timeout o b after (inr (inr (j, x, header, known, touched))) other
      left =
    let named : str_eq j id ≡ false = ground (arith, other, ap (λ h. is_header h id) header) in
    rw touched (
      after_transport-IsLeft r.http_method id j timeout o (touch_entry now j (some x) b)
        (insert-IsLeft id j timeout o _ b named left))

on_message-IsLeft :
    (now : ℕ) (id j : String) (timeout : ℕ) (o : Option SessionEntry) (b : LiopStreamBridge)
    → str_eq j id ≡ false
    → IsLeft id timeout o b
    → IsLeft id timeout o (on_message now j b)
unfolding on_message touch_entry
on_message-IsLeft now id j timeout o b other left =
    elim (Option-cases (lookup j b.active_sessions)) [
      | inl unknown ↦ rw (unknown, touch_entry) left
      | inr (x, known) ↦ rw (known, touch_entry) (insert-IsLeft id j timeout o _ b other left)
    ]

keep-cases :
    (p : SessionEntry → Bool) (o : Option SessionEntry) → (keep p o ≡ none) ⊎ (keep p o ≡ o)
keep-cases p none = inl refl
keep-cases p (some e) = ground arith

evict-IsLeft :
    (now : ℕ) (id : String) (timeout : ℕ) (o : Option SessionEntry) (b : LiopStreamBridge)
    → IsLeft id timeout o b
    → IsLeft id timeout o (evict_idle_sessions now b)
unfolding evict_idle_sessions
evict-IsLeft now id timeout o b (unique, same, left) =
    let kept : SessionEntry → Bool = λ x. not (is_idle b.session_timeout_ms now x) in
    (
      filter_values-IsUnique kept b.active_sessions unique,
      same,
      ground (
        arith,
        left,
        lookup-evict_idle_sessions now id b unique,
        keep-cases kept (lookup id b.active_sessions),
      ),
    )

evict-late :
    (now : ℕ) (id : String) (timeout : ℕ) (e : SessionEntry) (b : LiopStreamBridge)
    → IsLeft id timeout (some e) b
    → ltb (e.last_activity + timeout) now ≡ true
    → lookup id (evict_idle_sessions now b).active_sessions ≡ none
evict-late now id timeout e b (unique, same, left) late =
    let found = lookup-evict_idle_sessions now id b unique in
    let kept : SessionEntry → Bool = λ x. not (is_idle b.session_timeout_ms now x) in
    elim left [
      | inl gone ↦ found ∙ ap (keep kept) gone
      | inr there ↦ found ∙ ap (keep kept) there ∙ rw (same, late) refl
    ]

module _ (legacy : Bool) (handle_json_rpc_request : Body → JsonRpcOutcome) where
  step-IsLeft :
      (ev : Event) (id : String) (timeout : ℕ) (o : Option SessionEntry) (b : LiopStreamBridge)
      → touches id ev ≡ false
      → IsLeft id timeout o b
      → IsLeft id timeout o (step legacy handle_json_rpc_request ev b)
  unfolding step on_session_initialized on_close
  step-IsLeft (serves now sid r) id timeout o b other left =
      Served-IsLeft now sid id r timeout o b _
        (complete-Served legacy handle_json_rpc_request now sid r b) other left
  step-IsLeft (initializes now sid ip) id timeout o b other left =
      insert-IsLeft id sid timeout o _ b other left
  step-IsLeft (messages now sid) id timeout o b other left =
      on_message-IsLeft now id sid timeout o b other left
  step-IsLeft (closes sid) id timeout o b other left = remove-IsLeft id sid timeout o b left
  step-IsLeft (evicts now) id timeout o b other left = evict-IsLeft now id timeout o b left

  run-gone :
      (events : List Event) (id : String) (timeout : ℕ) (b : LiopStreamBridge)
      → All (λ ev. touches id ev ≡ false) events
      → IsLeft id timeout none b
      → lookup id (run legacy handle_json_rpc_request events b).active_sessions ≡ none
  unfolding run
  run-gone [] id timeout b other (unique, same, gone) = elim gone [ inl h ↦ h | inr h ↦ h ]
  run-gone (ev ∷ events) id timeout b (first, other) gone =
      run-gone events id timeout (step legacy handle_json_rpc_request ev b) other
        (step-IsLeft ev id timeout none b first gone)

  evicts_after-gone :
      (ev : Event) (id : String) (timeout : ℕ) (e : SessionEntry) (b : LiopStreamBridge)
      → IsLeft id timeout (some e) b
      → evicts_after (e.last_activity + timeout) ev ≡ true
      → lookup id (step legacy handle_json_rpc_request ev b).active_sessions ≡ none
  unfolding step
  evicts_after-gone (evicts now) id timeout e b left late = evict-late now id timeout e b left late
  evicts_after-gone (serves _ _ _) id timeout e b left late = absurd (cc late)
  evicts_after-gone (initializes _ _ _) id timeout e b left late = absurd (cc late)
  evicts_after-gone (messages _ _) id timeout e b left late = absurd (cc late)
  evicts_after-gone (closes _) id timeout e b left late = absurd (cc late)

  run-expires :
      (events : List Event) (id : String) (timeout : ℕ) (e : SessionEntry) (b : LiopStreamBridge)
      → All (λ ev. touches id ev ≡ false) events
      → IsLeft id timeout (some e) b
      → any (evicts_after (e.last_activity + timeout)) events ≡ true
      → lookup id (run legacy handle_json_rpc_request events b).active_sessions ≡ none
  unfolding run
  run-expires [] id timeout e b other left late = absurd (cc late)
  run-expires (ev ∷ events) id timeout e b (first, other) left late =
      let (unique, same, rest) = step-IsLeft ev id timeout (some e) b first left in
      elim (Bool-cases (evicts_after (e.last_activity + timeout) ev)) [
        | inl now ↦
            run-gone events id timeout (step legacy handle_json_rpc_request ev b) other
              (unique, same, inl (evicts_after-gone ev id timeout e b left now))
        | inr later ↦
            run-expires events id timeout e (step legacy handle_json_rpc_request ev b) other
              (unique, same, rest) (ground (arith, late, later))
      ]

  -- A session that no later event names is gone as soon as an eviction runs at a time that is more
  -- than the timeout after its last activity, and it stays gone.
  pub session_expires :
      (events : List Event) (id : String) (e : SessionEntry) (b : LiopStreamBridge)
      → IsUnique b.active_sessions
      → lookup id b.active_sessions ≡ some e
      → All (λ ev. touches id ev ≡ false) events
      → any (evicts_after (e.last_activity + b.session_timeout_ms)) events ≡ true
      → lookup id (run legacy handle_json_rpc_request events b).active_sessions ≡ none
  session_expires events id e b unique known other late =
      run-expires events id b.session_timeout_ms e b other (unique, refl, inr known) late
