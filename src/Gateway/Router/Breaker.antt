-- ===== src/Gateway/Router/Breaker.antt =====
-- sdks/typescript/src/gateway/router.ts: when a peer is not asked for its manifest.
use neural_mesh_protocol.Prelude.{
  ℕ, zero, suc, ◌+◌, ◌*◌, ◌-◌, ◌^◌, min, String, Bool, false, not, ◌≡◌, refl, sym, ap, ◌∙◌, Option,
  none, some, List, [], ◌∷◌, arith, ltb, leb, str_eq, str_eq_iff, if◌then◌else◌, Bool-cases, inl,
  inr,
}
use neural_mesh_protocol.Prelude.Assoc.{Assoc, lookup, insert, lookup-insert, lookup-remove}
use neural_mesh_protocol.Gateway.Router.{
  LiopManifest, FailureState, LiopMcpRouter, QueryResult, found, not_found, rejected, skip_state,
  skip_log_throttle_ms, should_skip_manifest_query, record_manifest_query_success,
  record_manifest_query_failure, failures_of, backoff, is_tampered, settle,
}

-- What happens at the breaker: it is asked whether to skip a query, or a query has settled.
pub data Event : Type 0 where
  asks : (now : ℕ) (peer_id : String) → Event
  settles : (now : ℕ) → QueryResult → Event

-- The failures in a row of a peer, and the time of the last.
abbrev Streak : Type 0
Streak = Option (ℕ × ℕ)

abbrev pub fails : (now : ℕ) → Streak → Streak
fails now none = some (1, now)
fails now (some (n, t)) = some (n + 1, now)

-- How long a peer cools down after so many failures in a row: 15 seconds after the first, twice as
-- long after each further one, and 5 minutes at most.
unfoldable pub cooldown : (failures : ℕ) → ℕ
cooldown zero = 0
cooldown (suc zero) = 15000
cooldown (suc (suc n)) = min (2 * cooldown (suc n)) 300000

-- The breaker lets no query pass while the peer cools down.
abbrev is_cooling : (now : ℕ) → Streak → Bool
is_cooling now none = false
is_cooling now (some (n, t)) = ltb now (t + cooldown n)

module _ (verify : LiopManifest → String → String → Bool) where
  -- The streak of a peer after a query has settled: a manifest ends it, unless it is tampered with.
  abbrev after_query : String → (now : ℕ) → QueryResult → Streak → Streak
  after_query peer now (found q manifest) s =
      if str_eq q peer
      then (if is_tampered verify manifest manifest.pqc_signature manifest.pqc_public_key
          then fails now s
          else none)
      else s
  after_query peer now (not_found q) s = if str_eq q peer then fails now s else s
  after_query peer now rejected s = s

  abbrev streak_from : String → List Event → Streak → Streak
  streak_from peer [] s = s
  streak_from peer (asks now q ∷ events) s = streak_from peer events s
  streak_from peer (settles now result ∷ events) s =
      streak_from peer events (after_query peer now result s)

  unfoldable pub step : Event → LiopMcpRouter → LiopMcpRouter
  step (asks now q) r = record r {
    manifest_failure_state = (should_skip_manifest_query now q r.manifest_failure_state).1;
  }
  step (settles now result) r = settle verify now result r

  unfoldable pub run : List Event → LiopMcpRouter → LiopMcpRouter
  run [] r = r
  run (e ∷ events) r = run events (step e r)

-- The failures and the end of the cooldown, as the breaker keeps them, and as the streak gives them.
abbrev view : Option FailureState → Option (ℕ × ℕ)
view none = none
view (some state) = some (state.failures, state.cooldown_until)

abbrev cooled : Streak → Option (ℕ × ℕ)
cooled none = none
cooled (some (n, t)) = some (n, t + cooldown n)

power_suc : (n : ℕ) → 2 ^ (suc n) ≡ 2 * 2 ^ n
power_suc n = omega arith

backoff-suc : (n : ℕ) → backoff (suc (suc n)) ≡ min (2 * backoff (suc n)) 300000
backoff-suc n =
    let one : (k : ℕ) → suc k - 1 ≡ k = λ k. omega arith in
    rw (one n, one (suc n)) (omega (arith, power_suc n))

backoff-eq-cooldown : (n : ℕ) → backoff (suc n) ≡ cooldown (suc n)
unfolding cooldown
backoff-eq-cooldown zero = refl
backoff-eq-cooldown (suc n) = omega (arith, backoff-suc n, backoff-eq-cooldown n)

abbrev first_of : Option (ℕ × ℕ) → ℕ
first_of none = 0
first_of (some (n, t)) = n

abbrev second_of : Option (ℕ × ℕ) → ℕ
second_of none = 0
second_of (some (n, t)) = t

not-leb : (a b : ℕ) → not (leb a b) ≡ ltb b a
not-leb a b = ground arith

failures_of-view : (o : Option FailureState) → failures_of o ≡ first_of (view o)
failures_of-view none = refl
failures_of-view (some state) = refl

cooled-fails :
    (now : ℕ) (s : Streak)
    → cooled (fails now s) ≡ some (first_of (cooled s) + 1, now + backoff (first_of (cooled s) + 1))
cooled-fails now none = ap (λ d. some (1, now + d)) (sym (backoff-eq-cooldown 0))
cooled-fails now (some (n, t)) =
    let one : n + 1 ≡ suc n = omega arith in
    ap (λ d. some (n + 1, now + d))
      (ap cooldown one ∙ sym (backoff-eq-cooldown n) ∙ ap backoff (sym one))

failure-view :
    (now : ℕ) (peer q : String) (states : Assoc FailureState) (s : Streak)
    → view (lookup peer states) ≡ cooled s
    → view (lookup peer (record_manifest_query_failure now q states))
      ≡ cooled (if str_eq q peer then fails now s else s)
unfolding record_manifest_query_failure
failure-view now peer q states s h =
    let failed : ℕ → Option (ℕ × ℕ) = λ n. some (n + 1, now + backoff (n + 1)) in
    elim (Bool-cases (str_eq q peer)) [
      | inl same ↦
          ap view (lookup-insert q peer _ states)
          ∙ rw same (
              ap (λ k. failed (failures_of (lookup k states))) ((str_eq_iff q peer).0 same)
              ∙ ap failed (failures_of-view (lookup peer states) ∙ ap first_of h)
              ∙ sym (cooled-fails now s))
      | inr other ↦ ap view (lookup-insert q peer _ states) ∙ rw other h
    ]

success-view :
    (peer q : String) (states : Assoc FailureState) (s : Streak)
    → view (lookup peer states) ≡ cooled s
    → view (lookup peer (record_manifest_query_success q states))
      ≡ cooled (if str_eq q peer then none else s)
unfolding record_manifest_query_success
success-view peer q states s h = elim (Bool-cases (str_eq q peer)) [
  | inl same ↦ ap view (lookup-remove q peer states) ∙ rw same refl
  | inr other ↦ ap view (lookup-remove q peer states) ∙ rw other h
]

insert-view :
    (peer q : String) (state new : FailureState) (states : Assoc FailureState)
    → lookup q states ≡ some state
    → view (some new) ≡ view (some state)
    → view (lookup peer (insert q new states)) ≡ view (lookup peer states)
insert-view peer q state new states known same_view = elim (Bool-cases (str_eq q peer)) [
  | inl same ↦
      ap view (lookup-insert q peer new states)
      ∙ rw same (
          same_view
          ∙ sym (ap view known)
          ∙ ap (λ k. view (lookup k states)) ((str_eq_iff q peer).0 same))
  | inr other ↦ ap view (lookup-insert q peer new states) ∙ rw other refl
]

skip-view :
    (now : ℕ) (peer q : String) (states : Assoc FailureState) (o : Option FailureState)
    → lookup q states ≡ o
    → view (lookup peer (skip_state now q o states).1) ≡ view (lookup peer states)
skip-view now peer q states none known = refl
skip-view now peer q states (some state) known = elim (Bool-cases (leb state.cooldown_until now)) [
  | inl over ↦ rw over refl
  | inr cooling ↦ elim (Bool-cases (ltb (state.last_skip_log_at + skip_log_throttle_ms) now)) [
    | inl logs ↦ rw (cooling, logs) (insert-view peer q state _ states known refl)
    | inr silent ↦ rw (cooling, silent) refl
  ]
]

skip-cooling :
    (now : ℕ) (q : String) (states : Assoc FailureState) (o : Option FailureState) (s : Streak)
    → view o ≡ cooled s
    → (skip_state now q o states).0 ≡ is_cooling now s
skip-cooling now q states none none h = refl
skip-cooling now q states none (some (n, t)) h = absurd (cc h)
skip-cooling now q states (some state) none h = absurd (cc h)
skip-cooling now q states (some state) (some (n, t)) h =
    let until : state.cooldown_until ≡ t + cooldown n = ap second_of h in
    let later : not (leb state.cooldown_until now) ≡ ltb now (t + cooldown n) =
      ap (λ u. not (leb u now)) until ∙ not-leb (t + cooldown n) now in
    elim (Bool-cases (leb state.cooldown_until now)) [
      | inl over ↦ rw over (sym (ap not over) ∙ later)
      | inr cooling ↦ elim (Bool-cases (ltb (state.last_skip_log_at + skip_log_throttle_ms) now)) [
        | inl logs ↦ rw (cooling, logs) (sym (ap not cooling) ∙ later)
        | inr silent ↦ rw (cooling, silent) (sym (ap not cooling) ∙ later)
      ]
    ]

module _ (verify : LiopManifest → String → String → Bool) where
  step-view :
      (e : Event) (peer : String) (r : LiopMcpRouter) (s : Streak)
      → view (lookup peer r.manifest_failure_state) ≡ cooled s
      → view (lookup peer (step verify e r).manifest_failure_state)
        ≡ cooled (streak_from verify peer (e ∷ []) s)
  unfolding step settle should_skip_manifest_query
  step-view (asks now q) peer r s h =
      skip-view now peer q r.manifest_failure_state (lookup q r.manifest_failure_state) refl ∙ h
  step-view (settles now (found q manifest)) peer r s h =
      elim (Bool-cases
        (is_tampered verify manifest manifest.pqc_signature manifest.pqc_public_key)) [
          | inl bad ↦ rw bad (failure-view now peer q r.manifest_failure_state s h)
          | inr good ↦ rw good (success-view peer q r.manifest_failure_state s h)
        ]
  step-view (settles now (not_found q)) peer r s h =
      failure-view now peer q r.manifest_failure_state s h
  step-view (settles now rejected) peer r s h = h

  run-view :
      (events : List Event) (peer : String) (r : LiopMcpRouter) (s : Streak)
      → view (lookup peer r.manifest_failure_state) ≡ cooled s
      → view (lookup peer (run verify events r).manifest_failure_state)
        ≡ cooled (streak_from verify peer events s)
  unfolding run
  run-view [] peer r s h = h
  run-view (asks now q ∷ events) peer r s h =
      run-view events peer _ s (step-view (asks now q) peer r s h)
  run-view (settles now result ∷ events) peer r s h =
      run-view events peer _ _ (step-view (settles now result) peer r s h)

  -- After any history of a breaker that had no failures: a query to a peer is skipped exactly while
  -- its cooldown lasts, which begins with the last of its failures in a row and is 15 seconds after
  -- one failure, twice as long after each further one, and 5 minutes at most.
  pub should_skip-run :
      (events : List Event) (now : ℕ) (peer : String) (r : LiopMcpRouter)
      → r.manifest_failure_state ≡ []
      → (should_skip_manifest_query now peer (run verify events r).manifest_failure_state).0
        ≡ is_cooling now (streak_from verify peer events none)
  unfolding should_skip_manifest_query lookup
  should_skip-run events now peer r empty =
      skip-cooling now peer (run verify events r).manifest_failure_state _
        (streak_from verify peer events none)
        (run-view events peer r none (ap (λ states. view (lookup peer states)) empty))
