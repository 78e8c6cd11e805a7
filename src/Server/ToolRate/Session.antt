-- ===== src/Server/ToolRate/Session.antt =====
-- sdks/typescript/src/server/index.ts: the calls that the limits let through in any window of time.
use neural_mesh_protocol.Prelude.{
  ℕ, ◌+◌, ◌≤◌, ◌<◌, String, Bool, true, false, ◌&&◌, ◌≡◌, ◌⊎◌, inl, inr, Option, none, some, List,
  [], ◌∷◌, ◌++◌, arith, ltb, leb, length, str_eq,
}
use neural_mesh_protocol.Server.ToolRate.{
  ToolCallLimits, ToolCallWindows, RateLimited, global_limit_exceeded, is_active, active_calls,
  check_rate_limits,
}
use neural_mesh_protocol.Server.ToolRate.Sliding.{
  length-active_calls, length-active_calls-snoc, count, count-le,
}

-- A call of a tool, with the answer of the limits.
pub record Event : Type 0 where
  pub time : ℕ
  pub tool_name : String
  pub verdict : Option RateLimited

abbrev pub Call : Type 0
Call = ℕ × String

-- The clock does not run back.
abbrev pub InOrder : ℕ → List Call → Type 0
InOrder last [] = Unit
InOrder last ((now, tool) ∷ calls) = (last ≤ now) × InOrder now calls

-- no call yet
abbrev pub idle : ToolCallWindows
idle = record { tool_call_windows = []; global_call_window = [] }

abbrev pub passed_verdict : Option RateLimited → Bool
passed_verdict none = true
passed_verdict (some error) = false

abbrev pub passed_global_verdict : Option RateLimited → Bool
passed_global_verdict (some (global_limit_exceeded _ _ _)) = false
passed_global_verdict _ = true

-- a call of the tool that is let through
abbrev pub passed : String → Event → Bool
passed tool e = passed_verdict e.verdict && str_eq e.tool_name tool

-- a call that the global limit lets through
abbrev pub passed_global : Event → Bool
passed_global e = passed_global_verdict e.verdict

module _ (limits : ToolCallLimits) where
  abbrev pub event : ℕ → String → ToolCallWindows → Event
  event now tool w = record {
    time = now;
    tool_name = tool;
    verdict = (check_rate_limits limits now tool w).0;
  }

  -- The events of the calls, the last one first, in front of those before.
  unfoldable pub session : List Call → ToolCallWindows → List Event → List Event
  session [] w events = events
  session ((now, tool) ∷ calls) w events =
      session calls (check_rate_limits limits now tool w).1 (event now tool w ∷ events)

  -- Is it an event of the `tool_call_window_ms` from a start?
  abbrev pub in_window : ℕ → Event → Bool
  in_window start e = leb start e.time && ltb e.time (start + limits.tool_call_window_ms)

  -- One limit: the calls that it counts, their window and their most.
  module _ (counts : Event → Bool) (window : ToolCallWindows → List ℕ) (most : ℕ) where
    -- A call is counted, with room for it, or it is not counted.
    abbrev pub Step : Type 0
    Step =
        (now : ℕ) (tool : String) (w : ToolCallWindows)
        → ((counts (event now tool w) ≡ true)
            × (length (active_calls limits.tool_call_window_ms now (window w)) < most)
            × (window (check_rate_limits limits now tool w).1
                ≡ active_calls limits.tool_call_window_ms now (window w) ++ now ∷ []))
          ⊎ ((counts (event now tool w) ≡ false)
              × ((window (check_rate_limits limits now tool w).1 ≡ window w)
                  ⊎ (window (check_rate_limits limits now tool w).1
                      ≡ active_calls limits.tool_call_window_ms now (window w))))

    -- The window holds the counted calls that are active, now or later.
    abbrev Tracks : ℕ → ToolCallWindows → List Event → Type 0
    Tracks now w events =
        (later : ℕ)
        → now ≤ later
        → length (active_calls limits.tool_call_window_ms later (window w))
          ≡ count (λ e. counts e && is_active limits.tool_call_window_ms later e.time) events

    abbrev pub IsBounded : List Event → Type 0
    IsBounded events = (start : ℕ) → count (λ e. counts e && in_window start e) events ≤ most

    module _ (step : Step) where
      check-Tracks :
          (last now : ℕ) (tool : String) (w : ToolCallWindows) (events : List Event)
          → last ≤ now
          → Tracks last w events
          → Tracks now (check_rate_limits limits now tool w).1 (event now tool w ∷ events)
      check-Tracks last now tool w events le tracks later le' = elim (step now tool w) [
        | inl (counted, room, e) ↦ rw e (
            ground (
              arith,
              tracks later (omega arith),
              length-active_calls limits.tool_call_window_ms now later (window w) le',
              length-active_calls-snoc limits.tool_call_window_ms later now
                  (active_calls limits.tool_call_window_ms now (window w)),
            ))
        | inr (other, inl e) ↦ rw e (ground (arith, tracks later (omega arith)))
        | inr (other, inr e) ↦ rw e (
            ground (
              arith,
              tracks later (omega arith),
              length-active_calls limits.tool_call_window_ms now later (window w) le',
            ))
      ]

      check-IsBounded :
          (last now : ℕ) (tool : String) (w : ToolCallWindows) (events : List Event)
          → last ≤ now
          → Tracks last w events
          → IsBounded events
          → IsBounded (event now tool w ∷ events)
      check-IsBounded last now tool w events le tracks bounded start = elim (step now tool w) [
        | inl (counted, room, e) ↦
            ground (arith, tracks now le, bounded start, recent start now events)
        | inr (other, e) ↦ ground (arith, bounded start)
      ]
        where
          recent :
              (start now : ℕ) (events : List Event)
              → start ≤ now
              → now < start + limits.tool_call_window_ms
              → count (λ e. counts e && in_window start e) events
                ≤ count (λ e. counts e && is_active limits.tool_call_window_ms now e.time) events
          recent start now events le lt = count-le _ _ (λ e h. ground arith) events

      pub session-IsBounded :
          (calls : List Call) (last : ℕ) (w : ToolCallWindows) (events : List Event)
          → InOrder last calls
          → Tracks last w events
          → IsBounded events
          → IsBounded (session calls w events)
      unfolding session
      session-IsBounded [] last w events order tracks bounded = bounded
      session-IsBounded ((now, tool) ∷ calls) last w events (le, order) tracks bounded =
          session-IsBounded calls now (check_rate_limits limits now tool w).1
            (event now tool w ∷ events) order (check-Tracks last now tool w events le tracks)
            (check-IsBounded last now tool w events le tracks bounded)
