-- ===== src/Server/ToolRate/Bounds.antt =====
-- sdks/typescript/src/server/index.ts: both limits on the calls, over windows of time.
use neural_mesh_protocol.Prelude.{
  ℕ, ◌≤◌, ◌<◌, String, ◌&&◌, ◌≡◌, ◌↔◌, inl, inr, refl, none, List, [], ◌∷◌, ◌++◌, arith, length,
  if◌then◌else◌, str_eq, str_eq_iff, Bool-cases, ap,
}
use neural_mesh_protocol.Prelude.Assoc.{Assoc, lookup, insert, lookup-insert}
use neural_mesh_protocol.Server.ToolRate.{
  ToolCallLimits, ToolCallWindows, active_calls, window_of, times_of, check_tool_call_rate_limit,
  check_global_rate_limit, then_check_tool, check_rate_limits,
}
use neural_mesh_protocol.Server.ToolRate.Sliding.{count, count-le}
use neural_mesh_protocol.Server.ToolRate.Session.{
  Call, Step, InOrder, idle, passed_verdict, passed, passed_global, session, in_window,
  session-IsBounded,
}

times_of-insert :
    (tool tool' : String) (times : List ℕ) (windows : Assoc (List ℕ))
    → times_of (lookup tool' (insert tool times windows))
      ≡ (if str_eq tool tool' then times else times_of (lookup tool' windows))
times_of-insert tool tool' times windows = ground (arith, lookup-insert tool tool' times windows)

module _ (limits : ToolCallLimits) where
  -- A call is let through exactly if fewer calls than the limits are active, of all tools and of
  -- its own.
  pub check_rate_limits-eq-none_iff :
      (now : ℕ) (tool : String) (w : ToolCallWindows)
      → ((check_rate_limits limits now tool w).0 ≡ none) ↔ (
          (length (active_calls limits.tool_call_window_ms now w.global_call_window)
            < limits.global_call_max_per_window)
          × (length (active_calls limits.tool_call_window_ms now (window_of tool w))
              < limits.tool_call_max_per_window))
  unfolding check_rate_limits then_check_tool check_global_rate_limit check_tool_call_rate_limit
  check_rate_limits-eq-none_iff now tool w = ground arith

  tool_step :
      (tool : String) → Step limits (passed tool) (window_of tool) limits.tool_call_max_per_window
  unfolding check_rate_limits then_check_tool check_global_rate_limit check_tool_call_rate_limit
  tool_step tool now tool' w =
      let active = active_calls limits.tool_call_window_ms now (window_of tool' w) in
      elim (Bool-cases (str_eq tool' tool)) [
        | inl same ↦
            let e : tool' ≡ tool = (str_eq_iff tool' tool).0 same in
            ground (
              arith,
              same,
              ap (λ t. window_of t w) e,
              times_of-insert tool' tool (active ++ now ∷ []) w.tool_call_windows,
            )
        | inr other ↦
            ground
              (arith, other, times_of-insert tool' tool (active ++ now ∷ []) w.tool_call_windows)
      ]

  global_step :
      Step limits passed_global (λ w. w.global_call_window) limits.global_call_max_per_window
  unfolding check_rate_limits then_check_tool check_global_rate_limit check_tool_call_rate_limit
  global_step now tool w = ground arith

  -- From no calls, with a clock that does not run back: in any window of time the calls of a tool
  -- that are let through are never more than its limit.
  pub tool_calls_bounded :
      (tool : String) (calls : List Call) (start : ℕ)
      → InOrder 0 calls
      → count (λ e. passed tool e && in_window limits start e) (session limits calls idle [])
        ≤ limits.tool_call_max_per_window
  unfolding lookup
  tool_calls_bounded tool calls start order =
      session-IsBounded limits (passed tool) (window_of tool) limits.tool_call_max_per_window
        (tool_step tool) calls 0 idle [] order (λ later le. refl) (λ start. omega arith) start

  -- From no calls, with a clock that does not run back: in any window of time the calls that are
  -- let through, of whatever tools, are never more than the global limit.
  pub all_calls_bounded :
      (calls : List Call) (start : ℕ)
      → InOrder 0 calls
      → count
          (λ e. passed_verdict e.verdict && in_window limits start e)
          (session limits calls idle [])
        ≤ limits.global_call_max_per_window
  all_calls_bounded calls start order =
      let events = session limits calls idle [] in
      let passed_both =
        count-le (λ e. passed_verdict e.verdict && in_window limits start e)
          (λ e. passed_global e && in_window limits start e) (λ e h. ground arith) events in
      let bounded =
        session-IsBounded limits passed_global (λ w. w.global_call_window)
          limits.global_call_max_per_window global_step calls 0 idle [] order (λ later le. refl)
          (λ start. omega arith) start in
      omega (arith, passed_both, bounded)
