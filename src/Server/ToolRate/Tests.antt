-- ===== src/Server/ToolRate/Tests.antt =====
-- sdks/typescript/src/server/index.ts: the call limits on concrete calls.
use neural_mesh_protocol.Prelude.{
  ◌≤◌, ◌<◌, ◌&&◌, ◌≡◌, ◌↔◌, refl, none, some, List, [], ◌∷◌, arith, length,
}
use neural_mesh_protocol.Prelude.Assoc.{lookup, insert}
use neural_mesh_protocol.Server.ToolRate.{
  ToolCallLimits, ToolCallWindows, too_many_calls, retry_after, active_calls, window_of,
  check_tool_call_rate_limit, check_global_rate_limit, then_check_tool, check_rate_limits,
}
use neural_mesh_protocol.Server.ToolRate.Sliding.{count}
use neural_mesh_protocol.Server.ToolRate.Session.{
  Call, InOrder, idle, passed, passed_verdict, session, in_window,
}
use neural_mesh_protocol.Server.ToolRate.Bounds.{
  check_rate_limits-eq-none_iff, tool_calls_bounded, all_calls_bounded,
}

tool_rate : Unit {0}
unfolding retry_after check_tool_call_rate_limit check_global_rate_limit then_check_tool
    check_rate_limits session lookup insert
tool_rate = tt

abbrev limits : ToolCallLimits
limits = record {
  tool_call_window_ms = 60000;
  tool_call_max_per_window = 2;
  global_call_max_per_window = 3;
}

abbrev busy : ToolCallWindows
busy = record {
  tool_call_windows = ("stats", 1000 ∷ 5000 ∷ []) ∷ [];
  global_call_window = 1000 ∷ 5000 ∷ [];
}

-- a refused call names the time to wait; it has used up one of all calls nevertheless
third_refused : check_rate_limits limits 6500 "stats" busy ≡ (
  some (too_many_calls "stats" 2 60000 (some 55)),
  record busy { global_call_window = 1000 ∷ 5000 ∷ 6500 ∷ [] },
)
unfolding tool_rate
third_refused = refl

first_passes_iff : ((check_rate_limits limits 6500 "stats" busy).0 ≡ none) ↔ (
    (length (active_calls 60000 6500 busy.global_call_window) < 3)
    × (length (active_calls 60000 6500 (window_of "stats" busy)) < 2))
first_passes_iff = check_rate_limits-eq-none_iff limits 6500 "stats" busy

abbrev calls : List Call
calls = (1, "stats") ∷ (2, "stats") ∷ (3, "stats") ∷ (4, "sums") ∷ (60002, "sums") ∷ []

calls-InOrder : InOrder 0 calls
calls-InOrder = (omega arith, (omega arith, (omega arith, (omega arith, (omega arith, tt)))))

tool_calls_bounded_example :
    count (λ e. passed "stats" e && in_window limits 1 e) (session limits calls idle []) ≤ 2
tool_calls_bounded_example = tool_calls_bounded limits "stats" calls 1 calls-InOrder

calls_of_all_tools :
    count (λ e. passed_verdict e.verdict && in_window limits 2 e) (session limits calls idle []) ≤ 3
calls_of_all_tools = all_calls_bounded limits calls 2 calls-InOrder
