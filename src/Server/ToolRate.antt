-- ===== src/Server/ToolRate.antt =====
-- sdks/typescript/src/server/index.ts: the limits on the calls of each tool and of all tools together
-- (`checkToolCallRateLimit`, `checkGlobalRateLimit` and the start of `callTool`). The clock
-- (`Date.now()`) is an argument.
pub mod Sliding
pub mod Session
pub mod Bounds
mod Tests
use neural_mesh_protocol.Prelude.{
  ℕ, ◌+◌, ◌-◌, ◌/◌, String, Bool, Option, none, some, List, [], ◌∷◌, ◌++◌, ltb, leb, length, filter,
  if◌then◌else◌,
}
use neural_mesh_protocol.Prelude.Assoc.{Assoc, lookup, insert}

-- the limits that the constructor sets
pub record ToolCallLimits : Type 0 where
  pub tool_call_window_ms : ℕ
  pub tool_call_max_per_window : ℕ
  pub global_call_max_per_window : ℕ

-- the times of the calls, by tool and of all
pub record ToolCallWindows : Type 0 where
  pub tool_call_windows : Assoc (List ℕ)
  pub global_call_window : List ℕ

-- The parts of the two error texts. The time to wait is `NaN` where there is no call to wait for.
pub data RateLimited : Type 0 where
  too_many_calls :
      (tool_name : String) (max window_ms : ℕ) (retry_after_sec : Option ℕ) → RateLimited
  global_limit_exceeded : (max window_ms : ℕ) (retry_after_sec : Option ℕ) → RateLimited

-- `now - t < windowMs`, over the integers
abbrev pub is_active : (window_ms now t : ℕ) → Bool
is_active window_ms now t = ltb now (t + window_ms)

-- the calls that are not expired
abbrev pub active_calls : (window_ms now : ℕ) → List ℕ → List ℕ
active_calls window_ms now times = filter (is_active window_ms now) times

-- `Math.ceil((active[0] + windowMs - now) / 1000)`
unfoldable pub retry_after : (window_ms now : ℕ) → List ℕ → Option ℕ
retry_after window_ms now [] = none
retry_after window_ms now (t ∷ times) = some ((t + window_ms - now + 999) / 1000)

abbrev pub times_of : Option (List ℕ) → List ℕ
times_of none = []
times_of (some times) = times

abbrev pub window_of : String → ToolCallWindows → List ℕ
window_of tool_name w = times_of (lookup tool_name w.tool_call_windows)

module _ (limits : ToolCallLimits) where
  -- `checkToolCallRateLimit`: nothing is stored when the call is refused
  unfoldable pub check_tool_call_rate_limit :
      (now : ℕ) (tool_name : String) → ToolCallWindows → Option RateLimited × ToolCallWindows
  check_tool_call_rate_limit now tool_name w =
      let active = active_calls limits.tool_call_window_ms now (window_of tool_name w) in
      if leb limits.tool_call_max_per_window (length active)
      then (
        some (
            too_many_calls tool_name limits.tool_call_max_per_window limits.tool_call_window_ms
              (retry_after limits.tool_call_window_ms now active)),
        w,
      )
      else (
        none,
        record w { tool_call_windows = insert tool_name (active ++ now ∷ []) w.tool_call_windows },
      )

  -- `checkGlobalRateLimit`: the expired calls are dropped in any case
  unfoldable pub check_global_rate_limit :
      (now : ℕ) → ToolCallWindows → Option RateLimited × ToolCallWindows
  check_global_rate_limit now w =
      let active = active_calls limits.tool_call_window_ms now w.global_call_window in
      if leb limits.global_call_max_per_window (length active)
      then (
        some (
            global_limit_exceeded limits.global_call_max_per_window limits.tool_call_window_ms
              (retry_after limits.tool_call_window_ms now active)),
        record w { global_call_window = active },
      )
      else (none, record w { global_call_window = active ++ now ∷ [] })

  -- the second check, unless the first one refused
  unfoldable pub then_check_tool :
      (now : ℕ) (tool_name : String)
      → Option RateLimited × ToolCallWindows
      → Option RateLimited × ToolCallWindows
  then_check_tool now tool_name (some error, w) = (some error, w)
  then_check_tool now tool_name (none, w) = check_tool_call_rate_limit now tool_name w

  -- the two checks at the start of `callTool`
  unfoldable pub check_rate_limits :
      (now : ℕ) (tool_name : String) → ToolCallWindows → Option RateLimited × ToolCallWindows
  check_rate_limits now tool_name w = then_check_tool now tool_name (check_global_rate_limit now w)
