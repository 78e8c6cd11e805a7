-- ===== src/Gateway/Router/Dispatch/Answers.antt =====
-- sdks/typescript/src/gateway/router.ts: which requests get a response, and its form.
use neural_mesh_protocol.Prelude.{Bool, true, false, ◌||◌, ◌&&◌, ◌≡◌, Option}
use neural_mesh_protocol.Prelude.Json.{Json}
use neural_mesh_protocol.Gateway.Router.Dispatch.{
  Dispatched, responds, silent, raised, pending, Method, initialize, initialized, cancelled,
  tools_call, resources_list, resources_read,
}
use neural_mesh_protocol.Gateway.Router.Dispatch.CallAnswers.{IsResponse}

-- The methods of notifications.
abbrev is_notification : Method → Bool
is_notification initialized = true
is_notification cancelled = true
is_notification initialize = false
is_notification _ = false

abbrev is_call : Method → Bool
is_call tools_call = true
is_call initialize = false
is_call _ = false

abbrev is_of_resources : Method → Bool
is_of_resources resources_list = true
is_of_resources resources_read = true
is_of_resources initialize = false
is_of_resources _ = false

-- Only a notification gets no response, and only the call of a tool may never be settled; an error
-- is raised only for a call of a tool, where requests are authorized, or for a method of resources
-- where a cached manifest lacks them.
abbrev pub IsHandled : (guarded lacking : Bool) → Method → Option Json → Dispatched → Type 0
IsHandled guarded lacking method id (responds response) = IsResponse id response
IsHandled guarded lacking method id silent = is_notification method ≡ true
IsHandled guarded lacking method id raised =
    (guarded || (is_call method || (is_of_resources method && lacking))) ≡ true
IsHandled guarded lacking method id pending = is_call method ≡ true
