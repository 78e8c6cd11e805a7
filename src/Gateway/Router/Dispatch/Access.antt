-- ===== src/Gateway/Router/Dispatch/Access.antt =====
-- sdks/typescript/src/gateway/router.ts: what a client without a token is answered.
use Prim.Native.String
use text.Mathlib.TextLemmas.{cons-append, cons≢nil}
use neural_mesh_protocol.Prelude.{
  String, true, false, ◌≡◌, refl, sym, ap, ◌∙◌, none, str_eq, str_eq_iff, if◌then◌else◌, Bool-cases,
  inl, inr,
}
use neural_mesh_protocol.Prelude.Assoc.{has}
use neural_mesh_protocol.Security.Rbac.{authorize_request}
use neural_mesh_protocol.Security.Rbac.Laws.{
  open_methods, unauthenticated_iff, unauthenticated_denied,
}
use neural_mesh_protocol.Gateway.Compat.{McpRequest}
use neural_mesh_protocol.Gateway.Router.{LiopMcpRouter}
use neural_mesh_protocol.Gateway.Router.Calls.{World}
use neural_mesh_protocol.Gateway.Router.Dispatch.{LiopServer, responds, method_of, fails_with}
use neural_mesh_protocol.Gateway.Router.Dispatch.Handle.{handle, authorized, dispatch}

abbrev pub token_required : (method : String) → String
token_required method = String.◌++◌ "Authentication required for method: " method

token_required-ne : (method : String) → str_eq (token_required method) "" ≡ false
token_required-ne method = elim (Bool-cases (str_eq (token_required method) "")) [
  | inl same ↦ absurd (
      cons≢nil (
        sym (cons-append "A" "uthentication required for method: " method)
        ∙ (str_eq_iff (token_required method) "").0 same))
  | inr other ↦ other
]

-- A server that validates tokens handles a request without one if its method is one of the open
-- methods of authorizeRequest; any other it answers by an error that names the method, and then
-- neither the server nor the mesh nor the state of the router has a part in it.
pub dispatch-anonymous :
    (w : World) (server : LiopServer) (request : McpRequest) (r : LiopMcpRouter)
    → server.has_jwt_validator ≡ true
    → dispatch w server request none r ≡ (
        if has request.method open_methods
        then handle w server (method_of request.method) request none r
        else (responds (fails_with request.id "-32099" (token_required request.method)), r))
unfolding dispatch
dispatch-anonymous w server request r guarded =
    ap
      (λ b.
        if b
        then authorized w server request none (authorize_request request.method none none) r
        else handle w server (method_of request.method) request none r)
      guarded
    ∙ elim (Bool-cases (has request.method open_methods)) [
      | inl free ↦
          ap (λ o. authorized w server request none o r)
            ((unauthenticated_iff request.method none).1 free)
          ∙ rw free refl
      | inr closed ↦
          ap (λ o. authorized w server request none o r)
            (unauthenticated_denied request.method closed)
          ∙ rw (closed, token_required-ne request.method) refl
    ]
