-- ===== src/Security/Rbac.antt =====
-- sdks/typescript/src/security/rbac.ts: which JSON-RPC methods a client may call, by the scopes of its token.
pub mod Laws
mod Tests
use Prim.Native.String
use neural_mesh_protocol.Prelude.{
  ℕ, zero, suc, String, Bool, not, Option, none, some, List, [], ◌∷◌, ◌++◌, filter, str_eq,
  if◌then◌else◌,
}
use neural_mesh_protocol.Prelude.Assoc.{Assoc, lookup, has}

-- `AuthInfo` of security/jwt-validator.ts
pub record AuthInfo : Type 0 where
  pub token : String
  pub client_id : String
  pub scopes : List String
  pub expires_at : Option ℕ

pub data AuthorizationResult : Type 0 where
  allowed : AuthorizationResult
  denied : (reason : String) → AuthorizationResult

-- A call returns a result, or throws a `TypeError`.
pub data Outcome : Type 0 where
  returns : AuthorizationResult → Outcome
  type_error : Outcome

-- What `SCOPE_MAP[method]` may be: a list of the map's own, a function that the object literal
-- inherits from `Object.prototype` (with its `length`), that prototype itself, or undefined.
pub data Property : Type 0 where
  own : List String → Property
  inherited_function : (arity : ℕ) → Property
  prototype : Property
  undefined : Property

unfoldable pub scope_map : Assoc (List String)
scope_map =
    ("initialize", [])
    ∷ ("notifications/initialized", [])
    ∷ ("notifications/cancelled", [])
    ∷ ("ping", [])
    ∷ ("tools/list", "liop:tools:list" ∷ [])
    ∷ ("tools/call", "liop:tools:call" ∷ [])
    ∷ ("resources/list", "liop:resources:read" ∷ [])
    ∷ ("resources/read", "liop:resources:read" ∷ [])
    ∷ ("prompts/list", "liop:schema:read" ∷ [])
    ∷ ("prompts/get", "liop:schema:read" ∷ [])
    ∷ []

-- The functions of `Object.prototype`, each with its `length`.
unfoldable pub prototype_functions : Assoc ℕ
prototype_functions =
    ("constructor", 1)
    ∷ ("hasOwnProperty", 1)
    ∷ ("isPrototypeOf", 1)
    ∷ ("propertyIsEnumerable", 1)
    ∷ ("toLocaleString", 0)
    ∷ ("toString", 0)
    ∷ ("valueOf", 0)
    ∷ ("__defineGetter__", 2)
    ∷ ("__defineSetter__", 2)
    ∷ ("__lookupGetter__", 1)
    ∷ ("__lookupSetter__", 1)
    ∷ []

inherited_property : String → Option ℕ → Property
inherited_property method (some arity) = inherited_function arity
inherited_property method none = if str_eq method "__proto__" then prototype else undefined

own_or_inherited : String → Option (List String) → Property
own_or_inherited method (some scopes) = own scopes
own_or_inherited method none = inherited_property method (lookup method prototype_functions)

-- `SCOPE_MAP[method]`
unfoldable pub method_scopes : String → Property
unfolding own_or_inherited inherited_property
method_scopes method = own_or_inherited method (lookup method scope_map)

-- `methodScopes !== undefined && methodScopes.length === 0`
unfoldable pub is_public : Property → Bool
is_public (own []) = Bool.true
is_public (inherited_function zero) = Bool.true
is_public _ = Bool.false

-- `[...(methodScopes ?? []), ...(additionalScopes ?? [])]`; a function or the prototype is not
-- iterable.
unfoldable pub needed_scopes : Property → Option (List String) → Option (List String)
needed_scopes (own scopes) (some more) = some (scopes ++ more)
needed_scopes (own scopes) none = some (scopes ++ [])
needed_scopes undefined (some more) = some more
needed_scopes undefined none = some []
needed_scopes _ _ = none

-- `missing.join(", ")`
join_comma : List String → String
join_comma [] = ""
join_comma (s ∷ []) = s
join_comma (s ∷ t ∷ rest) = String.◌++◌ s (String.◌++◌ ", " (join_comma (t ∷ rest)))

unfoldable pub missing_scopes : List String → List String → List String
missing_scopes client needed = filter (λ s. not (has s client)) needed

-- The verdict on the missing scopes.
verify_missing : String → List String → AuthorizationResult
verify_missing method [] = allowed
verify_missing method (s ∷ rest) = denied (
    String.◌++◌ "Insufficient scopes for "
      (String.◌++◌ method (String.◌++◌ ". Missing: " (join_comma (s ∷ rest)))))

verify_needed : String → List String → List String → AuthorizationResult
verify_needed method client [] =
    denied (String.◌++◌ "Unknown method: " (String.◌++◌ method ". Access denied (fail-closed)."))
verify_needed method client (s ∷ rest) = verify_missing method (missing_scopes client (s ∷ rest))

verify_scopes : String → AuthInfo → Option (List String) → Outcome
verify_scopes method auth none = type_error
verify_scopes method auth (some needed) = returns (verify_needed method auth.scopes needed)

authenticate : String → Property → Option AuthInfo → Option (List String) → Outcome
authenticate method scopes none additional =
    returns (denied (String.◌++◌ "Authentication required for method: " method))
authenticate method scopes (some auth) additional =
    verify_scopes method auth (needed_scopes scopes additional)

-- `authorizeRequest`
unfoldable pub authorize_request : String → Option AuthInfo → Option (List String) → Outcome
unfolding authenticate verify_scopes verify_needed verify_missing join_comma
authorize_request method auth additional =
    if is_public (method_scopes method)
    then returns allowed
    else authenticate method (method_scopes method) auth additional
