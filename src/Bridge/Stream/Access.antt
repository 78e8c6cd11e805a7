-- ===== src/Bridge/Stream/Access.antt =====
-- sdks/typescript/src/bridge/stream.ts: the middleware that checks the token of a request.
use neural_mesh_protocol.Prelude.{
  String, Bool, false, not, ◌&&◌, Option, none, some, str_eq, if◌then◌else◌,
}
use neural_mesh_protocol.Prelude.Prefix.{strip_prefix}

-- What the middleware does with a request.
pub data Access : Type 0 where
  next : Access
  unauthorized : Access
  jwt_validation_failed : (message : String) → Access

-- `expectedToken && token === expectedToken`
abbrev pub is_static_token : (expected_token : Option String) → String → Bool
is_static_token none token = false
is_static_token (some expected) token = not (str_eq expected "") && str_eq token expected

abbrev pub validated : Option String → Access
validated none = next
validated (some message) = jwt_validation_failed message

-- the JWT validator, if the server has one; it gives the message of the error that it throws
unfoldable pub validate_jwt : Option (String → Option String) → String → Access
validate_jwt none token = unauthorized
validate_jwt (some validate) token = validated (validate token)

-- the check of a token
unfoldable pub check_token :
    (expected_token : Option String) → Option (String → Option String) → String → Access
unfolding validate_jwt
check_token expected_token jwt_validator token =
    if is_static_token expected_token token then next else validate_jwt jwt_validator token

unfoldable pub check_bearer :
    (expected_token : Option String) → Option (String → Option String) → Option String → Access
unfolding check_token
check_bearer expected_token jwt_validator none = unauthorized
check_bearer expected_token jwt_validator (some token) =
    check_token expected_token jwt_validator token

unfoldable pub check_header :
    (expected_token : Option String) → Option (String → Option String) → Option String → Access
unfolding check_bearer
check_header expected_token jwt_validator none = unauthorized
check_header expected_token jwt_validator (some auth) =
    check_bearer expected_token jwt_validator (strip_prefix "Bearer " auth)

-- the middleware of "/mcp": `authorization` is the header of that name
unfoldable pub check_access :
    (expected_token : Option String)
    → Option (String → Option String)
    → (authorization : Option String) → Access
unfolding check_header
check_access expected_token jwt_validator authorization =
    check_header expected_token jwt_validator authorization
