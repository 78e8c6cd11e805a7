-- ===== src/Bridge/Stream/Auth.antt =====
-- sdks/typescript/src/bridge/stream.ts: which requests the middleware lets pass.
use Prim.Native.String.{◌++◌}
use neural_mesh_protocol.Prelude.{
  String, true, ◌≡◌, ◌≢◌, str_eq_iff, ◌↔◌, refl, ap, ◌∙◌, ◌⊎◌, inl, inr, Option, none, some, arith,
  Option-cases,
}
use neural_mesh_protocol.Prelude.Prefix.{strip_prefix, strip_prefix-append, strip_prefix_sound}
use neural_mesh_protocol.Bridge.Stream.Access.{
  next, is_static_token, validated, validate_jwt, check_token, check_bearer, check_header,
  check_access,
}

-- What the middleware asks of a token: it is the static token, which is not empty, or it is not,
-- and the validator of the server raises no error on it.
abbrev pub Accepted : Option String → Option (String → Option String) → String → Type 0
Accepted expected_token jwt_validator token =
    ((expected_token ≡ some token) × (token ≢ ""))
    ⊎ ((validate : String → Option String) × (jwt_validator ≡ some validate)
        × (validate token ≡ none))

is_static_token_iff :
    (expected_token : Option String) (token : String)
    → (is_static_token expected_token token ≡ true) ↔ ((expected_token ≡ some token) × (token ≢ ""))
is_static_token_iff none token = ((λ h. absurd (cc h)), λ (h, _). absurd (cc h))
is_static_token_iff (some expected) token =
    grind (arith, str_eq_iff expected "", str_eq_iff token expected)

access-cases : (o : Option String) → (validated o ≡ next) ↔ (o ≡ none)
access-cases none = ((λ _. refl), (λ _. refl))
access-cases (some m) = ((λ h. absurd (cc h)), λ h. absurd (cc h))

check_token-eq-next_iff :
    (expected_token : Option String) (jwt_validator : Option (String → Option String))
    (token : String)
    → (check_token expected_token jwt_validator token ≡ next)
      ↔ Accepted expected_token jwt_validator token
unfolding check_token validate_jwt
check_token-eq-next_iff expected_token none token =
    ground (arith, is_static_token_iff expected_token token)
check_token-eq-next_iff expected_token (some validate) token =
    ground (arith, access-cases (validate token), is_static_token_iff expected_token token)

strip_prefix-header :
    (header token : String)
    → some header ≡ some ("Bearer " ++ token)
    → strip_prefix "Bearer " header ≡ some token
strip_prefix-header header token h =
    ap (strip_prefix "Bearer ") (cc h) ∙ strip_prefix-append "Bearer " token

-- The middleware lets a request pass exactly if its authorization header is "Bearer ", with one
-- space and in this case of letters, followed by a token that is the static token, if the server
-- has one that is not empty, or on which the JWT validator, if the server has one, raises no error.
pub check_access-eq-next_iff :
    (expected_token : Option String) (jwt_validator : Option (String → Option String))
    (authorization : Option String)
    → (check_access expected_token jwt_validator authorization ≡ next) ↔ (
        (token : String) × (authorization ≡ some ("Bearer " ++ token))
        × Accepted expected_token jwt_validator token)
unfolding check_access check_header check_bearer
check_access-eq-next_iff expected_token jwt_validator none =
    ((λ h. absurd (cc h)), λ (t, h, a). absurd (cc h))
check_access-eq-next_iff expected_token jwt_validator (some header) =
    elim (Option-cases (strip_prefix "Bearer " header)) [
      | inl unprefixed ↦ (
        λ h. absurd (ground (arith, h, unprefixed)),
        λ (t, h, a). absurd (cc (unprefixed, strip_prefix-header header t h)),
      )
      | inr (token, found) ↦
          let judged = check_token-eq-next_iff expected_token jwt_validator token in
          (
            λ h. (
              token,
              ap some (strip_prefix_sound "Bearer " header token found),
              judged.0 (cc (h, found)),
            ),
            λ (t, h, a). cc (
              (check_token-eq-next_iff expected_token jwt_validator t).1 a,
              strip_prefix-header header t h,
            ),
          )
    ]
