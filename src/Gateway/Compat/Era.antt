-- ===== src/Gateway/Compat/Era.antt =====
-- sdks/typescript/src/gateway/mcp-compat.ts: which members a legacy client's response has.
use neural_mesh_protocol.Prelude.{
  String, Bool, ◌||◌, ◌≡◌, Option, none, some, arith, str_eq, if◌then◌else◌,
}
use neural_mesh_protocol.Prelude.Json.{
  Json, null, boolean, number, string, array, object, Entries, member_of,
}
use neural_mesh_protocol.Prelude.Json.Members.{remove_member, member_of-remove_member}
use neural_mesh_protocol.Gateway.Compat.{strip_modern_fields, adapt_result}

abbrev is_modern_field : String → Bool
is_modern_field key = str_eq "cacheScope" key || str_eq "ttlMs" key || str_eq "resultType" key

member_of-strip_modern_fields :
    (key : String) (es : Entries)
    → member_of key (strip_modern_fields es)
      ≡ (if is_modern_field key then none else member_of key es)
unfolding strip_modern_fields
member_of-strip_modern_fields key es = ground (
  arith,
  member_of-remove_member "cacheScope" key (remove_member "ttlMs" (remove_member "resultType" es)),
  member_of-remove_member "ttlMs" key (remove_member "resultType" es),
  member_of-remove_member "resultType" key es,
)

-- An object without the three fields of the newer protocol, or a value that is no object.
abbrev IsLegacyValue : Json → Type 0
IsLegacyValue (object es) =
    (member_of "resultType" es ≡ none)
    × (member_of "ttlMs" es ≡ none)
    × (member_of "cacheScope" es ≡ none)
IsLegacyValue (array vs) = ⊥
IsLegacyValue _ = Unit

abbrev pub IsLegacyResult : Option Json → Type 0
IsLegacyResult none = Unit
IsLegacyResult (some value) = IsLegacyValue value

strip_modern_fields-IsLegacy : (es : Entries) → IsLegacyValue (object (strip_modern_fields es))
strip_modern_fields-IsLegacy es = (
  member_of-strip_modern_fields "resultType" es,
  member_of-strip_modern_fields "ttlMs" es,
  member_of-strip_modern_fields "cacheScope" es,
)

pub adapt_result-IsLegacy : (result : Option Json) → IsLegacyResult (adapt_result result)
adapt_result-IsLegacy none = tt
adapt_result-IsLegacy (some (object es)) = strip_modern_fields-IsLegacy es
adapt_result-IsLegacy (some (array vs)) = strip_modern_fields-IsLegacy _
adapt_result-IsLegacy (some null) = tt
adapt_result-IsLegacy (some (boolean b)) = tt
adapt_result-IsLegacy (some (number t)) = tt
adapt_result-IsLegacy (some (string t)) = tt
