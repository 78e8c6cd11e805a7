-- ===== src/Server/Pii/Keys.antt =====
-- sdks/typescript/src/server/pii.ts: keys that are forbidden, or hold a forbidden word.
use Prim.Native.Char.{code}
use Prim.Native.String.{◌++◌}
use neural_mesh_protocol.Prelude.{
  ℕ, String, Bool, true, false, not, ◌&&◌, ◌||◌, Option, none, some, List, [], ◌∷◌, map, filter,
  includes, to_lower_case, ltb, leb, ◌+◌, ◌-◌, ◌==◌, str_eq, if◌then◌else◌,
}
use neural_mesh_protocol.Prelude.Assoc.{has}
use neural_mesh_protocol.Prelude.Trim.{text_size}

-- `KEY_SAFELIST`
abbrev pub key_safelist : List String
key_safelist =
    "grid" ∷ "video" ∷ "android" ∷ "identity" ∷ "provide" ∷ "override" ∷ "validate" ∷ "hidden"
    ∷ "widget" ∷ "guidelines" ∷ "beside" ∷ "guideline" ∷ "outside" ∷ "inside" ∷ "collide" ∷ "decide"
    ∷ "divide" ∷ "aside" ∷ "ride" ∷ "side" ∷ "wide" ∷ "hide" ∷ "tide" ∷ "pride" ∷ "bride" ∷ "slide"
    ∷ "guide" ∷ "stride" ∷ "oxide" ∷ "dioxide" ∷ "suicide" ∷ "homicide" ∷ "pesticide" ∷ "valid"
    ∷ "invalid" ∷ "void" ∷ "avoid" ∷ "diagnosis" ∷ "medication" ∷ "namespace" ∷ "namesake"
    ∷ "rename" ∷ "filename" ∷ "hostname" ∷ "typename" ∷ "unnamed" ∷ "renamed" ∷ "phonetic"
    ∷ "phoneme" ∷ "microphone" ∷ "headphone" ∷ "telephone" ∷ "saxophone" ∷ "smartphone"
    ∷ "streetview" ∷ "addressable" ∷ "addressing" ∷ "cityscape" ∷ "electricity" ∷ "capacity"
    ∷ "velocity" ∷ "opacity" ∷ "timestamp" ∷ "timezone" ∷ "image_id" ∷ "computation_result"
    ∷ "zk_receipt" ∷ "testid" ∷ "toolid" ∷ "sessionid" ∷ "peerid" ∷ "nodeid" ∷ "requestid"
    ∷ "correlationid" ∷ "traceid" ∷ "spanid" ∷ []

-- `if (violation) return violation;`, where an empty text is no violation
abbrev pub or_violation : Option String → Option String → Option String
or_violation none other = other
or_violation (some violation) other = if str_eq violation "" then other else some violation

-- `forbiddenKeysSet` and what the constructor makes of it, in the order of the set
pub record KeyRules : Type 0 where
  pub forbidden_keys_set : List String
  pub short_tokens : List String
  pub long_forbidden_tokens : List String

-- `new Set(keys)`
unfoldable pub set_of : (seen keys : List String) → List String
set_of seen [] = []
set_of seen (k ∷ keys) =
    let again = set_of seen keys in
    let new = set_of (k ∷ seen) keys in if has k seen then again else k ∷ new

-- the constructor, for the keys
unfoldable pub key_rules_of : (forbidden_keys : List String) → KeyRules
unfolding set_of
key_rules_of forbidden_keys =
    let tokens : List String = set_of [] (map to_lower_case forbidden_keys) in
    record {
      forbidden_keys_set = tokens;
      short_tokens = filter (λ t. ltb (text_size t) 4) tokens;
      long_forbidden_tokens = filter (λ t. not (ltb (text_size t) 4)) tokens;
    }

-- the code of the lower-case letter, for a letter from A to Z
abbrev pub lower_code : ℕ → ℕ
lower_code c = if leb 65 c && leb c 90 then c + 32 else c

abbrev pub upper_code : ℕ → ℕ
upper_code c = if leb 97 c && leb c 122 then c - 32 else c

-- `_` or `-`
abbrev pub is_joint : ℕ → Bool
is_joint c = c == 95 || c == 45

-- `[iI][dD]`: the rest after a lower-case token, in either case of its letters
unfoldable pub strip_either_case : (token text : String) → Option String
strip_either_case String.[] text = some text
strip_either_case (String.◌∷◌ t token) String.[] = none
strip_either_case (String.◌∷◌ t token) (String.◌∷◌ c text) =
    let rest = strip_either_case token text in if code t == lower_code (code c) then rest else none

-- the rest after a token as it is
unfoldable pub strip_exact : (token text : String) → Option String
strip_exact String.[] text = some text
strip_exact (String.◌∷◌ t token) String.[] = none
strip_exact (String.◌∷◌ t token) (String.◌∷◌ c text) =
    let rest = strip_exact token text in if code t == code c then rest else none

-- the rest after a token with a capital
unfoldable pub strip_capital : (token text : String) → Option String
unfolding strip_exact
strip_capital String.[] text = some text
strip_capital (String.◌∷◌ t token) String.[] = none
strip_capital (String.◌∷◌ t token) (String.◌∷◌ c text) =
    if upper_code (code t) == code c then strip_exact token text else none

-- `(?:$|[_-])`
abbrev pub ends_word : Option String → Bool
ends_word none = false
ends_word (some String.[]) = true
ends_word (some (String.◌∷◌ c s)) = is_joint (code c)

-- `(?:$|[A-Z_-])`
abbrev pub ends_hump : Option String → Bool
ends_hump none = false
ends_hump (some String.[]) = true
ends_hump (some (String.◌∷◌ c s)) = is_joint (code c) || (leb 65 (code c) && leb (code c) 90)

-- `(?:^|[_-])`, for the character before
abbrev pub starts_word : Option ℕ → Bool
starts_word none = true
starts_word (some c) = is_joint c

-- `[a-z]`, for the character before
abbrev pub starts_hump : Option ℕ → Bool
starts_hump none = false
starts_hump (some c) = leb 97 c && leb c 122

-- A match of the pattern of a token of letters and digits at this place; the third alternative, the token alone, is one of
-- the first.
unfoldable pub matches_here : (token : String) (before : Option ℕ) (text : String) → Bool
unfolding strip_either_case strip_capital
matches_here token before text =
    (starts_word before && ends_word (strip_either_case token text))
    || (starts_hump before && ends_hump (strip_capital token text))

-- a match at this place of a key or at a later one
unfoldable pub matches_from : (token : String) (before : Option ℕ) (text : String) → Bool
unfolding matches_here
matches_from token before String.[] = matches_here token before String.[]
matches_from token before (String.◌∷◌ c text) =
    matches_here token before (String.◌∷◌ c text) || matches_from token (some (code c)) text

-- `pattern.test(key)`, for the pattern of a token
abbrev pub boundary_test : (token key : String) → Bool
boundary_test token key = matches_from token none key

unfoldable pub check_short : (tokens : List String) (key : String) → Option String
unfolding matches_from
check_short [] key = none
check_short (token ∷ tokens) key =
    let rest = check_short tokens key in
    if boundary_test token key
    then some
        ("Forbidden Key (fuzzy): " ++ (key ++ (" matches boundary pattern \"" ++ (token ++ "\""))))
    else rest

unfoldable pub check_long : (tokens : List String) (key : String) → Option String
check_long [] key = none
check_long (token ∷ tokens) key =
    let rest = check_long tokens key in
    if includes (to_lower_case key) token
    then some
        ("Forbidden Key (fuzzy): " ++ (key ++ (" contains restricted token \"" ++ (token ++ "\""))))
    else rest

-- `checkKeyFuzzy`
unfoldable pub check_key_fuzzy : KeyRules → String → Option String
unfolding check_short check_long
check_key_fuzzy rules key =
    if has (to_lower_case key) key_safelist
    then none
    else or_violation (check_short rules.short_tokens key)
        (check_long rules.long_forbidden_tokens key)
