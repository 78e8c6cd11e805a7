-- ===== src/Crypto/LogicImageId.antt =====
-- sdks/typescript/src/crypto/logic-image-id.ts: the digest that identifies a program, without the
-- envelope that it may come in.
pub mod Envelope
use Prim.Native.Char.{code}
use Prim.Native.String
use neural_mesh_protocol.Prelude.{
  ℕ, String, Bool, true, false, ◌&&◌, Option, none, some, ◌==◌, if◌then◌else◌,
}
use neural_mesh_protocol.Prelude.Bytes.{Bytes, byte_at}
use neural_mesh_protocol.Prelude.Prefix.{strip_prefix}
use neural_mesh_protocol.Prelude.Trim.{is_space, trim_start, trim}

-- `[^}]*\}`: the text after the first closing brace
unfoldable pub after_brace : String → Option String
after_brace String.[] = none
after_brace (String.◌∷◌ c s) = let rest = after_brace s in if code c == b'}' then some s else rest

-- `[^}]+\}`
unfoldable pub after_header : String → Option String
unfolding after_brace
after_header String.[] = none
after_header (String.◌∷◌ c s) = if code c == b'}' then none else after_brace s

-- `\s*$`
unfoldable pub is_blank : String → Bool
is_blank String.[] = true
is_blank (String.◌∷◌ c s) = is_space (code c) && is_blank s

abbrev pub is_blank_rest : Option String → Bool
is_blank_rest none = false
is_blank_rest (some s) = is_blank s

-- `@END\s*$`
unfoldable pub is_end : String → Bool
unfolding is_blank
is_end s = is_blank_rest (strip_prefix "@END" s)

abbrev pub push_char : String → Option String → Option String
push_char s none = none
push_char String.[] (some t) = some t
push_char (String.◌∷◌ c s) (some t) = some (String.◌∷◌ c t)

-- `([\s\S]*?)@END\s*$`: the shortest text before the end
unfoldable pub until_end : String → Option String
unfolding is_end
until_end String.[] = none
until_end (String.◌∷◌ c s) =
    let rest = until_end s in
    if is_end (String.◌∷◌ c s) then some String.[] else push_char (String.◌∷◌ c s) rest

abbrev pub until_end_of : Option String → Option String
until_end_of none = none
until_end_of (some s) = until_end s

abbrev pub after_header_of : Option String → Option String
after_header_of none = none
after_header_of (some s) = after_header s

-- The group that TOP_LEVEL_ENVELOPE captures, with the line feeds around it that its `\n?` take:
-- the group is trimmed, so they make no difference.
unfoldable pub envelope_body : String → Option String
unfolding until_end after_header
envelope_body s = until_end_of (after_header_of (strip_prefix "@LIOP{" (trim_start s)))

abbrev pub body_or : Option String → String → String
body_or none s = s
body_or (some body) s = body

-- `normalizeLogicSource`
unfoldable pub normalize_logic_source : String → String
unfolding envelope_body
normalize_logic_source logic_utf8 = trim (body_or (envelope_body logic_utf8) logic_utf8)

-- `deriveLogicImageDigest`, for the hash, and for UTF-8 in both directions
unfoldable pub derive_logic_image_digest :
    {D : Type 0}
    → (sha256 : Bytes → D) (utf8 : String → Bytes) (utf8_text : Bytes → String) → Bytes
    → D
unfolding normalize_logic_source
derive_logic_image_digest sha256 utf8 utf8_text logic_payload =
    if byte_at logic_payload 0 == 0 && byte_at logic_payload 1 == 97
    then sha256 logic_payload
    else sha256 (utf8 (normalize_logic_source (utf8_text logic_payload)))
