-- ===== src/Workers/Runtime.antt =====
-- What both workers use of Node: hashes, UTF-8 and JSON.
use neural_mesh_protocol.Prelude.{String, Option, none, some}
use neural_mesh_protocol.Prelude.Bytes.{Bytes}
use neural_mesh_protocol.Prelude.Json.{Json, string}

pub record Runtime : Type 0 where
  -- `createHash("sha256").update(bytes).digest("hex")`
  pub sha256_hex : Bytes → String
  -- `createHmac("sha256", key).update(bytes).digest()`
  pub hmac_sha256 : (key message : Bytes) → Bytes
  -- `Buffer.from(text, "utf-8")`, and back
  pub utf8 : String → Bytes
  pub utf8_text : Bytes → String
  -- `JSON.parse`, with `none` for a syntax error, and `JSON.stringify`
  pub parse : String → Option Json
  pub stringify : Json → String

-- The text of an output: the text itself, "undefined", or the JSON text.
unfoldable pub output_text : Runtime → Option Json → String
output_text runtime none = "undefined"
output_text runtime (some (string t)) = t
output_text runtime (some v) = runtime.stringify v
