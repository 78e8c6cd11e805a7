-- ===== src/Workers/ZkVerifier/Scan.antt =====
-- sdks/typescript/src/workers/zk-verifier.ts: the output that a proxy call carries in its logic
-- (`tryExtractProxyOutput`).
use Prim.Native.Char.{Char, code}
use neural_mesh_protocol.Prelude.{
  ℕ, ◌+◌, ◌-◌, String, Bool, true, false, not, ◌&&◌, ◌||◌, Option, none, some, ◌==◌, includes,
  if◌then◌else◌,
}
use neural_mesh_protocol.Prelude.Bytes.{Bytes}
use neural_mesh_protocol.Prelude.Json.{Json, member, is_truthy_member}
use neural_mesh_protocol.Prelude.Trim.{trim}
use neural_mesh_protocol.Workers.Runtime.{Runtime}

-- The variables of the loop; `braceCount` is never negative, since the loop ends when it is 0.
pub record Scan : Type 0 where
  pub brace_count : ℕ
  pub in_double_quote : Bool
  pub in_single_quote : Bool
  pub in_backtick : Bool
  pub escaped : Bool

abbrev pub start : Scan
start = record {
  brace_count = 0;
  in_double_quote = false;
  in_single_quote = false;
  in_backtick = false;
  escaped = false;
}

-- a character outside of quotes
unfoldable pub scan_brace : ℕ → Scan → Scan
scan_brace c s =
    if s.in_double_quote || s.in_single_quote || s.in_backtick
    then s
    else if c == b'{'
    then record s { brace_count = s.brace_count + 1 }
    else if c == b'}'
    then record s { brace_count = s.brace_count - 1 }
    else s

-- the body of the loop
unfoldable pub scan_char : ℕ → Scan → Scan
unfolding scan_brace
scan_char c s =
    if s.escaped
    then record s { escaped = false }
    else if c == 92
    then record s { escaped = true }
    else if c == 34 && not s.in_single_quote && not s.in_backtick
    then record s { in_double_quote = not s.in_double_quote }
    else if c == 39 && not s.in_double_quote && not s.in_backtick
    then record s { in_single_quote = not s.in_single_quote }
    else if c == 96 && not s.in_double_quote && not s.in_single_quote
    then record s { in_backtick = not s.in_backtick }
    else scan_brace c s

-- the break: a closing brace has brought the count from 1 to 0
unfoldable pub is_closed : (before after : Scan) → Bool
is_closed before after = before.brace_count == 1 && after.brace_count == 0

abbrev pub push : Char → Option String → Option String
push c none = none
push c (some s) = some (String.◌∷◌ c s)

-- the text up to the brace that closes the first one
unfoldable pub scan_object : Scan → String → Option String
unfolding scan_char is_closed
scan_object s String.[] = none
scan_object s (String.◌∷◌ c text) =
    let rest = scan_object (scan_char (code c) s) text in
    if is_closed s (scan_char (code c) s) then some (String.◌∷◌ c String.[]) else push c rest

-- the text from the first opening brace on
unfoldable pub from_brace : String → Option String
from_brace String.[] = none
from_brace (String.◌∷◌ c text) =
    let rest = from_brace text in if code c == b'{' then some (String.◌∷◌ c text) else rest

abbrev pub scan_object_of : Option String → Option String
scan_object_of none = none
scan_object_of (some text) = scan_object start text

-- `parsed?.__liop_proxy_tool ? parsed : null`
abbrev pub proxy_of : Option Json → Option Json
proxy_of none = none
proxy_of (some v) = if is_truthy_member (member "__liop_proxy_tool" v) then some v else none

abbrev pub parse_of : (String → Option Json) → Option String → Option Json
parse_of parse none = none
parse_of parse (some t) = parse t

-- `tryExtractProxyOutput` on the trimmed text
unfoldable pub proxy_output : (String → Option Json) → String → Option Json
unfolding from_brace scan_object
proxy_output parse logic =
    if includes logic "__liop_proxy_tool"
    then proxy_of (parse_of parse (scan_object_of (from_brace logic)))
    else none

-- `tryExtractProxyOutput`
unfoldable pub try_extract_proxy_output : Runtime → Bytes → Option Json
unfolding proxy_output
try_extract_proxy_output runtime logic_payload =
    proxy_output runtime.parse (trim (runtime.utf8_text logic_payload))
