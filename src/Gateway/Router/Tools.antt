-- ===== src/Gateway/Router/Tools.antt =====
-- sdks/typescript/src/gateway/router.ts: the tools of remote peers, as getRemoteTools lists them and
-- resolveManifestTarget finds them.
pub mod Offers
pub mod Resolve
mod Tests
use Prim.Native.String.{◌++◌, slice}
use text.Mathlib.Text.{find?}
use neural_mesh_protocol.Prelude.{
  ℕ, String, Bool, true, false, ◌&&◌, ◌||◌, Option, none, some, List, [], ◌∷◌, map, any, str_eq,
  replace_first, if◌then◌else◌,
}
use neural_mesh_protocol.Prelude.Trim.{trim_end}
use neural_mesh_protocol.Prelude.Split.{split, cut_last, ends_with, last_chars}
use neural_mesh_protocol.Prelude.Json.{
  Json, string, object, Entries, empty, entry, member_of, is_truthy_member,
}
use neural_mesh_protocol.Prelude.Json.Members.{set_member}
use neural_mesh_protocol.Prelude.Assoc.{Assoc, has}
use neural_mesh_protocol.Gateway.Router.{ManifestTool, Taxonomy, LiopManifest, CachedManifest}
use mathlib.Core.List

-- A tool in the manifest of a peer.
pub record Offer : Type 0 where
  pub peer_id : String
  pub manifest : LiopManifest
  pub tool : ManifestTool

abbrev pub offers_of : (peer_id : String) → LiopManifest → List ManifestTool → List Offer
offers_of peer_id manifest [] = []
offers_of peer_id manifest (tool ∷ tools) =
    record { peer_id = peer_id; manifest = manifest; tool = tool }
    ∷ offers_of peer_id manifest tools

-- the order of the loops over the cache and over the tools of a manifest
unfoldable pub offers : Assoc CachedManifest → List Offer
offers [] = []
offers ((peer_id, cached) ∷ cache) =
    List.◌++◌ (offers_of peer_id cached.manifest cached.manifest.tools) (offers cache)

-- `LiopMeshStatus` is the diagnostic tool of each router.
abbrev pub is_diagnostic : Offer → Bool
is_diagnostic offer = str_eq offer.tool.name "LiopMeshStatus"

abbrev pub suffixed_name : (tool_name peer_id : String) → String
suffixed_name tool_name peer_id = tool_name ++ String.◌∷◌ "_" (last_chars 4 peer_id)

-- `finalName`
unfoldable pub final_name : (seen_names local_tool_names : List String) → Offer → String
final_name seen_names local_tool_names offer =
    if has offer.tool.name seen_names || has offer.tool.name local_tool_names
    then suffixed_name offer.tool.name offer.peer_id
    else offer.tool.name

-- the names of the listed tools, each with the offer that it stands for
unfoldable pub remote_names :
    (local_tool_names seen_names : List String) → List Offer → List (String × Offer)
remote_names local_tool_names seen_names [] = []
remote_names local_tool_names seen_names (offer ∷ rest) =
    let name = final_name seen_names local_tool_names offer in
    let later =
      remote_names local_tool_names (if is_diagnostic offer then seen_names else name ∷ seen_names)
        rest in
    if is_diagnostic offer then later else (name, offer) ∷ later

-- `text || fallback`
abbrev pub or_else : Option String → String → String
or_else none fallback = fallback
or_else (some text) fallback = if str_eq text "" then fallback else text

-- the text before a marker
cut_at : Option ℕ → String → Option String
cut_at none text = none
cut_at (some i) text = some (slice text 0 i)

or_next : Option String → String → String
or_next none next = next
or_next (some text) next = text

-- `stripVerboseLiopToolDescription` of utils/mcpCompact.ts
unfoldable pub strip_verbose_liop_tool_description : String → String
unfolding cut_at or_next
strip_verbose_liop_tool_description d =
    let cut = λ (marker : String). cut_at (find? d marker) d in
    trim_end (
      or_next (cut "\n\n[LIOP-PROTO-V1:")
        (or_next (cut "\r\n\r\n[LIOP-PROTO-V1:") (or_next (cut "\n[LIOP-PROTO-V1:") d)))

-- `if (!object[key]) object[key] = value`
abbrev default_member : (key : String) → Json → Entries → Entries
default_member key value es =
    if is_truthy_member (member_of key es) then es else set_member key value es

abbrev schema_of : Option Entries → Entries
schema_of none = entry "type" (string "object") (entry "properties" (object empty) empty)
schema_of (some es) = es

-- `inputSchema` with a type and properties
unfoldable pub clean_schema : Option Entries → Entries
unfolding set_member
clean_schema schema =
    default_member "properties" (object empty)
      (default_member "type" (string "object") (schema_of schema))

-- `(inputSchema.properties || {}).payload`, as a test
has_payload : Option Json → Bool
has_payload (some (object properties)) = is_truthy_member (member_of "payload" properties)
has_payload _ = false

blueprint_of : Option Taxonomy → String
blueprint_of none = ""
blueprint_of (some taxonomy) = "\n[LIOP-DOMAIN: " ++ (taxonomy.domain ++ "]")

-- the stamp at the end of a description
origin_stamp : (compact : Bool) (peer_id blueprint envelope_doc : String) → String
origin_stamp true peer_id blueprint envelope_doc =
    "\n(Peer: " ++ (last_chars 8 peer_id ++ (")" ++ blueprint))
origin_stamp false peer_id blueprint envelope_doc =
    "\n(Origin: " ++ (last_chars 8 peer_id ++ (")" ++ (blueprint ++ envelope_doc)))

clean_description : (compact : Bool) → String → String
clean_description true description = strip_verbose_liop_tool_description description
clean_description false description =
    replace_first description "STRICT SCHEMA ADHERENCE:"
      "[INDUSTRIAL-REQUISITE] STRICT SCHEMA ADHERENCE (MANDATORY):"

-- `cleanTool`; the code completes the schema in the cached manifest itself.
unfoldable pub clean_tool : (compact : Bool) → String × Offer → ManifestTool
unfolding has_payload blueprint_of origin_stamp clean_description
clean_tool compact (name, offer) =
    let schema = clean_schema offer.tool.input_schema in
    let provider_name = or_else offer.manifest.server_name "Unknown Provider" in
    let description = or_else offer.tool.description ("Remote tool from " ++ provider_name) in
    let envelope_doc =
      if has_payload (member_of "properties" schema)
      then "\n[REQUIRES: LIOP-PROTO-V1 ENVELOPE]"
      else "" in
    record {
      name = name;
      description = some (
          clean_description compact description
          ++ origin_stamp compact offer.peer_id (blueprint_of offer.manifest.taxonomy)
              envelope_doc);
      input_schema = some schema;
    }

-- the end of `getRemoteTools`, for a cache that has been filled
unfoldable pub get_remote_tools :
    (compact : Bool) (local_tool_names : List String) → Assoc CachedManifest → List ManifestTool
get_remote_tools compact local_tool_names cache =
    map (clean_tool compact) (remote_names local_tool_names [] (offers cache))

-- `manifest.tools.find(...)`, as a test
abbrev pub has_tool : String → LiopManifest → Bool
has_tool name manifest = any (λ tool. str_eq tool.name name) manifest.tools

-- 1. the exact name
unfoldable pub exact_match : String → Assoc CachedManifest → Option (String × String)
exact_match tool_name [] = none
exact_match tool_name ((peer_id, cached) ∷ cache) =
    if has_tool tool_name cached.manifest
    then some (peer_id, tool_name)
    else exact_match tool_name cache

-- 2. the name before the suffix, at a peer that ends with it
unfoldable pub suffixed_match :
    (suffix base_name : String) → Assoc CachedManifest → Option (String × String)
suffixed_match suffix base_name [] = none
suffixed_match suffix base_name ((peer_id, cached) ∷ cache) =
    if ends_with peer_id suffix && has_tool base_name cached.manifest
    then some (peer_id, base_name)
    else suffixed_match suffix base_name cache

abbrev pub suffixed_target :
    Option (String × String) → Assoc CachedManifest → Option (String × String)
suffixed_target none cache = none
suffixed_target (some (suffix, base_name)) cache = suffixed_match suffix base_name cache

abbrev pub or_target :
    Option (String × String) → Option (String × String) → Option (String × String)
or_target none later = later
or_target (some target) later = some target

-- `resolveManifestTarget`: the peer, and the name of the tool there
unfoldable pub resolve_manifest_target : String → Assoc CachedManifest → Option (String × String)
resolve_manifest_target tool_name cache =
    or_target (exact_match tool_name cache)
      (suffixed_target (cut_last "_" (split b'_' tool_name)) cache)
