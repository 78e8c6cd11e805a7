-- ===== src/Gateway/Router/Tools/Tests.antt =====
-- sdks/typescript/src/gateway/router.ts: the tools of two remote peers.
use neural_mesh_protocol.Prelude.{
  String, true, false, ◌≡◌, refl, none, some, List, [], ◌∷◌, All, map,
}
use neural_mesh_protocol.Prelude.Split.{
  split, cut_last, last_part, but_last, join, has_char, ends_with, last_chars,
}
use neural_mesh_protocol.Prelude.Json.{string, object, empty, entry, member_of}
use neural_mesh_protocol.Prelude.Assoc.{Assoc}
use neural_mesh_protocol.Prelude.Trim.{is_space, trim_end}
use neural_mesh_protocol.Gateway.Router.{ManifestTool, LiopManifest, CachedManifest}
use neural_mesh_protocol.Gateway.Router.Tools.{
  Offer, offers, final_name, remote_names, clean_schema, clean_tool, get_remote_tools, exact_match,
  suffixed_match, resolve_manifest_target, strip_verbose_liop_tool_description,
}
use neural_mesh_protocol.Gateway.Router.Tools.Resolve.{IsUnambiguous, remote_names-resolve}

names : Unit {0}
unfolding split cut_last last_part but_last join has_char ends_with last_chars offers final_name
    remote_names clean_schema clean_tool get_remote_tools exact_match suffixed_match
    resolve_manifest_target strip_verbose_liop_tool_description member_of trim_end is_space
names = tt

abbrev tool : String → ManifestTool
tool name = record {
  name = name;
  description = some "Runs logic.\n\n[LIOP-PROTO-V1: …]";
  input_schema = none;
}

abbrev manifest : List ManifestTool → LiopManifest
manifest tools = record {
  grpc_port = 50051;
  tools = tools;
  resources = some [];
  server_name = some "Bank";
  taxonomy = some (record { domain = "Banking"; clearance_tier = 1; execution_types = [] });
  auth_required = false;
  token_slug = none;
  pqc_signature = none;
  pqc_public_key = none;
}

abbrev entry_of : String → List ManifestTool → String × CachedManifest
entry_of peer tools = (peer, record { manifest = manifest tools; cached_at = 0 })

abbrev mesh : Assoc CachedManifest
mesh =
    entry_of "12D3KooWAAAA" (tool "query" ∷ tool "LiopMeshStatus" ∷ tool "read_all" ∷ [])
    ∷ entry_of "12D3KooWBBBB" (tool "query" ∷ tool "audit" ∷ [])
    ∷ []

abbrev mesh-IsUnambiguous : IsUnambiguous mesh
unfolding names
mesh-IsUnambiguous = record {
  distinct = ((refl, (refl, tt)), ((refl, (refl, tt)), tt));
  plain = (refl, (refl, tt));
  unclashing = (
    (refl, (refl, (refl, (refl, (refl, tt))))),
    ((refl, (refl, (refl, (refl, (refl, tt))))), tt),
  );
}

remote_names-resolve_example :
    All
      (λ (listed : String × Offer).
        resolve_manifest_target listed.0 mesh ≡ some (listed.1.peer_id, listed.1.tool.name))
      (remote_names ("audit" ∷ []) [] (offers mesh))
remote_names-resolve_example = remote_names-resolve mesh ("audit" ∷ []) mesh-IsUnambiguous

listed_names :
    map (λ (t : ManifestTool). t.name) (get_remote_tools true ("audit" ∷ []) mesh)
    ≡ "query" ∷ "read_all" ∷ "query_BBBB" ∷ "audit_BBBB" ∷ []
unfolding names
listed_names = refl

cleaned :
    clean_tool true
      ("query", record { peer_id = "12D3KooWAAAA"; manifest = manifest []; tool = tool "query" })
    ≡ record {
      name = "query";
      description = some "Runs logic.\n(Peer: KooWAAAA)\n[LIOP-DOMAIN: Banking]";
      input_schema =
          some (entry "type" (string "object") (entry "properties" (object empty) empty));
    }
unfolding names
cleaned = refl

-- Peers with the same end: two tools are listed under one name, and the second is never reached.
same_ends :
    let peers : Assoc CachedManifest =
      entry_of "A1AAAA" (tool "query" ∷ [])
      ∷ entry_of "B2AAAA" (tool "query" ∷ [])
      ∷ entry_of "C3AAAA" (tool "query" ∷ [])
      ∷ [] in
    (map (λ (t : ManifestTool). t.name) (get_remote_tools true [] peers)
      ≡ "query" ∷ "query_AAAA" ∷ "query_AAAA" ∷ [])
    × (resolve_manifest_target "query_AAAA" peers ≡ some ("A1AAAA", "query"))
unfolding names
same_ends = (refl, refl)

-- The suffix of a call need not have four characters, and may be empty.
short_suffixes :
    (resolve_manifest_target "query_" mesh ≡ some ("12D3KooWAAAA", "query"))
    × (resolve_manifest_target "query_B" mesh ≡ some ("12D3KooWBBBB", "query"))
    × (resolve_manifest_target "missing_BBBB" mesh ≡ none)
unfolding names
short_suffixes = (refl, refl, refl)
