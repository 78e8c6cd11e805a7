-- ===== src/Gateway/Router/Resources/Tests.antt =====
-- sdks/typescript/src/gateway/router.ts: the resources of two remote peers.
use neural_mesh_protocol.Prelude.{
  String, false, not, ◌&&◌, ◌≡◌, refl, none, some, List, [], ◌∷◌, if◌then◌else◌,
}
use neural_mesh_protocol.Prelude.Assoc.{Assoc, has}
use neural_mesh_protocol.Prelude.Prefix.{strip_prefix}
use neural_mesh_protocol.Prelude.Trim.{trim, trim_start, trim_end, is_space}
use neural_mesh_protocol.Prelude.Split.{join}
use neural_mesh_protocol.Gateway.Router.{ManifestResource, LiopManifest, CachedManifest}
use neural_mesh_protocol.Gateway.Router.Resources.{
  cached_resources, augment_resource, new_resources, get_remote_resources,
}
use neural_mesh_protocol.Gateway.Router.Resources.Uris.{
  occurrences, is_offered, occurrences-get_remote_resources,
}

lists : Unit {0}
unfolding cached_resources augment_resource new_resources get_remote_resources strip_prefix trim
    trim_start trim_end is_space join
lists = tt

abbrev resource : String → ManifestResource
resource uri = record {
  name = "Data";
  uri = uri;
  description = none;
  mime_type = none;
  text = none;
}

abbrev manifest : List ManifestResource → LiopManifest
manifest resources = record {
  grpc_port = 50051;
  tools = [];
  resources = some resources;
  server_name = some "Bank";
  taxonomy = none;
  auth_required = false;
  token_slug = none;
  pqc_signature = none;
  pqc_public_key = none;
}

abbrev mesh : Assoc CachedManifest
mesh =
    (
      "A",
      record {
        manifest = manifest (resource "liop://a" ∷ resource "liop://schema/b" ∷ []);
        cached_at = 0;
      },
    )
    ∷ (
      "B",
      record {
        manifest = manifest (resource "liop://a" ∷ resource "liop://c" ∷ []);
        cached_at = 0;
      },
    )
    ∷ []

occurrences-get_remote_resources_example :
    occurrences "liop://a" (get_remote_resources ("liop://c" ∷ []) mesh) ≡ (
      if is_offered "liop://a" (cached_resources mesh) && not (has "liop://a" ("liop://c" ∷ []))
      then 1
      else 0)
occurrences-get_remote_resources_example =
    occurrences-get_remote_resources "liop://a" ("liop://c" ∷ []) mesh

listed_resources :
    get_remote_resources ("liop://c" ∷ []) mesh
    ≡ record (resource "liop://a") {
      description = some "[LIOP Zero-Trust Origin]\nProvider: Bank\nNetwork ID: A";
    }
      ∷ record (resource "liop://schema/b") {
        name = "[SCHEMA] Data";
        description =
            some
              "[CRITICAL SCHEMA] Data Dictionary for Zero-Shot Autonomy\n\n[LIOP Zero-Trust Origin]\nProvider: Bank\nNetwork ID: A";
      }
      ∷ []
unfolding lists
listed_resources = refl
