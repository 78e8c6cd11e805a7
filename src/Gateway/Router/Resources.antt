-- ===== src/Gateway/Router/Resources.antt =====
-- sdks/typescript/src/gateway/router.ts: the resources of remote peers, as getRemoteResources lists them.
pub mod Uris
mod Tests
use Prim.Native.String.{◌++◌}
use mathlib.Core.List
use neural_mesh_protocol.Prelude.{
  String, Bool, true, false, ◌||◌, Option, none, some, List, [], ◌∷◌, str_eq, if◌then◌else◌,
  decimal,
}
use neural_mesh_protocol.Prelude.Trim.{trim}
use neural_mesh_protocol.Prelude.Split.{join}
use neural_mesh_protocol.Prelude.Prefix.{strip_prefix}
use neural_mesh_protocol.Prelude.Assoc.{Assoc, has}
use neural_mesh_protocol.Gateway.Router.{ManifestResource, Taxonomy, LiopManifest, CachedManifest}
use neural_mesh_protocol.Gateway.Router.Tokens.{non_empty, or_default}

-- A resource in the manifest of a peer.
pub record Resource : Type 0 where
  pub peer_id : String
  pub manifest : LiopManifest
  pub resource : ManifestResource

abbrev resources_of : (peer_id : String) → LiopManifest → List ManifestResource → List Resource
resources_of peer_id manifest [] = []
resources_of peer_id manifest (resource ∷ resources) =
    record { peer_id = peer_id; manifest = manifest; resource = resource }
    ∷ resources_of peer_id manifest resources

abbrev pub list_or_empty : Option (List ManifestResource) → List ManifestResource
list_or_empty none = []
list_or_empty (some resources) = resources

-- the order of the loops over the cache and over the resources of a manifest
unfoldable pub cached_resources : Assoc CachedManifest → List Resource
cached_resources [] = []
cached_resources ((peer_id, cached) ∷ cache) =
    List.◌++◌ (resources_of peer_id cached.manifest (list_or_empty cached.manifest.resources))
      (cached_resources cache)

execution_types : List String → String
execution_types [] = ""
execution_types (type ∷ types) = "\nExecution Types: " ++ join ", " type types

blueprint_of : Option Taxonomy → String
blueprint_of none = ""
blueprint_of (some taxonomy) =
    "\n\n[LIOP Zero-Trust Blueprint]\nDomain: "
    ++ (taxonomy.domain
        ++ ("\nClearance Tier: "
            ++ (decimal taxonomy.clearance_tier ++ execution_types taxonomy.execution_types)))

origin_stamp : Resource → String
origin_stamp r =
    "\n\n[LIOP Zero-Trust Origin]\nProvider: "
    ++ (or_default (non_empty r.manifest.server_name) "Unknown Provider"
        ++ ("\nNetwork ID: " ++ (r.peer_id ++ blueprint_of r.manifest.taxonomy)))

is_schema : Option String → Bool
is_schema none = false
is_schema (some rest) = true

stamped : Option String → String → String
stamped none stamp = trim stamp
stamped (some description) stamp = description ++ stamp

-- `augmentedResource`
unfoldable pub augment_resource : Resource → ManifestResource
unfolding execution_types blueprint_of origin_stamp is_schema stamped
augment_resource r =
    if is_schema (strip_prefix "liop://schema/" r.resource.uri)
    then record r.resource {
      name = "[SCHEMA] " ++ r.resource.name;
      description = some (
          "[CRITICAL SCHEMA] "
          ++ (or_default (non_empty r.resource.description) "Data Dictionary for Zero-Shot Autonomy"
              ++ origin_stamp r));
    }
    else record r.resource {
      description = some (stamped (non_empty r.resource.description) (origin_stamp r));
    }

-- `seenUris`: the first resource of an URI
unfoldable pub new_resources : (seen_uris : List String) → List Resource → List Resource
new_resources seen_uris [] = []
new_resources seen_uris (r ∷ rest) =
    let seen = has r.resource.uri seen_uris in
    let later = new_resources (if seen then seen_uris else r.resource.uri ∷ seen_uris) rest in
    if seen then later else r ∷ later

-- `getRemoteResources` of manifests that have resources, but for the refresh in the background
unfoldable pub get_remote_resources :
    (local_uris : List String) → Assoc CachedManifest → List ManifestResource
get_remote_resources local_uris cache =
    List.map augment_resource (new_resources local_uris (cached_resources cache))

abbrev pub lacks : Option (List ManifestResource) → Bool
lacks none = true
lacks (some resources) = false

-- Has a cached manifest no resources? The loop over them raises a `TypeError`.
unfoldable pub lacks_resources : Assoc CachedManifest → Bool
lacks_resources [] = false
lacks_resources ((peer_id, cached) ∷ cache) =
    lacks cached.manifest.resources || lacks_resources cache

-- `getRemoteResources`, or the error that it raises
unfoldable pub list_remote_resources :
    (local_uris : List String) → Assoc CachedManifest → Option (List ManifestResource)
list_remote_resources local_uris cache =
    if lacks_resources cache then none else some (get_remote_resources local_uris cache)
