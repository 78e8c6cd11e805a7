-- ===== src/Gateway/Router/Resources/Uris.antt =====
-- sdks/typescript/src/gateway/router.ts: the URIs of the listed resources.
use mathlib.Core.List
use neural_mesh_protocol.Prelude.{
  ℕ, suc, String, Bool, false, not, ◌&&◌, ◌||◌, ◌≡◌, refl, ◌∙◌, List, [], ◌∷◌, arith, str_eq,
  str_eq_iff, if◌then◌else◌, Bool-cases, inl, inr,
}
use neural_mesh_protocol.Prelude.Assoc.{Assoc, has}
use neural_mesh_protocol.Gateway.Router.{ManifestResource, CachedManifest}
use neural_mesh_protocol.Gateway.Router.Resources.{
  Resource, cached_resources, augment_resource, new_resources, get_remote_resources,
}

-- how many listed resources have an URI
abbrev pub occurrences : (uri : String) → List ManifestResource → ℕ
occurrences uri [] = 0
occurrences uri (r ∷ rs) =
    let rest = occurrences uri rs in if str_eq r.uri uri then suc rest else rest

abbrev pub is_offered : (uri : String) → List Resource → Bool
is_offered uri [] = false
is_offered uri (r ∷ rs) = str_eq r.resource.uri uri || is_offered uri rs

augment-uri : (r : Resource) → (augment_resource r).uri ≡ r.resource.uri
unfolding augment_resource
augment-uri r = ground arith

abbrev listed : List Resource → List ManifestResource
listed rs = List.map augment_resource rs

one_if : Bool → ℕ
one_if b = if b then 1 else 0

occurrences-new_resources :
    (uri : String) (seen : List String) (rs : List Resource)
    → occurrences uri (listed (new_resources seen rs))
      ≡ one_if (is_offered uri rs && not (has uri seen))
unfolding new_resources one_if
occurrences-new_resources uri seen [] = refl
occurrences-new_resources uri seen (r ∷ rs) = elim (Bool-cases (has r.resource.uri seen)) [
  | inl old ↦
      rw old
        (occurrences-new_resources uri seen rs ∙ ground (arith, old, str_eq_iff r.resource.uri uri))
  | inr new ↦
      rw (new, augment-uri r)
        (ground (
          arith,
          new,
          str_eq_iff r.resource.uri uri,
          occurrences-new_resources uri (r.resource.uri ∷ seen) rs,
        ))
]

-- The resources that are listed have as URIs those that some peer offers and that are not local,
-- each of them once.
pub occurrences-get_remote_resources :
    (uri : String) (local_uris : List String) (cache : Assoc CachedManifest)
    → occurrences uri (get_remote_resources local_uris cache)
      ≡ (if is_offered uri (cached_resources cache) && not (has uri local_uris) then 1 else 0)
unfolding get_remote_resources one_if
occurrences-get_remote_resources uri local_uris cache =
    occurrences-new_resources uri local_uris (cached_resources cache)
