-- ===== src/Gateway/Router/Dispatch/Raised.antt =====
-- sdks/typescript/src/gateway/router.ts: what dispatch answers without raising an error.
use neural_mesh_protocol.Prelude.{
  String, Bool, true, false, ◌||◌, ◌≡◌, refl, Option, none, some, List, [], ◌∷◌, if_either,
  if◌then◌else◌,
}
use neural_mesh_protocol.Prelude.Assoc.{Assoc}
use neural_mesh_protocol.Prelude.Json.{Json, is_truthy}
use neural_mesh_protocol.Gateway.Compat.{McpRequest, optional_member}
use neural_mesh_protocol.Gateway.Router.{ManifestResource, CachedManifest, LiopMcpRouter}
use neural_mesh_protocol.Gateway.Router.Resources.{lacks, lacks_resources, list_remote_resources}
use neural_mesh_protocol.Gateway.Router.Dispatch.{
  ServerResult, value, throws, LiopServer, Dispatched, responds, silent, raised, pending,
  fails_with, sorted_resources, all_resources,
}
use neural_mesh_protocol.Gateway.Router.Dispatch.Transcode.{or_empty}
use neural_mesh_protocol.Gateway.Router.Dispatch.Handle.{
  find_resource, or_next, found_in, find_cached, listed_resources, from_cache, read_result,
  read_uri, got_prompt, get_named,
}

-- what is never raised
abbrev pub IsNotRaised : Dispatched → Type 0
IsNotRaised raised = ⊥
IsNotRaised pending = ⊥
IsNotRaised silent = Unit
IsNotRaised (responds response) = Unit

-- what is raised at most where a condition holds
abbrev pub IsRaisedIf : Bool → Dispatched → Type 0
IsRaisedIf condition raised = condition ≡ true
IsRaisedIf condition pending = ⊥
IsRaisedIf condition silent = Unit
IsRaisedIf condition (responds response) = Unit

or_next-none :
    (o : Option ManifestResource) (rest : Option (Option ManifestResource))
    → or_next o rest ≡ none
    → rest ≡ none
or_next-none none rest h = h
or_next-none (some r) rest h = absurd (cc h)

found_in-none :
    (uri : Json) (o : Option (List ManifestResource)) (rest : Option (Option ManifestResource))
    (later : Bool)
    → (rest ≡ none → later ≡ true)
    → found_in uri o rest ≡ none
    → (lacks o || later) ≡ true
found_in-none uri none rest later go h = refl
found_in-none uri (some resources) rest later go h =
    go (or_next-none (find_resource uri resources) rest h)

-- The search raises an error only where a cached manifest has no resources.
find_cached-none :
    (uri : Json) (cache : Assoc CachedManifest)
    → find_cached uri cache ≡ none
    → lacks_resources cache ≡ true
unfolding find_cached lacks_resources
find_cached-none uri [] h = absurd (cc h)
find_cached-none uri ((peer_id, cached) ∷ cache) h =
    found_in-none uri cached.manifest.resources (find_cached uri cache) (lacks_resources cache)
      (find_cached-none uri cache) h

module _ (request : McpRequest) where
  from_cache-IsRaisedIf :
      (lacking : Bool) (message : String) (found : Option (Option ManifestResource))
      → (found ≡ none → lacking ≡ true)
      → IsRaisedIf lacking (from_cache request message found)
  from_cache-IsRaisedIf lacking message none h = h refl
  from_cache-IsRaisedIf lacking message (some none) h = tt
  from_cache-IsRaisedIf lacking message (some (some r)) h = tt

  read_result-IsRaisedIf :
      (uri : Json) (r : LiopMcpRouter) (result : ServerResult)
      → IsRaisedIf (lacks_resources r.manifest_cache) (read_result request uri r result)
  read_result-IsRaisedIf uri r (value v) = tt
  read_result-IsRaisedIf uri r (throws message) =
      from_cache-IsRaisedIf (lacks_resources r.manifest_cache) message
        (find_cached uri r.manifest_cache) (find_cached-none uri r.manifest_cache)

  pub read_uri-IsRaisedIf :
      (server : LiopServer) (uri : Option Json) (r : LiopMcpRouter)
      → IsRaisedIf (lacks_resources r.manifest_cache) (read_uri server request uri r)
  read_uri-IsRaisedIf server none r = tt
  read_uri-IsRaisedIf server (some uri) r =
      if_either (IsRaisedIf (lacks_resources r.manifest_cache)) (is_truthy uri) _
        (responds (fails_with request.id "-32602" "Missing resource uri"))
        (read_result-IsRaisedIf uri r (server.read_resource uri)) tt

  sorted-IsRaisedIf :
      (server : LiopServer) (lacking : Bool) (remote : List ManifestResource)
      → IsRaisedIf lacking (
          listed_resources request
            (sorted_resources server (if lacking then none else some remote)))
  sorted-IsRaisedIf server true remote = refl
  sorted-IsRaisedIf server false remote = tt

  pub listed-IsRaisedIf :
      (server : LiopServer) (r : LiopMcpRouter)
      → IsRaisedIf
          (lacks_resources r.manifest_cache)
          (listed_resources request (all_resources server r))
  unfolding all_resources list_remote_resources
  listed-IsRaisedIf server r = sorted-IsRaisedIf server (lacks_resources r.manifest_cache) _

  got_prompt-IsNotRaised : (result : ServerResult) → IsNotRaised (got_prompt request result)
  got_prompt-IsNotRaised (value v) = tt
  got_prompt-IsNotRaised (throws message) = tt

  pub get_named-IsNotRaised :
      (server : LiopServer) (name : Option Json) → IsNotRaised (get_named server request name)
  get_named-IsNotRaised server none = tt
  get_named-IsNotRaised server (some name) =
      let result = server.get_prompt name (or_empty (optional_member "arguments" request.params)) in
      if_either IsNotRaised (is_truthy name) (got_prompt request result)
        (responds (fails_with request.id "-32602" "Missing prompt name"))
        (got_prompt-IsNotRaised result) tt
