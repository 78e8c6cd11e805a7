-- ===== src/Gateway/Router/Calls/Token.antt =====
-- sdks/typescript/src/gateway/router.ts: with which token a remote node is called, and what the call leaves in
-- the cache.
use neural_mesh_protocol.Prelude.{
  String, Bool, false, ◌&&◌, ◌≡◌, refl, ap, ◌∙◌, Option, none, some, if◌then◌else◌, Bool-cases, inl,
  inr, str_eq_refl,
}
use neural_mesh_protocol.Prelude.Json.{Entries}
use neural_mesh_protocol.Prelude.Assoc.{lookup, lookup-insert}
use neural_mesh_protocol.Gateway.Router.{LiopManifest, LiopMcpRouter}
use neural_mesh_protocol.Gateway.Router.Tokens.{
  Environment, TokenEndpoint, non_empty, manifest_of, keep_token, or_shared, shared_token,
  get_or_acquire_mesh_agent_token,
}
use neural_mesh_protocol.Gateway.Router.Calls.{
  World, Mesh, Routing, calls, refuses, raises, requires_auth, cached_for, or_acquire, is_missing,
  perform_transcoding, route_known, route_to_remote_provider,
}

keep_token-cache :
    (token : Option String) (r : LiopMcpRouter)
    → (keep_token token r).1.manifest_cache ≡ r.manifest_cache
keep_token-cache none r = refl
keep_token-cache (some token) r = refl

shared_token-cache :
    (env : Environment) (endpoint : TokenEndpoint) (held : Option String) (r : LiopMcpRouter)
    → (shared_token env endpoint held r).1.manifest_cache ≡ r.manifest_cache
unfolding shared_token
shared_token-cache env endpoint none r = keep_token-cache _ r
shared_token-cache env endpoint (some token) r = refl

or_shared-cache :
    (env : Environment) (endpoint : TokenEndpoint) (own : Option String) (r : LiopMcpRouter)
    → (or_shared env endpoint own r).1.manifest_cache ≡ r.manifest_cache
or_shared-cache env endpoint none r = shared_token-cache env endpoint _ r
or_shared-cache env endpoint (some token) r = refl

-- To get a token changes no manifest.
or_acquire-cache :
    (w : World) (peer : String) (token : Option String) (r : LiopMcpRouter)
    → (or_acquire w peer token r).1.manifest_cache ≡ r.manifest_cache
unfolding get_or_acquire_mesh_agent_token
or_acquire-cache w peer none r = or_shared-cache w.env w.token_endpoint _ r
or_acquire-cache w peer (some token) r = refl

perform_transcoding-cache :
    (w : World) (addr tool peer : String) (params : Entries) (token : Option String)
    (r : LiopMcpRouter)
    → (perform_transcoding w addr tool peer params token r).1.manifest_cache ≡ r.manifest_cache
unfolding perform_transcoding
perform_transcoding-cache w addr tool peer params token r =
    elim (Bool-cases (
      requires_auth (cached_for peer (or_acquire w peer (non_empty token) r).1)
      && is_missing (or_acquire w peer (non_empty token) r).0)) [
        | inl refused ↦ rw refused (or_acquire-cache w peer (non_empty token) r)
        | inr called ↦ rw called (or_acquire-cache w peer (non_empty token) r)
      ]

-- what a call says of the token
abbrev pub HasToken : Bool → Routing → Type 0
HasToken restricted (calls c) = (restricted && is_missing c.token) ≡ false
HasToken restricted (refuses message) = Unit
HasToken restricted raises = Unit

perform_transcoding-HasToken :
    (w : World) (addr tool peer : String) (params : Entries) (token : Option String)
    (r : LiopMcpRouter)
    → HasToken
        (requires_auth (cached_for peer (perform_transcoding w addr tool peer params token r).1))
        (perform_transcoding w addr tool peer params token r).0
unfolding perform_transcoding
perform_transcoding-HasToken w addr tool peer params token r =
    elim (Bool-cases (
      requires_auth (cached_for peer (or_acquire w peer (non_empty token) r).1)
      && is_missing (or_acquire w peer (non_empty token) r).0)) [
        | inl refused ↦ rw refused tt
        | inr called ↦ rw called called
      ]

route_known-HasToken :
    (w : World) (mesh : Mesh) (tool peer : String) (params : Entries) (token : Option String)
    (before : LiopMcpRouter) (known : Option LiopMcpRouter)
    → HasToken
        (requires_auth (cached_for peer (route_known w mesh tool peer params token before known).1))
        (route_known w mesh tool peer params token before known).0
route_known-HasToken w mesh tool peer params token before none = tt
route_known-HasToken w mesh tool peer params token before (some r) =
    perform_transcoding-HasToken w _ tool peer params token r

-- A remote node whose manifest requires authorization is called with a token or not at all, also if
-- the manifest is fetched only for this call.
pub route_to_remote_provider-HasToken :
    (w : World) (mesh : Mesh) (tool_name peer_id : String) (params : Entries)
    (token : Option String) (r : LiopMcpRouter)
    → HasToken
        (requires_auth
          (cached_for peer_id (route_to_remote_provider w mesh tool_name peer_id params token r).1))
        (route_to_remote_provider w mesh tool_name peer_id params token r).0
unfolding route_to_remote_provider
route_to_remote_provider-HasToken w mesh tool_name peer_id params token r =
    route_known-HasToken w mesh tool_name peer_id params token r _

-- A manifest that is fetched for a call, of a peer with none in the cache, is taken into the cache as
-- it is: its signature is not verified, whatever the check of signatures says of it.
pub direct_query_unverified :
    (w : World) (mesh : Mesh) (tool_name peer_id : String) (params : Entries)
    (token : Option String) (r : LiopMcpRouter) (manifest : LiopManifest)
    → lookup peer_id r.manifest_cache ≡ none
    → mesh.query_manifest peer_id ≡ some (some manifest)
    → cached_for peer_id (route_to_remote_provider w mesh tool_name peer_id params token r).1
      ≡ some manifest
unfolding route_to_remote_provider
direct_query_unverified w mesh tool_name peer_id params token r manifest unknown answer =
    rw (unknown, answer)
      (ap (λ cache. manifest_of (lookup peer_id cache))
          (perform_transcoding-cache w _ tool_name peer_id params token _)
        ∙ ap manifest_of (
            lookup-insert peer_id peer_id _ r.manifest_cache
            ∙ ap
                (λ b.
                  if b
                  then some (record { manifest = manifest; cached_at = w.now })
                  else lookup peer_id r.manifest_cache)
                (str_eq_refl peer_id)))
