-- ===== src/Gateway/Router/Discovery/Attested.antt =====
-- sdks/typescript/src/gateway/router.ts: which manifests a refresh lets into the cache.
use neural_mesh_protocol.Prelude.{
  ℕ, String, Bool, false, not, ◌&&◌, ◌≡◌, List, [], ◌∷◌, All, str_eq, Bool-cases, inl, inr,
}
use neural_mesh_protocol.Prelude.Assoc.{Assoc, insert}
use neural_mesh_protocol.Gateway.Router.{
  LiopManifest, CachedManifest, LiopMcpRouter, QueryResult, found, not_found, rejected, is_tampered,
  settle,
}
use neural_mesh_protocol.Gateway.Router.Discovery.{
  QueryManifest, settle_all, query_all, all_fresh, refresh_manifest_cache,
}

module _ (verify : LiopManifest → String → String → Bool) where
  -- No manifest of the cache has a signature that its key refutes.
  abbrev pub IsAttested : Assoc CachedManifest → Type 0
  IsAttested cache =
      All
        (λ (e : String × CachedManifest).
          is_tampered verify e.1.manifest e.1.manifest.pqc_signature e.1.manifest.pqc_public_key
          ≡ false)
        cache

  insert-IsAttested :
      (peer : String) (new : CachedManifest) (cache : Assoc CachedManifest)
      → is_tampered verify new.manifest new.manifest.pqc_signature new.manifest.pqc_public_key
        ≡ false
      → IsAttested cache
      → IsAttested (insert peer new cache)
  unfolding insert
  insert-IsAttested peer new [] good h = (good, tt)
  insert-IsAttested peer new ((p, c) ∷ cache) good h = elim (Bool-cases (str_eq p peer)) [
    | inl same ↦ rw same (good, h.1)
    | inr other ↦ rw other (h.0, insert-IsAttested peer new cache good h.1)
  ]

  settle-IsAttested :
      (now : ℕ) (result : QueryResult) (r : LiopMcpRouter)
      → IsAttested r.manifest_cache
      → IsAttested (settle verify now result r).manifest_cache
  unfolding settle
  settle-IsAttested now (found peer m) r h =
      elim (Bool-cases (is_tampered verify m m.pqc_signature m.pqc_public_key)) [
        | inl bad ↦ rw bad h
        | inr good ↦ rw good (insert-IsAttested peer _ r.manifest_cache good h)
      ]
  settle-IsAttested now (not_found peer) r h = h
  settle-IsAttested now rejected r h = h

  settle_all-IsAttested :
      (now : ℕ) (results : List QueryResult) (r : LiopMcpRouter)
      → IsAttested r.manifest_cache
      → IsAttested (settle_all verify now results r).manifest_cache
  unfolding settle_all
  settle_all-IsAttested now [] r h = h
  settle_all-IsAttested now (result ∷ results) r h =
      settle_all-IsAttested now results (settle verify now result r)
        (settle-IsAttested now result r h)

  -- After a refresh, whatever peers it has asked and whatever they have answered, the cache holds
  -- no manifest whose signature is refuted by its key, if it held none before.
  pub refresh_manifest_cache-IsAttested :
      (silent : Bool) (now : ℕ) (self_id : String) (query : QueryManifest)
      (provider_ids : List String) (r : LiopMcpRouter)
      → IsAttested r.manifest_cache
      → IsAttested
          (refresh_manifest_cache verify silent now self_id query provider_ids r).manifest_cache
  unfolding refresh_manifest_cache query_all
  refresh_manifest_cache-IsAttested silent now self_id query provider_ids r h =
      elim (Bool-cases (not silent && all_fresh now r.manifest_cache)) [
        | inl fresh ↦ rw fresh h
        | inr stale ↦ rw stale (settle_all-IsAttested now _ _ h)
      ]
