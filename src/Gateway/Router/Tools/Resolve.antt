-- ===== src/Gateway/Router/Tools/Resolve.antt =====
-- sdks/typescript/src/gateway/router.ts: the name under which a remote tool is listed leads back to it.

use neural_mesh_protocol.Prelude.{
  String, true, false, ◌||◌, ◌≡◌, refl, ap, ◌∙◌, some, List, [], ◌∷◌, arith, All, str_eq,
  str_eq_iff, if◌then◌else◌, Bool-cases, inl, inr,
}
use neural_mesh_protocol.Prelude.Split.{
  split, has_char, ends_with, last_chars, has_char-last_chars, cut_last, cut_last-append,
}
use neural_mesh_protocol.Prelude.Assoc.{Assoc, has, keys}
use neural_mesh_protocol.Gateway.Router.{CachedManifest}
use neural_mesh_protocol.Gateway.Router.Tools.{
  Offer, offers, is_diagnostic, suffixed_name, final_name, remote_names, exact_match,
  suffixed_target, or_target, resolve_manifest_target,
}
use neural_mesh_protocol.Gateway.Router.Tools.Offers.{
  first_offer, has_offer, exact_match-first, All_at, suffixed_match-offer, first_offer-eq-none,
  has-keys,
}

-- The last four characters of a peer tell it from the other peers of the cache, and have no
-- underscore; no tool's name ends like a suffixed name.
pub record IsUnambiguous (cache : Assoc CachedManifest) : Type 0 where
  pub distinct :
      All (λ p. All (λ q. ends_with q (last_chars 4 p) ≡ str_eq q p) (keys cache)) (keys cache)
  pub plain : All (λ p. has_char b'_' p ≡ false) (keys cache)
  pub unclashing :
      All
        (λ p.
          All
            (λ (o : Offer). ends_with o.tool.name (String.◌∷◌ "_" (last_chars 4 p)) ≡ false)
            (offers cache))
        (keys cache)

suffixed_name-resolves :
    (peer name : String) (cache : Assoc CachedManifest)
    → IsUnambiguous cache
    → has_offer peer name (offers cache) ≡ true
    → resolve_manifest_target (suffixed_name name peer) cache ≡ some (peer, name)
unfolding resolve_manifest_target
suffixed_name-resolves peer name cache u h =
    let known = has-keys peer name cache h in
    let unclashing = All_at _ peer (keys cache) u.unclashing known in
    ap
      (λ t.
        or_target t (suffixed_target (cut_last "_" (split b'_' (suffixed_name name peer))) cache))
      (exact_match-first (suffixed_name name peer) cache
        ∙ first_offer-eq-none name (String.◌∷◌ "_" (last_chars 4 peer)) (offers cache) unclashing)
    ∙ ap (λ t. suffixed_target t cache)
        (cut_last-append "_" name (last_chars 4 peer)
          (has_char-last_chars b'_' 4 peer (All_at _ peer (keys cache) u.plain known)))
    ∙ suffixed_match-offer peer name cache (All_at _ peer (keys cache) u.distinct known) h

exact_match-resolves :
    (name : String) (target : String × String) (cache : Assoc CachedManifest)
    → exact_match name cache ≡ some target
    → resolve_manifest_target name cache ≡ some target
unfolding resolve_manifest_target
exact_match-resolves name target cache h = rw h

abbrev Resolves : Assoc CachedManifest → String × Offer → Type 0
Resolves cache (name, offer) =
    resolve_manifest_target name cache ≡ some (offer.peer_id, offer.tool.name)

module _ (cache : Assoc CachedManifest) (unambiguous : IsUnambiguous cache)
    (local : List String) where
  -- A name that neither an earlier nor a local tool has is first offered in the rest.
  abbrev IsRest : List String → List Offer → Type 0
  IsRest seen os =
      (name : String)
      → str_eq name "LiopMeshStatus" ≡ false
      → (has name seen || has name local) ≡ false
      → first_offer name (offers cache) ≡ first_offer name os

  IsRest-tail :
      (seen : List String) (o : Offer) (os : List Offer)
      → IsRest seen (o ∷ os)
      → IsRest (if is_diagnostic o then seen else final_name seen local o ∷ seen) os
  unfolding final_name
  IsRest-tail seen o os rest name listed fresh = elim (Bool-cases (str_eq o.tool.name name)) [
    | inl same ↦ absurd (
        ground (
          arith,
          listed,
          fresh,
          same,
          (str_eq_iff o.tool.name name).0 same,
          str_eq_iff (final_name seen local o) name,
        ))
    | inr other ↦ rest name listed (ground (arith, fresh)) ∙ ground (arith, other)
  ]

  final_name-Resolves :
      (seen : List String) (o : Offer) (os : List Offer)
      → IsRest seen (o ∷ os)
      → ((peer name : String)
          → has_offer peer name (o ∷ os) ≡ true
          → has_offer peer name (offers cache) ≡ true)
      → is_diagnostic o ≡ false
      → Resolves cache (final_name seen local o, o)
  unfolding final_name
  final_name-Resolves seen o os rest within listed =
      elim (Bool-cases (has o.tool.name seen || has o.tool.name local)) [
        | inl taken ↦ rw taken (
            suffixed_name-resolves o.peer_id o.tool.name cache unambiguous (
              within o.peer_id o.tool.name (
                ground
                  (arith, str_eq_iff o.peer_id o.peer_id, str_eq_iff o.tool.name o.tool.name))))
        | inr free ↦ rw free (
            exact_match-resolves o.tool.name (o.peer_id, o.tool.name) cache
              (exact_match-first o.tool.name cache
                ∙ rest o.tool.name listed free
                ∙ ground (arith, str_eq_iff o.tool.name o.tool.name)))
      ]

  remote_names-Resolves :
      (seen : List String) (os : List Offer)
      → IsRest seen os
      → ((peer name : String)
          → has_offer peer name os ≡ true
          → has_offer peer name (offers cache) ≡ true)
      → All (Resolves cache) (remote_names local seen os)
  unfolding remote_names
  remote_names-Resolves seen [] rest within = tt
  remote_names-Resolves seen (o ∷ os) rest within =
      let next = if is_diagnostic o then seen else final_name seen local o ∷ seen in
      let later =
        remote_names-Resolves next os (IsRest-tail seen o os rest)
          (λ p n h. within p n (ground (arith, h))) in
      elim (Bool-cases (is_diagnostic o)) [
        | inl diagnostic ↦ rw diagnostic (rw diagnostic at later)
        | inr other ↦
            rw other (final_name-Resolves seen o os rest within other, (rw other at later))
      ]

-- If the last four characters of each peer tell it from the other peers of the cache and no peer has
-- an underscore, and if no tool's name ends like a suffixed name: resolveManifestTarget resolves every
-- name under which getRemoteTools lists a remote tool to the peer that offers this tool and to the
-- name that the tool has there.
pub remote_names-resolve :
    (cache : Assoc CachedManifest) (local_tool_names : List String)
    → IsUnambiguous cache
    → All
        (λ (listed : String × Offer).
          resolve_manifest_target listed.0 cache ≡ some (listed.1.peer_id, listed.1.tool.name))
        (remote_names local_tool_names [] (offers cache))
remote_names-resolve cache local_tool_names unambiguous =
    remote_names-Resolves cache unambiguous local_tool_names [] (offers cache) (λ name h k. refl)
      (λ p n h. h)
