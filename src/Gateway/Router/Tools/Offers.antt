-- ===== src/Gateway/Router/Tools/Offers.antt =====
-- sdks/typescript/src/gateway/router.ts: the tools that the peers of a cache offer.
use Prim.Native.String.{◌++◌}
use mathlib.Core.List
use neural_mesh_protocol.Prelude.{
  String, Bool, true, false, ◌&&◌, ◌||◌, ◌≡◌, refl, sym, ap, ◌∙◌, subst, Option, none, some, List,
  [], ◌∷◌, arith, any, All, str_eq, str_eq_iff, if◌then◌else◌, Bool-cases, inl, inr,
}
use neural_mesh_protocol.Prelude.Split.{ends_with, last_chars, ends_with-append}
use neural_mesh_protocol.Prelude.Assoc.{Assoc, has, keys}
use neural_mesh_protocol.Gateway.Router.{ManifestTool, LiopManifest, CachedManifest}
use neural_mesh_protocol.Gateway.Router.Tools.{
  Offer, offers_of, offers, has_tool, exact_match, suffixed_match,
}

-- the first peer that offers a tool of a name
abbrev pub first_offer : String → List Offer → Option (String × String)
first_offer name [] = none
first_offer name (o ∷ os) =
    if str_eq o.tool.name name then some (o.peer_id, name) else first_offer name os

abbrev pub has_offer : (peer name : String) → List Offer → Bool
has_offer peer name os = any (λ o. str_eq o.peer_id peer && str_eq o.tool.name name) os

first_offer-append :
    (name peer : String) (m : LiopManifest) (tools : List ManifestTool) (os : List Offer)
    → first_offer name (List.◌++◌ (offers_of peer m tools) os) ≡ (
        if any (λ tool. str_eq tool.name name) tools
        then some (peer, name)
        else first_offer name os)
first_offer-append name peer m [] os = refl
first_offer-append name peer m (t ∷ tools) os =
    ground (arith, first_offer-append name peer m tools os)

pub exact_match-first :
    (name : String) (cache : Assoc CachedManifest)
    → exact_match name cache ≡ first_offer name (offers cache)
unfolding exact_match offers
exact_match-first name [] = refl
exact_match-first name ((peer, c) ∷ cache) =
    ap (λ o. if has_tool name c.manifest then some (peer, name) else o)
      (exact_match-first name cache)
    ∙ sym (first_offer-append name peer c.manifest c.manifest.tools (offers cache))

has_offer-append :
    (peer name key : String) (m : LiopManifest) (tools : List ManifestTool) (os : List Offer)
    → has_offer peer name (List.◌++◌ (offers_of key m tools) os) ≡ true
    → ((str_eq key peer && any (λ tool. str_eq tool.name name) tools) || has_offer peer name os)
      ≡ true
has_offer-append peer name key m [] os h = ground (arith, h)
has_offer-append peer name key m (t ∷ tools) os h =
    ground (arith, h, has_offer-append peer name key m tools os)

pub All_at {ℓ} :
    (P : String → Type ℓ) (key : String) (ks : List String) → All P ks → has key ks ≡ true → P key
All_at P key [] h m = absurd (cc m)
All_at P key (k ∷ ks) h m = elim (Bool-cases (str_eq k key)) [
  | inl same ↦ subst P ((str_eq_iff k key).0 same) h.0
  | inr other ↦ All_at P key ks h.1 (ground (arith, m, other))
]

-- An offered tool is found by its name and the end of its peer.
pub suffixed_match-offer :
    (peer name : String) (cache : Assoc CachedManifest)
    → All (λ q. ends_with q (last_chars 4 peer) ≡ str_eq q peer) (keys cache)
    → has_offer peer name (offers cache) ≡ true
    → suffixed_match (last_chars 4 peer) name cache ≡ some (peer, name)
unfolding suffixed_match offers
suffixed_match-offer peer name [] ends h = absurd (cc h)
suffixed_match-offer peer name ((q, c) ∷ cache) ends h =
    elim (Bool-cases (str_eq q peer && has_tool name c.manifest)) [
      | inl here ↦ ground (arith, ends.0, here, str_eq_iff q peer)
      | inr later ↦ ground (
        arith,
        ends.0,
        later,
        suffixed_match-offer peer name cache ends.1 (
            ground (
              arith,
              later,
              has_offer-append peer name q c.manifest c.manifest.tools (offers cache) h,
            )),
      )
    ]

pub first_offer-eq-none :
    (name end : String) (os : List Offer)
    → All (λ (o : Offer). ends_with o.tool.name end ≡ false) os
    → first_offer (name ++ end) os ≡ none
first_offer-eq-none name end [] h = refl
first_offer-eq-none name end (o ∷ os) h = elim (Bool-cases (str_eq o.tool.name (name ++ end))) [
  | inl same ↦ absurd (
      cc (
        h.0,
        ends_with-append name end,
        ap (λ n. ends_with n end) ((str_eq_iff o.tool.name (name ++ end)).0 same),
      ))
  | inr other ↦ rw other (first_offer-eq-none name end os h.1)
]

pub has-keys :
    (peer name : String) (cache : Assoc CachedManifest)
    → has_offer peer name (offers cache) ≡ true
    → has peer (keys cache) ≡ true
unfolding offers
has-keys peer name [] h = absurd (cc h)
has-keys peer name ((q, c) ∷ cache) h = ground (
  arith,
  has_offer-append peer name q c.manifest c.manifest.tools (offers cache) h,
  has-keys peer name cache,
)
