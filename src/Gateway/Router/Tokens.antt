-- ===== src/Gateway/Router/Tokens.antt =====
-- sdks/typescript/src/gateway/router.ts: the access token for a remote peer, from the environment or
-- from the authorization server.
use Prim.Native.Char.{code}
use Prim.Native.String.{◌++◌, [], ◌∷◌}
use neural_mesh_protocol.Prelude.{
  String, ◌&&◌, ◌||◌, Option, none, some, leb, ◌==◌, str_eq, if◌then◌else◌, to_lower_case,
  to_upper_case,
}
use neural_mesh_protocol.Prelude.Split.{ends_with, last_chars}
use neural_mesh_protocol.Prelude.Assoc.{lookup}
use neural_mesh_protocol.Gateway.Router.{LiopManifest, CachedManifest, LiopMcpRouter}

-- `process.env`
abbrev pub Environment : Type 0
Environment = String → Option String

-- The authorization server: the access token that it gives to a client.
abbrev pub TokenEndpoint : Type 0
TokenEndpoint = (token_url audience client_id client_secret : String) → Option String

-- a text that is given and not empty
abbrev pub non_empty : Option String → Option String
non_empty none = none
non_empty (some t) = if str_eq t "" then none else some t

abbrev pub or_text : Option String → Option String → Option String
or_text none next = next
or_text (some t) next = some t

-- `a || b`, where an empty text counts as none
abbrev first_text : Option String → Option String → Option String
first_text a b = or_text (non_empty a) (non_empty b)

abbrev pub or_default : Option String → String → String
or_default none fallback = fallback
or_default (some t) fallback = t

abbrev pub manifest_of : Option CachedManifest → Option LiopManifest
manifest_of none = none
manifest_of (some cached) = some cached.manifest

abbrev name_of : Option LiopManifest → Option String
name_of none = none
name_of (some manifest) = manifest.server_name

abbrev slug_of : Option LiopManifest → Option String
slug_of none = none
slug_of (some manifest) = non_empty manifest.token_slug

-- `serverInfo?.name?.toLowerCase() || fallback`
unfoldable pub provider_name : Option LiopManifest → (fallback : String) → String
provider_name manifest fallback = to_lower_case (or_default (non_empty (name_of manifest)) fallback)

-- `replace(/[^A-Z0-9_]/g, "_")`
unfoldable pub clean_name : String → String
clean_name [] = []
clean_name (c ∷ s) =
    let x = code c in
    (if (leb b'A' x && leb x b'Z') || (leb b'0' x && leb x b'9') || x == b'_' then c else "_")
    ∷ clean_name s

-- `process.env[LIOP_TOKEN_…] || process.env[LIOP_OAUTH_TOKEN_…]`
abbrev token_of : Environment → String → Option String
token_of env name = first_text (env ("LIOP_TOKEN_" ++ name)) (env ("LIOP_OAUTH_TOKEN_" ++ name))

-- 0. by the slug
abbrev slug_token : Environment → Option String → Option String
slug_token env none = none
slug_token env (some slug) = token_of env slug

-- 1. by the peer
abbrev peer_token : Environment → (peer_id : String) → Option String
peer_token env peer_id = token_of env (to_upper_case (last_chars 8 peer_id))

-- 2. by the provider's name
abbrev named_token : Environment → (provider : String) → Option String
named_token env provider =
    if str_eq provider "" then none else token_of env (clean_name (to_upper_case provider))

unfoldable pub node_token : Environment → (peer_id : String) → Option LiopManifest → Option String
unfolding clean_name provider_name
node_token env peer_id manifest =
    or_text (slug_token env (slug_of manifest))
      (or_text (peer_token env peer_id) (named_token env (provider_name manifest "")))

-- keep a token that is not the peer's own
abbrev pub keep_token : Option String → LiopMcpRouter → Option String × LiopMcpRouter
keep_token none r = (none, r)
keep_token (some token) r = (some token, record r { mesh_agent_token = some token })

token_url : (nexus_url : String) → String
token_url nexus_url =
    (if ends_with nexus_url "/oidc" then nexus_url else nexus_url ++ "/oidc") ++ "/token"

acquire_token : Environment → TokenEndpoint → (nexus_url : Option String) → Option String
acquire_token env endpoint none = none
acquire_token env endpoint (some nexus_url) = non_empty (
    endpoint (token_url nexus_url)
      (or_default (first_text (env "LIOP_OAUTH_AUDIENCE") (env "LIOP_AUDIENCE"))
        "urn:liop:mesh:api")
      (or_default (first_text (env "LIOP_OAUTH_CLIENT_ID") (env "LIOP_CLIENT_ID"))
        "liop-mesh-agent")
      (or_default (first_text (env "LIOP_OAUTH_CLIENT_SECRET") (env "LIOP_CLIENT_SECRET"))
        "dev-secret-change-me"))

-- the token that serves for every peer
unfoldable pub shared_token :
    Environment → TokenEndpoint → Option String → LiopMcpRouter → Option String × LiopMcpRouter
unfolding token_url acquire_token
shared_token env endpoint (some token) r = (some token, r)
shared_token env endpoint none r =
    keep_token
      (or_text (first_text (env "LIOP_OAUTH_TOKEN") (env "LIOP_TOKEN"))
        (acquire_token env endpoint (non_empty (env "LIOP_NEXUS_URL"))))
      r

abbrev pub or_shared :
    Environment → TokenEndpoint → Option String → LiopMcpRouter → Option String × LiopMcpRouter
or_shared env endpoint (some token) r = (some token, r)
or_shared env endpoint none r = shared_token env endpoint (non_empty r.mesh_agent_token) r

-- `getOrAcquireMeshAgentToken`, for a peer
unfoldable pub get_or_acquire_mesh_agent_token :
    Environment → TokenEndpoint → (peer_id : String) → LiopMcpRouter → Option String × LiopMcpRouter
unfolding node_token shared_token
get_or_acquire_mesh_agent_token env endpoint peer_id r =
    or_shared env endpoint (node_token env peer_id (manifest_of (lookup peer_id r.manifest_cache)))
      r

-- the variable that the message for a missing token names
primary_var : Option LiopManifest → Option String → String
primary_var manifest (some slug) = "LIOP_TOKEN_" ++ slug
primary_var manifest none =
    "LIOP_TOKEN_" ++ clean_name (to_upper_case (provider_name manifest "unknown"))

-- the message for a missing token
unfoldable pub authentication_required : (peer_id : String) → Option LiopManifest → String
unfolding primary_var clean_name provider_name
authentication_required peer_id manifest =
    "Authentication Required: The restricted node ("
    ++ (provider_name manifest "unknown"
        ++ (") requires an access token. Please define the "
            ++ (primary_var manifest (slug_of manifest)
                ++ (" or LIOP_TOKEN_"
                    ++ (to_upper_case (last_chars 8 peer_id)
                        ++ " environment variable on your agent/client host.")))))
