-- ===== src/Api/Authz.antt =====
-- app/api/authz.py: the dependencies of the routes. What `verify` of a token and of a workload token stand
-- on is in `Auth`, with the removal of the "Bearer " prefix and the texts of the exceptions.
use Prim.Native.String.{◌++◌ as ◌⧺◌}
use agent_identity_platform.Common.{
  String, Bool, false, ◌||◌, not, Option, none, some, List, [], ◌∷◌, ◌==◌, contains, get_or,
  if◌then◌else◌,
}
use agent_identity_platform.Common.Http.{Response, fail, answer, ◌>>=◌, ◌>>◌, require}
use agent_identity_platform.Agent.Graph.{join}
use agent_identity_platform.Tools.Tokens
use agent_identity_platform.Tools.Tokens.{Delegation}
use agent_identity_platform.Tools.Workload
use agent_identity_platform.Tools.Revocation.{empty_cache}

pub record Auth : Type 0 where
  pub settings : Tokens.Settings
  pub decode : String → String → Tokens.Decoded
  pub bare : String → String
  pub token_text : Tokens.TokenRejected → String
  pub identity : Workload.Identity
  pub workload_text : Workload.WorkloadRejected → String

-- A header's value and "Bearer " taken off it; an absent header is "".
unfoldable pub bearer : Auth → Option String → String
bearer auth header = auth.bare (get_or header "")

-- What `verify` of a token answers: a TokenRejected becomes a 403.
unfoldable pub as_response : Auth → Tokens.Verified → Response Delegation
as_response auth (Tokens.rejected why) = fail 403 (auth.token_text why)
as_response auth (Tokens.verified who) = answer who

unfoldable pub current_delegation : Auth → Option String → Response Delegation
unfolding bearer as_response
current_delegation auth header =
    let token = bearer auth header in
    if token == ""
    then fail 401 "missing bearer token"
    else as_response auth (Tokens.verify auth.decode auth.settings token none none)

-- `set(roles) & set(delegation.roles)`, as a test.
unfoldable pub holds_any : List String → List String → Bool
holds_any [] held = false
holds_any (r ∷ roles) held = contains r held || holds_any roles held

unfoldable pub require_roles : Auth → List String → Option String → Response Delegation
unfolding current_delegation holds_any
require_roles auth roles header = do
  who ← current_delegation auth header
  require (holds_any roles who.roles) 403 ("requires one of these roles: " ⧺ join roles)
  answer who

-- The check of the caller against the route's list.
unfoldable pub route_allows : Auth → List String → Workload.Checked → Response String
route_allows auth allowed (Workload.refused why) =
    fail 403 ("workload identity rejected: " ⧺ auth.workload_text why)
route_allows auth allowed (Workload.known caller) =
    if contains caller allowed
    then answer caller
    else fail 403 (caller ⧺ " may not call this route")

-- The API is the authority of the denylist: its own identities are the source, and nothing is cached.
unfoldable pub own_identity : Auth → List String → Workload.Identity
own_identity auth revoked = record (auth.identity) {
  denylist = record (auth.identity.denylist) { source = some revoked };
}

unfoldable pub require_workload : Auth → List String → List String → Option String → Response String
unfolding route_allows own_identity
require_workload auth revoked allowed header =
    if not (Workload.enabled (own_identity auth revoked) 0 none)
    then answer ""
    else route_allows auth allowed
        (Workload.verify (own_identity auth revoked) 0 none header empty_cache).0
