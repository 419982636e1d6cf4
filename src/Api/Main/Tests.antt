-- ===== src/Api/Main/Tests.antt =====
-- Series of requests to the API at concrete inputs (app/api/main.py).
use agent_identity_platform.Common.{
  ℕ, String, ◌≡◌, ◌≢◌, ◌⊎◌, refl, true, false, Option, none, some, List, [], ◌∷◌, ◌==◌, eqb, arith,
  eq_iff, if◌then◌else◌, lookup,
}
use agent_identity_platform.Common.Http.{answer, fail}
use agent_identity_platform.Approvals.Args.{normalize, place}
use agent_identity_platform.Approvals.Store
use agent_identity_platform.Approvals.Store.{Approval, Claim}
use agent_identity_platform.Approvals.Granted.{claim_of}
use agent_identity_platform.Audit
use agent_identity_platform.Audit.{Record}
use agent_identity_platform.Revocations
use agent_identity_platform.Tools.Tokens
use agent_identity_platform.Tools.Tokens.{Delegation}
use agent_identity_platform.Tools.Workload
use agent_identity_platform.Tools.Revocation.{empty_cache, is_revoked}
use agent_identity_platform.Tools.Revocation.Staleness.{after}
use agent_identity_platform.Api.Authz.{
  Auth, bearer, as_response, current_delegation, holds_any, require_roles, require_workload,
}
use agent_identity_platform.Api.State.{Platform, Callers, empty_platform, named}
use agent_identity_platform.Api.Approvals.{
  NewApproval, DecisionBody, request_of, verdict_of, decided, may_create, create_approval,
  list_approvals, verify_approval, decide_approval,
}
use agent_identity_platform.Api.Workloads.{may_revoke, list_revoked, revoke_workload}
use agent_identity_platform.Api.Oversight.{AuditParams, ingest_audit, get_audit, privacy_access}
use agent_identity_platform.Api.Main.{Call, creates, decides, serve, serve_all}
use agent_identity_platform.Api.Main.Grants.{Grant, serve_all-IsGranted}
use agent_identity_platform.Api.Main.Tenancy.{trail_of, reads_see_one_tenant}
use agent_identity_platform.Api.Main.Revoked.{revoked_elsewhere}
use agent_identity_platform.Api.Main.Refused.{revoked_until_restored}
use agent_identity_platform.Api.Main.Granted.{approval_reaches_tools}

abbrev person : String → List String → Tokens.Claims
person name roles = record {
  preferred_username = some name;
  sub = none;
  act_sub = some "agent";
  azp = none;
  realm_roles = roles;
  roles = [];
  tenant = some "acme";
}

abbrev decode : String → String → Tokens.Decoded
decode token audience =
    if token == "mia-token"
    then Tokens.decoded (person "mia" ("manager" ∷ "platform_admin" ∷ []))
    else if token == "alice-token"
    then Tokens.decoded (person "alice" ("support" ∷ []))
    else Tokens.invalid_token "unknown"

abbrev same : String → String
same s = s

abbrev auth : Auth
auth = record {
  settings = record { audience = "api"; trusted_workload = none };
  decode = decode;
  bare = same;
  token_text = λ why. "rejected";
  identity = record {
    audience = "api";
    allowed = [];
    denylist = record { source = none; url = "https://api"; fail_closed = false };
    bare = same;
    decode = λ token audience. Workload.subject (some token);
  };
  workload_text = λ why. "revoked";
}

abbrev callers : Callers
callers = record { agent = "agent"; tools = "tools"; gateway = "gateway" }

abbrev refund : NewApproval ℕ
refund = record { tool = "refunds.issue"; args = ("amount", 200) ∷ []; reason = "above the limit" }

abbrev granted : DecisionBody
granted = record { approved = true; note = none }

abbrev calls : List (Call ℕ ℕ)
calls =
    decides (some "mia-token") "ap-1" granted 7
    ∷ creates (some "alice-token") (some "agent") refund "ap-1" 5
    ∷ []

abbrev stored : Approval ℕ
stored = record {
  id = "ap-1";
  tool = "refunds.issue";
  args = ("amount", 200) ∷ [];
  user = "alice";
  agent = "agent";
  reason = "above the limit";
  tenant = "acme";
  status = Store.approved;
  approver = some "mia";
  note = none;
  created_at = 5;
  decided_at = some 7;
}

abbrev mia : Delegation
mia = record {
  user = "mia";
  workload = "agent";
  audience = "api";
  roles = "manager" ∷ "platform_admin" ∷ [];
  tenant = some "acme";
}

abbrev alice : Delegation
alice = record {
  user = "alice";
  workload = "agent";
  audience = "api";
  roles = "support" ∷ [];
  tenant = some "acme";
}

is_mia : current_delegation auth (some "mia-token") ≡ answer mia
unfolding current_delegation bearer as_response Tokens.verify Tokens.accept Tokens.from_claims
    Tokens.or_text Tokens.or_list
is_mia = refl

is_manager : require_roles auth ("manager" ∷ []) (some "mia-token") ≡ answer mia
unfolding require_roles holds_any current_delegation bearer as_response Tokens.verify Tokens.accept
    Tokens.from_claims Tokens.or_text Tokens.or_list
is_manager = refl

is_admin : may_revoke auth same (some "mia-token") "agent" ≡ answer mia
unfolding may_revoke require_roles holds_any current_delegation bearer as_response Tokens.verify
    Tokens.accept Tokens.from_claims Tokens.or_text Tokens.or_list
is_admin = refl

is_asked :
    may_create auth callers (some "alice-token") (some "agent") refund (empty_platform {B = ℕ})
    ≡ answer alice
unfolding may_create named Tokens.verify Workload.verify current_delegation require_workload
    Workload.enabled is_revoked Revocations.ids
is_asked = refl

is_stored : lookup "ap-1" (serve_all auth callers same calls empty_platform).approvals ≡ some stored
unfolding serve_all serve create_approval decide_approval decided Store.create Store.decide
    Store.settled Store.new_approval normalize place may_create named Tokens.verify Workload.verify
    current_delegation require_workload Workload.enabled is_revoked Revocations.ids require_roles
    holds_any request_of verdict_of
is_stored = refl

serve_all-IsGranted_example : Grant auth calls "ap-1" stored
serve_all-IsGranted_example =
    serve_all-IsGranted auth callers same calls "ap-1" stored is_stored refl

-- The same records of acme, and one of another tenant.
abbrev acme : Record ℕ
acme = record {
  event = some "tool.allowed";
  tool = some "privacy.pii.read";
  sub = some "alice";
  tenant = some "acme";
  body = 1;
}

abbrev globex : Record ℕ
globex = record acme { tenant = some "globex" }

abbrev small : Platform ℕ ℕ
small = record empty_platform { trail = acme ∷ [] }

abbrev large : Platform ℕ ℕ
large = record empty_platform { trail = globex ∷ acme ∷ [] }

abbrev params : AuditParams
params = record { limit = 50; event = none; tool = none; sub = none }

same_acme : trail_of "acme" small ≡ trail_of "acme" large
unfolding Audit.is_of_tenant
same_acme = refl

abbrev no_decision : ℕ → Option String
no_decision b = none

reads_see_one_tenant_example :
    (list_approvals auth callers (some "mia-token") none small
      ≡ list_approvals auth callers (some "mia-token") none large)
    × (get_audit auth callers (some "mia-token") params small
        ≡ get_audit auth callers (some "mia-token") params large)
    × (privacy_access auth callers no_decision (some "mia-token") small
        ≡ privacy_access auth callers no_decision (some "mia-token") large)
reads_see_one_tenant_example =
    reads_see_one_tenant auth callers no_decision (some "mia-token") none params mia small large
      is_mia refl same_acme

-- The state after the agent's identity was revoked.
abbrev cut : Platform ℕ ℕ
cut = (revoke_workload auth callers same (some "mia-token") "agent" "leak" 9 empty_platform).1

abbrev sorted : List String → List String
sorted xs = xs

is_listed :
    list_revoked auth callers sorted (some "tools") (serve_all auth callers same [] cut)
    ≡ answer ("agent" ∷ [])
unfolding list_revoked revoke_workload serve_all Revocations.revoke may_revoke Revocations.ids named
    Tokens.verify Workload.verify current_delegation require_workload Workload.enabled is_revoked
    require_roles holds_any
is_listed = refl

revoked_until_restored_example :
    let s' = serve_all auth callers same calls cut in
    let refusal : String = "workload identity rejected: revoked" in
    (ingest_audit auth callers (some "agent") acme s' ≡ (fail 403 refusal, s'))
    × (verify_approval auth callers eqb
          (some "agent")
          "ap-1"
          (claim_of (request_of alice refund))
          s'
        ≡ fail 403 refusal)
    × (list_revoked auth callers sorted (some "agent") s' ≡ fail 403 refusal)
    × (((code : ℕ) × (detail : String) × (current_delegation auth (some "alice-token")
            ≡ fail code detail)
          × (create_approval auth callers (some "alice-token") (some "agent") refund "ap-2" 9 s'
              ≡ (fail code detail, s')))
        ⊎ (create_approval auth callers (some "alice-token") (some "agent") refund "ap-2" 9 s'
            ≡ (fail 403 refusal, s')))
revoked_until_restored_example =
    revoked_until_restored auth callers same (some "mia-token") "agent" "leak" 9 mia empty_platform
      calls "agent" acme eqb "ap-1" (claim_of (request_of alice refund)) sorted (some "alice-token")
      refund "ap-2" 9 is_admin (tt, (tt, tt)) refl refl refl

revoked_elsewhere_example :
    (Workload.verify auth.identity 15
      (some ("agent" ∷ []))
      (some "agent")
      (after auth.identity.denylist [] empty_cache)).0
    ≡ Workload.refused (Workload.revoked "agent")
revoked_elsewhere_example =
    revoked_elsewhere auth callers same (some "mia-token") "agent" "leak" 9 mia empty_platform []
      sorted (some "tools") ("agent" ∷ []) auth.identity "agent" 10 [] empty_cache 15 is_admin tt
      (λ x xs. refl) is_listed refl refl (omega arith) tt (omega arith) refl refl refl

is_tools :
    named auth
      ("tools" ∷ [])
      (some "tools")
      (decide_approval auth callers
        (some "mia-token")
        "ap-1"
        granted
        7
        (create_approval auth callers
          (some "alice-token")
          (some "agent")
          refund
          "ap-1"
          5
          (empty_platform {B = ℕ})).1).1
    ≡ answer "tools"
unfolding create_approval decide_approval decided Store.create Store.decide Store.settled
    Store.new_approval normalize place may_create named Tokens.verify Workload.verify
    current_delegation require_workload Workload.enabled is_revoked Revocations.ids require_roles
    holds_any request_of verdict_of
is_tools = refl

eqb_refl : (n : ℕ) → eqb n n ≡ true
eqb_refl n = ground arith

differ : ◌≢◌ {A = String} "mia" "alice"
differ = λ e. ground (arith, eq_iff "mia" "alice")

approval_reaches_tools_example :
    verify_approval auth callers eqb
      (some "tools")
      "ap-1"
      (claim_of (request_of alice refund))
      (decide_approval auth callers
        (some "mia-token")
        "ap-1"
        granted
        7
        (create_approval auth callers
          (some "alice-token")
          (some "agent")
          refund
          "ap-1"
          5
          (empty_platform {B = ℕ})).1).1
    ≡ answer true
approval_reaches_tools_example =
    approval_reaches_tools auth callers eqb (some "alice-token") (some "agent") refund "ap-1" 5
      empty_platform alice (some "mia-token") granted 7 mia (some "tools") "tools" eqb_refl
      (refl, tt) is_asked is_manager refl differ refl is_tools
