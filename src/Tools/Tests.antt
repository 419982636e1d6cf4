-- ===== src/Tools/Tests.antt =====
-- Calls of the tool server at concrete inputs (app/tools/enforcement.py, app/common/revocation.py).
use agent_identity_platform.Common.{
  ℕ, String, Bool, ◌≡◌, ◌≢◌, refl, ◌⊎◌, inl, true, false, Option, none, some, [], ◌∷◌, Dict, lookup,
  arith, In, eqb, get_or,
}
use agent_identity_platform.Common.Sample.{
  Json, label, number, json, refund_properties, refund_args,
}
use agent_identity_platform.Common.Values.{coerce_args}
use agent_identity_platform.Approvals.Args.{normalize, dict_eq}
use agent_identity_platform.Approvals.Store
use agent_identity_platform.Approvals.Store.{Claim, Items, Approval, Request, Verdict}
use agent_identity_platform.Approvals.Safety.{Reach, here, next, created, decided}
use agent_identity_platform.Tools.Tokens
use agent_identity_platform.Tools.Tokens.{Delegation}
use agent_identity_platform.Tools.Revocation.{Setup, empty_cache, is_revoked}
use agent_identity_platform.Tools.Revocation.Staleness.{Query, after, revoked_within_ttl}
use agent_identity_platform.Tools.Workload
use agent_identity_platform.Tools.Policy
use agent_identity_platform.Tools.Enforcement
use agent_identity_platform.Tools.Enforcement.{Enforcer, Tool, Effect}
use agent_identity_platform.Tools.Enforcement.Safety.{IsAuthorised, handler_runs-IsAuthorised}
use agent_identity_platform.Tools.Enforcement.Approved.{held_call_was_approved}

some_inj : (a b : Bool) → some a ≡ some b → a ≡ b
some_inj a b p = ground (arith, p)

abbrev remote : Setup
remote = record { source = none; url = "https://api"; fail_closed = false }

abbrev told : Query
told = record { now = 12; fetch = some ("agent" ∷ []); id = "agent" }

revoked_within_ttl_example :
    (is_revoked remote 15 (some ("agent" ∷ [])) "agent" (after remote (told ∷ []) empty_cache)).0
    ≡ true
revoked_within_ttl_example =
    revoked_within_ttl remote "agent" 10 (told ∷ []) empty_cache 15 ("agent" ∷ []) refl refl
      (omega arith) ((omega arith, ("agent" ∷ [], refl, refl)), tt) (omega arith) refl

abbrev refund : Tool Json ℕ ℕ
refund = record {
  name = "refunds.issue";
  properties = refund_properties;
  idempotent = true;
  handler = λ args tenant key w. (Enforcement.returned w none, w);
}

abbrev claims : Tokens.Claims
claims = record {
  preferred_username = some "alice";
  sub = none;
  act_sub = none;
  azp = some "agent";
  realm_roles = "support" ∷ [];
  roles = [];
  tenant = some "acme";
}

-- Policy holds every refund; the approvals client knows one approval.
abbrev enforcer : (String → Claim Json → Option Bool) → Enforcer Json ℕ ℕ
enforcer confirm = record {
  settings = record { audience = "tools"; trusted_workload = some "agent" };
  decode = λ token audience. Tokens.decoded claims;
  identity = record {
    audience = "";
    allowed = "agent" ∷ [];
    denylist = remote;
    bare = λ t. t;
    decode = λ t a. Workload.subject (some "agent");
  };
  post = λ doc. Policy.result (some "require_approval") (some "above the limit") none;
  confirm = confirm;
  tools = ("refunds.issue", refund) ∷ [];
  texts = λ roles. label "roles";
  workload_text = λ why. "rejected";
  token_text = λ why. "rejected";
}

abbrev given : Dict Json
given = ("approval_id", label "ap-1") ∷ refund_args

abbrev cleaned : Dict Json
cleaned = ("amount", number 200) ∷ ("order_id", label "o-1001") ∷ []

-- The approval in the store, asked for by alice and granted by mia.
abbrev request : Request Json
request = record {
  tool = "refunds.issue";
  args = cleaned;
  user = "alice";
  agent = "agent";
  reason = "above the limit";
  tenant = "acme";
}

abbrev yes_by_mia : Verdict
yes_by_mia = record { approver = "mia"; approved = true; note = none; tenant = "acme"; now = 7 }

abbrev same : Json → Json → Bool
same (label s) (label t) = true
same (number m) (number n) = eqb m n
same _ _ = false

abbrev done : Approval Json
done = record {
  id = "ap-1";
  tool = "refunds.issue";
  args = cleaned;
  user = "alice";
  agent = "agent";
  reason = "above the limit";
  tenant = "acme";
  status = Store.approved;
  approver = some "mia";
  note = none;
  created_at = 5;
  decided_at = some 7;
}

abbrev granted : Items Json
granted = ("ap-1", done) ∷ []

history : Reach [] granted
unfolding Store.create Store.decide Store.new_approval Store.settled normalize Store.get
history =
    next (next here (created "ap-1" 5 request [] refl))
      (decided "ap-1" yes_by_mia (Store.create "ap-1" 5 request []).1)

abbrev confirm : String → Claim Json → Option Bool
confirm id claim = some (Store.verify same id claim granted)

abbrev e : Enforcer Json ℕ ℕ
e = enforcer confirm

handled_once :
    In
      (Enforcement.handled "refunds.issue" cleaned (some "acme") (some "ap-1"))
      (Enforcement.call json e 0 none (some "token") "refunds.issue" given none empty_cache 9).1
unfolding Enforcement.call Tokens.verify Store.verify Store.is_exact Enforcement.execute
    Enforcement.clean_args coerce_args Workload.enabled Policy.decide dict_eq normalize
handled_once = inl refl

abbrev alice : Delegation
alice = record {
  user = "alice";
  workload = "agent";
  audience = "tools";
  roles = "support" ∷ [];
  tenant = some "acme";
}

handler_runs-IsAuthorised_example :
    (refund.name ≡ "refunds.issue")
    × ((p : String) × (some "token" ≡ some p)
        × IsAuthorised json e p "refunds.issue" given cleaned (some "acme") (some "ap-1"))
    × ((Workload.enabled e.identity 0 none ≡ false)
        ⊎ ((caller : String) × ((Workload.check e.identity 0 none none empty_cache).0
              ≡ Workload.known caller)))
handler_runs-IsAuthorised_example =
    handler_runs-IsAuthorised json e 0 none (some "token") "refunds.issue" given none empty_cache 9
      "refunds.issue" cleaned (some "acme") (some "ap-1") handled_once

held_call_was_approved_example :
    (who : Delegation) × (presented : String) × (some "token" ≡ some presented)
    × (Tokens.verify e.decode e.settings presented none none ≡ Tokens.verified who)
    × (some "acme" ≡ who.tenant)
    × (((Enforcement.policy_of json e who "refunds.issue" cleaned).decision ≡ Policy.allow)
        ⊎ ((id : String) × (x : Approval Json) × (p : String) × (lookup id granted ≡ some x)
            × (x.status ≡ Store.approved)
            × (x.approver ≡ some p)
            × (p ≢ who.user)
            × (x.tool ≡ "refunds.issue")
            × (x.user ≡ who.user)
            × (x.agent ≡ who.workload)
            × (x.tenant ≡ get_or who.tenant "")
            × (dict_eq same x.args (normalize cleaned) ≡ true)))
held_call_was_approved_example =
    held_call_was_approved json e same granted history
      (λ id c h. some_inj (Store.verify same id c granted) true h) 0 none (some "token")
      "refunds.issue" given none empty_cache 9 "refunds.issue" cleaned (some "acme") (some "ap-1")
      handled_once
