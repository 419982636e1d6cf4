-- ===== src/Tools/Policy.antt =====
-- sdk/agentnhi/policy.py: the policy client, which denies on every error. The policy server is a
-- parameter.
use Prim.Native.String.{◌++◌ as ◌⧺◌}
use agent_identity_platform.Common.{
  String, Option, none, some, [], ◌∷◌, ◌==◌, Dict, insert, if◌then◌else◌,
}

pub data Decision : Type 0 where
  allow deny require_approval : Decision

pub record PolicyResult : Type 0 where
  pub decision : Decision
  pub reason : String
  pub policy_version : Option String

-- What the server says: an error of any kind, or a result's "decision", "reason" (falsy ones are
-- none) and "policy_version".
pub data Posted : Type 0 where
  unavailable : Posted
  result : Option String → Option String → Option String → Posted

unfoldable pub decision_value : Decision → String
decision_value allow = "allow"
decision_value deny = "deny"
decision_value require_approval = "require_approval"

-- `Decision(raw)`, none for its ValueError.
unfoldable pub to_decision : Option String → Option Decision
to_decision none = none
to_decision (some raw) =
    if raw == "allow"
    then some allow
    else if raw == "deny"
    then some deny
    else if raw == "require_approval"
    then some require_approval
    else none

-- `d.update(e)`
unfoldable pub update : {V : Type 0} → Dict V → Dict V → Dict V
update d [] = d
update d ((k, v) ∷ e) = update (insert k v d) e

unfoldable pub input_doc : {V : Type 0} → (String → V) → String → String → String → Dict V → Dict V
unfolding update
input_doc text agent user tool context =
    update (("agent", text agent) ∷ ("user", text user) ∷ ("tool", text tool) ∷ []) context

unfoldable pub read_answer : Posted → PolicyResult
unfolding decision_value to_decision
read_answer unavailable = record {
  decision = deny;
  reason = "policy unavailable — denying (fail closed)";
  policy_version = none;
}
read_answer (result raw reason version) = elim (to_decision raw) [
  | none ↦ record {
    decision = deny;
    reason = "policy returned no valid decision — denying";
    policy_version = none;
  }
  | some d ↦ record {
    decision = d;
    reason = elim reason [ none ↦ "policy decision: " ⧺ decision_value d | some r ↦ r ];
    policy_version = version;
  }
]

unfoldable pub decide :
    {V : Type 0}
    → (String → V)
    → (Dict V → Posted)
    → String
    → String
    → String
    → Dict V
    → PolicyResult
unfolding input_doc read_answer
decide text post agent user tool context =
    read_answer (post (input_doc text agent user tool context))
