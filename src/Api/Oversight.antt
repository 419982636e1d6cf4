-- ===== src/Api/Oversight.antt =====
-- app/api/main.py: the routes of the audit trail and of the privacy view.
use Prim.Native.Nat.{max, min}
use agent_identity_platform.Common.{
  ℕ, String, Bool, true, Option, none, some, List, [], ◌∷◌, ◌==◌, contains, get_or, select, map,
  if◌then◌else◌,
}
use agent_identity_platform.Common.Http.{Response, fail, answer, ◌>>=◌}
use agent_identity_platform.Approvals.Store
use agent_identity_platform.Approvals.Store.{Approval, Request, Claim, Verdict, Items}
use agent_identity_platform.Audit
use agent_identity_platform.Audit.{Record, Filter}
use agent_identity_platform.Api.Authz.{Auth, current_delegation, require_roles}
use agent_identity_platform.Api.State.{Platform, Callers, named}

pub record AuditParams : Type 0 where
  pub limit : ℕ
  pub event : Option String
  pub tool : Option String
  pub sub : Option String

-- A row of the privacy view; the rest of a record is shown as it is.
pub record Access (B : Type 0) : Type 0 where
  pub event : String
  pub user : String
  pub tool : String
  pub decision : String
  pub body : B

abbrev pub pii_tool : String
pii_tool = "privacy.pii.read"

abbrev pub tool_events : List String
tool_events =
    "tool.allowed" ∷ "tool.denied" ∷ "tool.approval_required" ∷ "tool.error" ∷ "agent.refused" ∷ []

-- `e.get("decision") or (...)`; an absent or empty decision is none.
unfoldable pub shown_decision : Option String → String → String
shown_decision (some d) event = d
shown_decision none event =
    if event == "tool.approval_required"
    then "approval_required"
    else if event == "agent.refused"
    then "refused"
    else ""

unfoldable pub access_of : {B : Type 0} → (B → Option String) → Record B → Access B
unfolding shown_decision
access_of decision_of r = record {
  event = get_or r.event "";
  user = get_or r.sub "";
  tool = get_or r.tool "";
  decision = shown_decision (decision_of r.body) (get_or r.event "");
  body = r.body;
}

-- The records of the privacy view.
unfoldable pub pii_records : {V B : Type 0} → String → Platform V B → List (Record B)
pii_records tenant s =
    select (λ r. contains (get_or r.event "") tool_events)
      (Audit.query 500
        (record { event = none; tool = some pii_tool; sub = none; tenant = some tenant }) s.trail)

module _ {V B : Type 0} (auth : Auth) (callers : Callers) where
  unfoldable pub ingest_audit :
      Option String → Record B → Platform V B → Response Bool × Platform V B
  unfolding named
  ingest_audit workload_header r s =
      elim (named auth (callers.agent ∷ callers.tools ∷ []) workload_header s) [
        | fail code detail ↦ (fail code detail, s)
        | answer caller ↦
            (answer true, record s { trail = Audit.append Audit.max_in_memory r s.trail })
      ]

  -- A negative `limit` gives what 0 gives.
  unfoldable pub get_audit : Option String → AuditParams → Platform V B → Response (List (Record B))
  get_audit header params s = do
    who ← current_delegation auth header
    answer (
        Audit.query (max 1 (min params.limit 500))
          (record {
            event = params.event;
            tool = params.tool;
            sub = params.sub;
            tenant = some (get_or who.tenant "");
          })
          s.trail)

  unfoldable pub privacy_access :
      (B → Option String)
      → Option String
      → Platform V B
      → Response (List (Access B) × List (Approval V))
  unfolding access_of pii_records
  privacy_access decision_of header s = do
    who ← require_roles auth ("manager" ∷ []) header
    let tenant = get_or who.tenant ""
    answer (
      map (access_of decision_of) (pii_records tenant s),
      select (λ a. a.tool == pii_tool) (Store.all_of tenant s.approvals),
    )
