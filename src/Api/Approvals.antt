-- ===== src/Api/Approvals.antt =====
-- app/api/main.py: the routes of approvals. A body is the fields that the route reads; a falsy text is
-- "". New ids and the time are arguments.
use agent_identity_platform.Common.{
  ℕ, String, Bool, not, Option, none, some, List, [], ◌∷◌, ◌==◌, Dict, get_or, if◌then◌else◌,
}
use agent_identity_platform.Common.Http.{Response, fail, answer, ◌>>=◌, ◌>>◌, require}
use agent_identity_platform.Approvals.Store
use agent_identity_platform.Approvals.Store.{Approval, Request, Claim, Verdict, Items}
use agent_identity_platform.Tools.Tokens.{Delegation}
use agent_identity_platform.Api.Authz.{Auth, current_delegation, require_roles}
use agent_identity_platform.Api.State.{Platform, Callers, named, approval_created, approval_decided}

pub record NewApproval (V : Type 0) : Type 0 where
  pub tool : String
  pub args : Dict V
  pub reason : String

pub record DecisionBody : Type 0 where
  pub approved : Bool
  pub note : Option String

unfoldable pub request_of : {V : Type 0} → Delegation → NewApproval V → Request V
request_of who body = record {
  tool = body.tool;
  args = body.args;
  user = who.user;
  agent = who.workload;
  reason = body.reason;
  tenant = get_or who.tenant "";
}

unfoldable pub verdict_of : Delegation → DecisionBody → ℕ → Verdict
verdict_of who body now = record {
  approver = who.user;
  approved = body.approved;
  note = body.note;
  tenant = get_or who.tenant "";
  now = now;
}

-- What `decide_approval` answers to the store's decision.
unfoldable pub decided :
    {V B : Type 0}
    → Delegation
    → Option (Approval V) × Items V
    → Platform V B
    → Response (Approval V) × Platform V B
decided who (none, items) s = (
  fail 409 "approval not found, already decided, or self-approval is not allowed",
  record s { approvals = items },
)
decided who (some a, items) s = (
  answer a,
  record s { approvals = items; log = approval_decided a.id who.user a.status a.tool ∷ s.log },
)

module _ {V B : Type 0} (auth : Auth) (callers : Callers) where
  -- The checks of `create_approval`, in the order of its dependencies.
  unfoldable pub may_create :
      Option String → Option String → NewApproval V → Platform V B → Response Delegation
  unfolding named
  may_create header workload_header body s = do
    who ← current_delegation auth header
    caller ← named auth (callers.agent ∷ []) workload_header s
    require (not (body.tool == "")) 400 "tool is required"
    answer who

  unfoldable pub create_approval :
      Option String
      → Option String
      → NewApproval V
      → String
      → ℕ
      → Platform V B
      → Response (Approval V) × Platform V B
  unfolding may_create request_of
  create_approval header workload_header body id now s =
      elim (may_create header workload_header body s) [
        | fail code detail ↦ (fail code detail, s)
        | answer who ↦
            let (a, items) = Store.create id now (request_of who body) s.approvals in
            (
              answer a,
              record s { approvals = items; log = approval_created id who body.tool ∷ s.log },
            )
      ]

  unfoldable pub list_approvals :
      Option String → Option String → Platform V B → Response (List (Approval V))
  list_approvals header status s = do
    who ← current_delegation auth header
    let tenant = get_or who.tenant ""
    answer (
        if get_or status "" == "pending"
        then Store.pending_of tenant s.approvals
        else Store.all_of tenant s.approvals)

  unfoldable pub verify_approval :
      (V → V → Bool) → Option String → String → Claim V → Platform V B → Response Bool
  unfolding named
  verify_approval eqv workload_header id claim s = do
    caller ← named auth (callers.tools ∷ []) workload_header s
    answer (Store.verify eqv id claim s.approvals)

  unfoldable pub decide_approval :
      Option String
      → String
      → DecisionBody
      → ℕ
      → Platform V B
      → Response (Approval V) × Platform V B
  unfolding decided verdict_of
  decide_approval header id body now s = elim (require_roles auth ("manager" ∷ []) header) [
    | fail code detail ↦ (fail code detail, s)
    | answer who ↦ decided who (Store.decide id (verdict_of who body now) s.approvals) s
  ]
