-- ===== src/Api/Main/Granted.antt =====
-- A request for approval on its way through the API (app/api/main.py).
use agent_identity_platform.Common.{
  ℕ, String, Bool, ◌≡◌, ◌≢◌, refl, ap, ◌∙◌, true, Option, [], ◌∷◌, get_or,
}
use agent_identity_platform.Common.Http.{answer}
use agent_identity_platform.Approvals.Store
use agent_identity_platform.Approvals.Store.{Claim}
use agent_identity_platform.Approvals.Binding.{Distinct}
use agent_identity_platform.Approvals.Granted.{claim_of, granted_verifies}
use agent_identity_platform.Tools.Tokens.{Delegation}
use agent_identity_platform.Api.Authz.{Auth, require_roles}
use agent_identity_platform.Api.State.{Platform, Callers, named}
use agent_identity_platform.Api.Main.Grants.{decided-approvals}
use agent_identity_platform.Api.Approvals.{
  NewApproval, DecisionBody, request_of, verdict_of, may_create, create_approval, decide_approval,
  verify_approval,
}

module _ {V B : Type 0} (auth : Auth) (callers : Callers) where
  created_approvals :
      (header workload_header : Option String) (body : NewApproval V) (id : String) (now : ℕ)
      (s : Platform V B) (who : Delegation)
      → may_create auth callers header workload_header body s ≡ answer who
      → (create_approval auth callers header workload_header body id now s).1.approvals
        ≡ (Store.create id now (request_of who body) s.approvals).1
  unfolding create_approval Store.create
  created_approvals header workload_header body id now s who e = rw (e, create_approval) refl

  decided_approvals :
      (header : Option String) (id : String) (body : DecisionBody) (now : ℕ) (who : Delegation)
      (s : Platform V B)
      → require_roles auth ("manager" ∷ []) header ≡ answer who
      → (decide_approval auth callers header id body now s).1.approvals
        ≡ (Store.decide id (verdict_of who body now) s.approvals).1
  unfolding decide_approval
  decided_approvals header id body now who s e =
      rw (e, decide_approval)
        (decided-approvals who (Store.decide id (verdict_of who body now) s.approvals) s)

  -- When a user's agent has asked for an approval and a manager of the user's tenant, another person,
  -- has then granted it, the tool server's check of exactly the call that it was
  -- asked for succeeds: the same tool, arguments, user, agent and tenant.
  pub approval_reaches_tools :
      (eqv : V → V → Bool) (header workload_header : Option String) (body : NewApproval V)
      (id : String) (now : ℕ) (s : Platform V B) (who : Delegation) (header' : Option String)
      (decision : DecisionBody) (now' : ℕ) (manager : Delegation) (tools_header : Option String)
      (caller : String)
      → ((x : V) → eqv x x ≡ true)
      → Distinct body.args
      → may_create auth callers header workload_header body s ≡ answer who
      → require_roles auth ("manager" ∷ []) header' ≡ answer manager
      → decision.approved ≡ true
      → manager.user ≢ who.user
      → get_or manager.tenant "" ≡ get_or who.tenant ""
      → named auth
          (callers.tools ∷ [])
          tools_header
          (decide_approval auth callers header' id decision now'
            (create_approval auth callers header workload_header body id now s).1).1
        ≡ answer caller
      → verify_approval auth callers eqv tools_header id
          (claim_of (request_of who body))
          (decide_approval auth callers header' id decision now'
            (create_approval auth callers header workload_header body id now s).1).1
        ≡ answer true
  unfolding verify_approval request_of verdict_of
  approval_reaches_tools eqv header workload_header body id now s who header' decision now' manager
        tools_header caller same d c m g other t n =
      let s1 = (create_approval auth callers header workload_header body id now s).1 in
      let r = request_of who body in
      let v = verdict_of manager decision now' in
      let stored =
        decided_approvals header' id decision now' manager s1 m
        ∙ ap (λ i. (Store.decide id v i).1)
            (created_approvals header workload_header body id now s who c) in
      rw (n, verify_approval)
        (ap answer (
          ap (Store.verify eqv id (claim_of r)) stored
          ∙ (granted_verifies eqv id now r v s.approvals same d g other t).1))
