-- ===== src/Api/Main.antt =====
-- app/api/main.py: the routes that change the state, as one step of the service.
pub mod Grants
pub mod Tenancy
pub mod Revoked
pub mod Refused
pub mod Granted
mod Tests
use agent_identity_platform.Common.{
  ℕ, String, Bool, true, false, ◌&&◌, ◌||◌, not, Option, none, some, List, [], ◌∷◌, ◌==◌, Dict,
  contains, get_or, select, map, values, is_some, if◌then◌else◌,
}
use agent_identity_platform.Common.Http.{Response, fail, answer, ◌>>=◌, ◌>>◌, require}
use agent_identity_platform.Approvals.Store
use agent_identity_platform.Approvals.Store.{Approval, Request, Claim, Verdict, Items}
use agent_identity_platform.Audit
use agent_identity_platform.Audit.{Record, Filter}
use agent_identity_platform.Revocations
use agent_identity_platform.Revocations.{Revocation}
use agent_identity_platform.Tools.Tokens.{Delegation}
use agent_identity_platform.Api.Authz.{Auth, current_delegation, require_roles, require_workload}
use agent_identity_platform.Api.State.{
  Platform, Callers, Line, named, approval_created, approval_decided, workload_revoked,
  workload_restored,
}
use agent_identity_platform.Api.Approvals.{
  NewApproval, DecisionBody, create_approval, decide_approval,
}
use agent_identity_platform.Api.Workloads.{revoke_workload, restore_workload}
use agent_identity_platform.Api.Oversight.{ingest_audit}

-- The requests that the routes which change the state receive.
pub data Call (V B : Type 0) : Type 0 where
  creates : Option String → Option String → NewApproval V → String → ℕ → Call V B
  decides : Option String → String → DecisionBody → ℕ → Call V B
  revokes : Option String → String → String → ℕ → Call V B
  restores : Option String → String → Call V B
  ingests : Option String → Record B → Call V B

module _ {V B : Type 0} (auth : Auth) (callers : Callers) (strip : String → String) where
  unfoldable pub serve : Call V B → Platform V B → Platform V B
  unfolding create_approval decide_approval revoke_workload restore_workload ingest_audit
  serve (creates header workload_header body id now) s =
      (create_approval auth callers header workload_header body id now s).1
  serve (decides header id body now) s = (decide_approval auth callers header id body now s).1
  serve (revokes header id reason now) s =
      (revoke_workload auth callers strip header id reason now s).1
  serve (restores header id) s = (restore_workload auth callers strip header id s).1
  serve (ingests workload_header r) s = (ingest_audit auth callers workload_header r s).1

  -- The state after a series of requests, the last one first.
  unfoldable pub serve_all : List (Call V B) → Platform V B → Platform V B
  serve_all [] s = s
  serve_all (c ∷ calls) s = serve c (serve_all calls s)
