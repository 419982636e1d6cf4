-- ===== src/Api/State.antt =====
-- app/api/main.py: the stores behind the routes, the audit lines, and what the routes share.
use agent_identity_platform.Common.{String, Option, List, [], Dict}
use agent_identity_platform.Common.Http.{Response}
use agent_identity_platform.Approvals.Store
use agent_identity_platform.Approvals.Store.{Approval, Request, Claim, Verdict, Items}
use agent_identity_platform.Audit.{Record}
use agent_identity_platform.Revocations
use agent_identity_platform.Revocations.{Revocation}
use agent_identity_platform.Tools.Tokens.{Delegation}
use agent_identity_platform.Api.Authz.{Auth, require_workload}

-- The audit lines of the API.
pub data Line : Type 0 where
  approval_created : String → Delegation → String → Line
  approval_decided : String → String → Store.Status → String → Line
  workload_revoked : String → String → String → Line
  workload_restored : String → String → Line

-- `_store`, `_revocations` and `_audit`, and the audit lines so far, newest first.
pub record Platform (V B : Type 0) : Type 0 where
  pub approvals : Items V
  pub revocations : Dict Revocation
  pub trail : List (Record B)
  pub log : List Line

abbrev pub empty_platform : {V B : Type 0} → Platform V B
empty_platform = record { approvals = []; revocations = []; trail = []; log = [] }

-- The SPIFFE IDs that the routes name.
pub record Callers : Type 0 where
  pub agent : String
  pub tools : String
  pub gateway : String

-- A workload route's caller, by the denylist of the moment.
unfoldable pub named :
    {V B : Type 0} → Auth → List String → Option String → Platform V B → Response String
named auth allowed header s = require_workload auth (Revocations.ids s.revocations) allowed header
