-- ===== src/Api/Workloads.antt =====
-- app/api/main.py: the routes of workload revocation. Python's `sorted` and `strip` are arguments.
use agent_identity_platform.Common.{ℕ, String, Bool, not, Option, List, [], ◌∷◌, ◌==◌}
use agent_identity_platform.Common.Http.{Response, fail, answer, ◌>>=◌, ◌>>◌, require}
use agent_identity_platform.Revocations
use agent_identity_platform.Revocations.{Revocation}
use agent_identity_platform.Tools.Tokens.{Delegation}
use agent_identity_platform.Api.Authz.{Auth, require_roles}
use agent_identity_platform.Api.State.{
  Platform, Callers, named, workload_revoked, workload_restored,
}

-- The checks of the two admin routes: an administrator, and an identity without blanks around it.
unfoldable pub may_revoke : Auth → (String → String) → Option String → String → Response Delegation
may_revoke auth strip header spiffe_id = do
  who ← require_roles auth ("platform_admin" ∷ []) header
  require (not (strip spiffe_id == "")) 400 "spiffe_id is required"
  answer who

module _ {V B : Type 0} (auth : Auth) (callers : Callers) where
  unfoldable pub list_revoked :
      (List String → List String) → Option String → Platform V B → Response (List String)
  unfolding named
  list_revoked sorted workload_header s = do
    caller ← named auth (callers.agent ∷ callers.tools ∷ callers.gateway ∷ []) workload_header s
    answer (sorted (Revocations.ids s.revocations))

  unfoldable pub revoke_workload :
      (String → String)
      → Option String
      → String
      → String
      → ℕ
      → Platform V B
      → Response Revocation × Platform V B
  unfolding may_revoke
  revoke_workload strip header spiffe_id reason now s =
      elim (may_revoke auth strip header spiffe_id) [
        | fail code detail ↦ (fail code detail, s)
        | answer who ↦
            let (r, items) =
              Revocations.revoke (strip spiffe_id) reason who.user now s.revocations in
            (
              answer r,
              record s {
                revocations = items;
                log = workload_revoked (strip spiffe_id) who.user reason ∷ s.log;
              },
            )
      ]

  unfoldable pub restore_workload :
      (String → String) → Option String → String → Platform V B → Response Bool × Platform V B
  unfolding may_revoke
  restore_workload strip header spiffe_id s = elim (may_revoke auth strip header spiffe_id) [
    | fail code detail ↦ (fail code detail, s)
    | answer who ↦
        let (removed, items) = Revocations.restore (strip spiffe_id) s.revocations in
        (
          answer removed,
          record s {
            revocations = items;
            log = workload_restored (strip spiffe_id) who.user ∷ s.log;
          },
        )
  ]
