-- ===== src/Api/Main/Refused.antt =====
-- The routes that name their callers, for a revoked workload (app/api/main.py).
use agent_identity_platform.Common.{
  ℕ, String, Bool, ◌≡◌, refl, ◌⊎◌, inl, inr, false, Option, some, List, [], ◌∷◌, ◌==◌, All,
}
use Prim.Native.String.{◌++◌ as ◌⧺◌}
use agent_identity_platform.Common.Http.{Response, fail, answer, Response-cases}
use agent_identity_platform.Approvals.Store.{Claim}
use agent_identity_platform.Audit
use agent_identity_platform.Tools.Tokens.{Delegation}
use agent_identity_platform.Tools.Workload
use agent_identity_platform.Api.Authz.{Auth, current_delegation}
use agent_identity_platform.Api.State.{Platform, Callers}
use agent_identity_platform.Api.Approvals.{
  NewApproval, create_approval, may_create, verify_approval,
}
use agent_identity_platform.Api.Workloads.{list_revoked, may_revoke, revoke_workload}
use agent_identity_platform.Api.Oversight.{ingest_audit}
use agent_identity_platform.Api.Main.{Call, serve_all}
use agent_identity_platform.Api.Main.Revoked.{
  IsNoRestore, IsRevoked, named-revoked, serve_all-IsRevoked, revoke_workload-IsRevoked_self,
}

-- A refusal with 403 that names the revocation.
abbrev refused : {R : Type 0} → Auth → String → Response R
refused auth id =
    fail 403 ("workload identity rejected: " ⧺ auth.workload_text (Workload.revoked id))

module _ {V B : Type 0} (auth : Auth) (callers : Callers) where
  module _ (token id : String) (s : Platform V B) (enabled : (auth.identity.audience == "") ≡ false)
      (presented : (token == "") ≡ false)
      (read : auth.identity.decode (auth.identity.bare token) auth.identity.audience
        ≡ Workload.subject (some id))
      (revoked : IsRevoked id s) where
    verify_approval-refused :
        (eqv : V → V → Bool) (approval : String) (claim : Claim V)
        → verify_approval auth callers eqv (some token) approval claim s ≡ refused auth id
    unfolding verify_approval
    verify_approval-refused eqv approval claim =
        rw
          (named-revoked auth callers (λ x. x) (callers.tools ∷ []) token id s enabled presented
            read revoked)
          refl

    ingest_audit-refused :
        (r : Audit.Record B) → ingest_audit auth callers (some token) r s ≡ (refused auth id, s)
    unfolding ingest_audit
    ingest_audit-refused r =
        rw
          (
            named-revoked auth callers (λ x. x) (callers.agent ∷ callers.tools ∷ []) token id s
                enabled presented read revoked,
            ingest_audit,
          )
          refl

    list_revoked-refused :
        (sorted : List String → List String)
        → list_revoked auth callers sorted (some token) s ≡ refused auth id
    unfolding list_revoked
    list_revoked-refused sorted =
        rw
          (named-revoked auth callers (λ x. x)
            (callers.agent ∷ callers.tools ∷ callers.gateway ∷ []) token id s enabled presented read
            revoked)
          refl

    may_create-refused :
        (header : Option String) (body : NewApproval V) (who : Delegation)
        → current_delegation auth header ≡ answer who
        → may_create auth callers header (some token) body s ≡ refused auth id
    unfolding may_create
    may_create-refused header body who e =
        rw
          (
            e,
            named-revoked auth callers (λ x. x) (callers.agent ∷ []) token id s enabled presented
                read revoked,
          )
          refl

    may_create-unknown :
        (header : Option String) (body : NewApproval V) (code : ℕ) (detail : String)
        → current_delegation auth header ≡ fail code detail
        → may_create auth callers header (some token) body s ≡ fail code detail
    unfolding may_create
    may_create-unknown header body code detail e = rw e refl

    create_approval-fails :
        (header : Option String) (body : NewApproval V) (new : String) (now code : ℕ)
        (detail : String)
        → may_create auth callers header (some token) body s ≡ fail code detail
        → create_approval auth callers header (some token) body new now s ≡ (fail code detail, s)
    unfolding create_approval
    create_approval-fails header body new now code detail e = rw (e, create_approval) refl

    create_approval-refused :
        (header : Option String) (body : NewApproval V) (new : String) (now : ℕ)
        → ((code : ℕ) × (detail : String) × (current_delegation auth header ≡ fail code detail)
            × (create_approval auth callers header (some token) body new now s
                ≡ (fail code detail, s)))
          ⊎ (create_approval auth callers header (some token) body new now s ≡ (refused auth id, s))
    create_approval-refused header body new now =
        elim (Response-cases (current_delegation auth header)) [
          | inl (code, detail, e) ↦ inl (
            code,
            detail,
            e,
            create_approval-fails header body new now code detail
                (may_create-unknown header body code detail e),
          )
          | inr (who, e) ↦ inr (
              create_approval-fails header body new now 403
                ("workload identity rejected: " ⧺ auth.workload_text (Workload.revoked id))
                (may_create-refused header body who e))
        ]

  -- Once an administrator has revoked a workload, and whatever requests come after that do not restore
  -- it, a request with a token of that workload is refused with 403 by the routes that ingest audit
  -- records, verify an approval and list the revocations; and the route that creates an approval
  -- refuses it with 403 too, or with the error of the user's token where that is no good. No such
  -- request changes the platform.
  pub revoked_until_restored :
      (strip : String → String) (header : Option String) (k reason : String) (time : ℕ)
      (admin : Delegation) (s : Platform V B) (calls : List (Call V B)) (token : String)
      (r : Audit.Record B) (eqv : V → V → Bool) (approval : String) (claim : Claim V)
      (sorted : List String → List String) (user_header : Option String) (body : NewApproval V)
      (new : String) (now : ℕ)
      → may_revoke auth strip header k ≡ answer admin
      → All (IsNoRestore strip (strip k)) calls
      → (auth.identity.audience == "") ≡ false
      → (token == "") ≡ false
      → auth.identity.decode (auth.identity.bare token) auth.identity.audience
        ≡ Workload.subject (some (strip k))
      → let s' =
          serve_all auth callers strip calls
            (revoke_workload auth callers strip header k reason time s).1 in
        let refusal =
          "workload identity rejected: " ⧺ auth.workload_text (Workload.revoked (strip k)) in
        (ingest_audit auth callers (some token) r s' ≡ (fail 403 refusal, s'))
        × (verify_approval auth callers eqv (some token) approval claim s' ≡ fail 403 refusal)
        × (list_revoked auth callers sorted (some token) s' ≡ fail 403 refusal)
        × (((code : ℕ) × (detail : String) × (current_delegation auth user_header
                ≡ fail code detail)
              × (create_approval auth callers user_header (some token) body new now s'
                  ≡ (fail code detail, s')))
            ⊎ (create_approval auth callers user_header (some token) body new now s'
                ≡ (fail 403 refusal, s')))
  revoked_until_restored strip header k reason time admin s calls token r eqv approval claim sorted
        user_header body new now e n a t d =
      let s0 = (revoke_workload auth callers strip header k reason time s).1 in
      let s' = serve_all auth callers strip calls s0 in
      let held : IsRevoked (strip k) s' =
        serve_all-IsRevoked auth callers strip (strip k) calls s0 n
          (revoke_workload-IsRevoked_self auth callers strip header k reason time admin s e) in
      (
        ingest_audit-refused token (strip k) s' a t d held r,
        verify_approval-refused token (strip k) s' a t d held eqv approval claim,
        list_revoked-refused token (strip k) s' a t d held sorted,
        create_approval-refused token (strip k) s' a t d held user_header body new now,
      )
