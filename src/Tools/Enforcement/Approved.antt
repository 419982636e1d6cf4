-- ===== src/Tools/Enforcement/Approved.antt =====
-- The tool server together with the approvals service (app/tools/enforcement.py, app/approvals/store.py).
use agent_identity_platform.Common.{
  ℕ, String, ◌≡◌, ◌≢◌, refl, inl, inr, Bool, true, Option, some, List, [], Dict, lookup, In, get_or,
  arith, none, ◌⊎◌,
}
use agent_identity_platform.Common.Values.{Values}
use agent_identity_platform.Approvals.Args.{normalize, dict_eq}
use agent_identity_platform.Approvals.Store
use agent_identity_platform.Approvals.Store.{Claim, Items, Approval}
use agent_identity_platform.Approvals.Safety.{Reach, verify_sound}
use agent_identity_platform.Tools.Tokens
use agent_identity_platform.Tools.Tokens.{Delegation}
use agent_identity_platform.Tools.Revocation.{Cache}
use agent_identity_platform.Tools.Policy
use agent_identity_platform.Tools.Enforcement
use agent_identity_platform.Tools.Enforcement.Safety.{handler_runs-IsAuthorised}

module _ {V R W : Type 0} (py : Values V) (e : Enforcement.Enforcer V R W) where
  confirmed_inv :
      (id : Option String) (c : Claim V)
      → Enforcement.confirmed py e id c ≡ true
      → (i : String) × (id ≡ some i) × (e.confirm i c ≡ some true)
  unfolding Enforcement.confirmed
  confirmed_inv none c h = ground arith
  confirmed_inv (some i) c h = (i, refl, by_answer (e.confirm i c) refl)
    where
      by_answer : (o : Option Bool) → e.confirm i c ≡ o → e.confirm i c ≡ some true
      by_answer o p = ground (arith, h, p)

  -- When the approvals client answers yes only if `verify` does in a reachable store of approvals,
  -- a handler that runs for a call that policy does not simply allow has an approval in that store:
  -- for this tool and for the user, workload and tenant that the presented token verifies to,
  -- agreeing with the arguments that the handler gets, and granted by somebody other than that user.
  pub held_call_was_approved :
      (eqv : V → V → Bool) (s : Items V)
      → Reach [] s
      → ((id : String) (c : Claim V) → e.confirm id c ≡ some true → Store.verify eqv id c s ≡ true)
      → (now : ℕ) (fetch : Option (List String)) (token : Option String) (name : String)
        (given : Dict V) (workload_token : Option String) (cache : Cache) (w : W) (n : String)
        (a : Dict V) (t k : Option String)
      → In
          (Enforcement.handled n a t k)
          (Enforcement.call py e now fetch token name given workload_token cache w).1
      → (who : Delegation) × (presented : String) × (token ≡ some presented)
        × (Tokens.verify e.decode e.settings presented none none ≡ Tokens.verified who)
        × (t ≡ who.tenant)
        × (((Enforcement.policy_of py e who name a).decision ≡ Policy.allow)
            ⊎ ((id : String) × (x : Approval V) × (p : String) × (lookup id s ≡ some x)
                × (x.status ≡ Store.approved)
                × (x.approver ≡ some p)
                × (p ≢ who.user)
                × (x.tool ≡ name)
                × (x.user ≡ who.user)
                × (x.agent ≡ who.workload)
                × (x.tenant ≡ get_or who.tenant "")
                × (dict_eq eqv x.args (normalize a) ≡ true)))
  unfolding Enforcement.claim_of
  held_call_was_approved eqv s r honest now fetch token name given workload_token cache w n a t k
        h =
      let (f, (p, q, (who, tool, verified, found, g, l, m, allowed)), checked) =
        handler_runs-IsAuthorised py e now fetch token name given workload_token cache w n a t k
          h in
      let claim = Enforcement.claim_of py e who name a in
      (
        who,
        p,
        q,
        verified,
        l,
        elim allowed [
          | inl d ↦ inl d
          | inr (d, c) ↦
              let (i, same, answer) = confirmed_inv (Enforcement.approval_of py e given) claim c in
              let (x, b, at, status, approver, ne, tenant, tl, us, ag, args) =
                verify_sound eqv i claim r (honest i claim answer) in
              inr (i, x, b, at, status, approver, ne, tl, us, ag, tenant, args)
        ],
      )
