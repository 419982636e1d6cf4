-- ===== src/Tools/Enforcement/Safety.antt =====
-- When a handler runs, and with what (app/tools/enforcement.py).
use mathlib.Core.Path.{subst}
use agent_identity_platform.Common.{
  ℕ, String, ◌≡◌, sym, refl, ◌⊎◌, inl, inr, true, false, Option, none, some, List, ◌==◌, Dict,
  lookup, arith, In, if◌then◌else◌, Bool-cases,
}
use agent_identity_platform.Common.Values.{Values}
use agent_identity_platform.Tools.Tokens
use agent_identity_platform.Tools.Tokens.{Delegation}
use agent_identity_platform.Tools.Revocation.{Cache}
use agent_identity_platform.Tools.Workload
use agent_identity_platform.Tools.Policy
use agent_identity_platform.Tools.Policy.{PolicyResult}
use agent_identity_platform.Tools.Enforcement

module _ {V R W : Type 0} (py : Values V) (e : Enforcement.Enforcer V R W) where
  -- What policy and, where it is asked for, the approvals service say of a call.
  abbrev pub IsAllowed : Delegation → String → Dict V → Option String → Policy.Decision → Type 0
  IsAllowed who name args id d =
      (d ≡ Policy.allow)
      ⊎ ((d ≡ Policy.require_approval)
          × (Enforcement.confirmed py e id (Enforcement.claim_of py e who name args) ≡ true))

  -- The run of a handler is authorised: the token verifies to `who`; the tool is in the catalogue; the
  -- arguments are the declared ones of the call, the tenant is the identity's, and the key is the
  -- approval of an idempotent tool; and policy allows the call, or it asks for an approval that the
  -- approvals service confirms for exactly this call.
  abbrev pub IsAuthorised :
      String → String → Dict V → Dict V → Option String → Option String → Type 0
  IsAuthorised token name given args tenant key =
      (who : Delegation) × (tool : Enforcement.Tool V R W) × (Tokens.verify e.decode e.settings
          token none none
        ≡ Tokens.verified who)
      × (lookup name e.tools ≡ some tool)
      × (args ≡ Enforcement.clean_args py e tool given)
      × (tenant ≡ who.tenant)
      × (key ≡ (if tool.idempotent then Enforcement.approval_of py e given else none))
      × IsAllowed who name args (Enforcement.approval_of py e given)
          (Enforcement.policy_of py e who name args).decision

  -- Every run of a handler among the effects has the property.
  abbrev AllRuns :
      (String → Dict V → Option String → Option String → Type 0)
      → List (Enforcement.Effect V)
      → Type 0
  AllRuns P effects =
      (n : String) (a : Dict V) (t k : Option String)
      → In (Enforcement.handled n a t k) effects
      → P n a t k

  report_runs :
      (who : Delegation) (name : String) (policy : PolicyResult) (out : Enforcement.Handled R)
      → AllRuns (λ n a t k. ⊥) (Enforcement.report py e who name policy out).1
  unfolding Enforcement.report
  report_runs who name policy (Enforcement.raised text) n a t k h = ground arith
  report_runs who name policy (Enforcement.returned r none) n a t k h = ground arith
  report_runs who name policy (Enforcement.returned r (some p)) n a t k h = ground arith

  handled_inj :
      (n n' : String) (a a' : Dict V) (t t' k k' : Option String)
      → Enforcement.handled n a t k ≡ Enforcement.handled n' a' t' k'
      → (n ≡ n') × (a ≡ a') × (t ≡ t') × (k ≡ k')
  handled_inj n n' a a' t t' k k' p = ground arith

  execute_runs :
      (who : Delegation) (tool : Enforcement.Tool V R W) (name : String) (args : Dict V)
      (id : Option String) (policy : PolicyResult) (w : W)
      → AllRuns
          (λ n a t k.
            (n ≡ name)
            × (a ≡ args)
            × (t ≡ who.tenant)
            × (k ≡ (if tool.idempotent then id else none)))
          (Enforcement.execute py e who tool name args id policy w).1
  unfolding Enforcement.execute
  execute_runs who tool name args id policy w =
      elim (Bool-cases (Enforcement.collides py e tool args)) [
        | inl c ↦
            rw (c, Enforcement.execute)
              (λ n a t k h. absurd (
                report_runs who name policy
                  (Enforcement.raised "multiple values for a keyword argument") n a t k h))
        | inr c ↦
            rw (c, Enforcement.execute)
              (λ n a t k h. elim h [
                | inl p ↦
                    handled_inj n name a args t who.tenant k (if tool.idempotent then id else none)
                      p
                | inr q ↦ absurd (
                    report_runs who name policy
                      (tool.handler args who.tenant (if tool.idempotent then id else none) w).0 n a
                      t k q)
              ])
      ]

  dispose_runs :
      (who : Delegation) (tool : Enforcement.Tool V R W) (name : String) (args : Dict V)
      (id : Option String) (policy : PolicyResult) (d : Policy.Decision) (w : W)
      → AllRuns
          (λ n a t k.
            ((n ≡ name)
              × (a ≡ args)
              × (t ≡ who.tenant)
              × (k ≡ (if tool.idempotent then id else none)))
            × IsAllowed who name args id d)
          (Enforcement.dispose py e who tool name args id policy d w).1
  unfolding Enforcement.dispose
  dispose_runs who tool name args id policy Policy.allow w =
      λ n a t k h. (execute_runs who tool name args id policy w n a t k h, inl refl)
  dispose_runs who tool name args id policy Policy.deny w = λ n a t k h. ground arith
  dispose_runs who tool name args id policy Policy.require_approval w =
      elim (Bool-cases (Enforcement.confirmed py e id (Enforcement.claim_of py e who name args))) [
        | inl c ↦
            rw (c, Enforcement.dispose)
              (λ n a t k h.
                (execute_runs who tool name args id policy w n a t k h, inr (refl, refl)))
        | inr c ↦ rw (c, Enforcement.dispose) (λ n a t k h. ground arith)
      ]

  call_as_runs :
      (who : Delegation) (name : String) (given : Dict V) (found : Option (Enforcement.Tool V R W))
      (w : W)
      → AllRuns
          (λ n a t k.
            (tool : Enforcement.Tool V R W) × (found ≡ some tool)
            × (n ≡ name)
            × (a ≡ Enforcement.clean_args py e tool given)
            × (t ≡ who.tenant)
            × (k ≡ (if tool.idempotent then Enforcement.approval_of py e given else none))
            × IsAllowed who name
                (Enforcement.clean_args py e tool given)
                (Enforcement.approval_of py e given)
                (Enforcement.policy_of py e who name
                  (Enforcement.clean_args py e tool given)).decision)
          (Enforcement.call_as py e who name given found w).1
  unfolding Enforcement.call_as
  call_as_runs who name given none w n a t k h = ground arith
  call_as_runs who name given (some tool) w n a t k h =
      let clean = Enforcement.clean_args py e tool given in
      let policy = Enforcement.policy_of py e who name clean in
      let ((f, g, l, m), allowed) =
        dispose_runs who tool name clean (Enforcement.approval_of py e given) policy policy.decision
          w n a t k h in
      (tool, refl, f, g, l, m, allowed)

  call_verified_runs :
      (token name : String) (given : Dict V) (w : W) (v : Tokens.Verified)
      → Tokens.verify e.decode e.settings token none none ≡ v
      → AllRuns
          (λ n a t k. (n ≡ name) × IsAuthorised token name given a t k)
          (Enforcement.call_verified py e v name given w).1
  unfolding Enforcement.call_verified
  call_verified_runs token name given w (Tokens.rejected why) p n a t k h = ground arith
  call_verified_runs token name given w (Tokens.verified who) p n a t k h =
      let (tool, found, f, g, l, m, allowed) =
        call_as_runs who name given (lookup name e.tools) w n a t k h in
      (
        f,
        (
          who,
          tool,
          p,
          found,
          g,
          l,
          m,
          subst
              (λ x.
                IsAllowed who name x (Enforcement.approval_of py e given)
                  (Enforcement.policy_of py e who name x).decision)
              (sym g) allowed,
        ),
      )

  call_with_runs :
      (token : Option String) (name : String) (given : Dict V) (w : W)
      → AllRuns
          (λ n a t k.
            (n ≡ name) × ((p : String) × (token ≡ some p) × IsAuthorised p name given a t k))
          (Enforcement.call_with py e token name given w).1
  unfolding Enforcement.call_with
  call_with_runs none name given w = λ n a t k h. ground arith
  call_with_runs (some token) name given w = elim (Bool-cases (token == "")) [
    | inl c ↦ rw (c, Enforcement.call_with) (λ n a t k h. ground arith)
    | inr c ↦
        rw (c, Enforcement.call_with)
          (λ n a t k h.
            let (f, authorised) =
              call_verified_runs token name given w
                (Tokens.verify e.decode e.settings token none none) refl n a t k h in
            (f, (token, refl, authorised)))
  ]

  -- A handler runs in a call only for the named tool, with a token that was presented and under
  -- `IsAuthorised`; and where workloads must name themselves, only after the workload check admitted
  -- the caller.
  pub handler_runs-IsAuthorised :
      (now : ℕ) (fetch : Option (List String)) (token : Option String) (name : String)
      (given : Dict V) (workload_token : Option String) (cache : Cache) (w : W) (n : String)
      (a : Dict V) (t k : Option String)
      → In
          (Enforcement.handled n a t k)
          (Enforcement.call py e now fetch token name given workload_token cache w).1
      → (n ≡ name)
        × ((p : String) × (token ≡ some p) × IsAuthorised p name given a t k)
        × ((Workload.enabled e.identity now fetch ≡ false)
            ⊎ ((caller : String) × ((Workload.check e.identity now fetch workload_token cache).0
                  ≡ Workload.known caller)))
  unfolding Enforcement.call
  handler_runs-IsAuthorised now fetch token name given workload_token cache w =
      elim (Bool-cases (Workload.enabled e.identity now fetch)) [
        | inr c ↦
            rw (c, Enforcement.call)
              (λ n a t k h.
                let (f, g) = call_with_runs token name given w n a t k h in (f, g, inl refl))
        | inl c ↦ by_check c (Workload.check e.identity now fetch workload_token cache).0 refl
      ]
    where
      by_check :
          Workload.enabled e.identity now fetch ≡ true
          → (found : Workload.Checked)
          → (Workload.check e.identity now fetch workload_token cache).0 ≡ found
          → AllRuns
              (λ n a t k.
                (n ≡ name)
                × ((p : String) × (token ≡ some p) × IsAuthorised p name given a t k)
                × ((Workload.enabled e.identity now fetch ≡ false)
                    ⊎ ((caller : String) × ((Workload.check e.identity now fetch workload_token
                            cache).0
                          ≡ Workload.known caller))))
              (Enforcement.call py e now fetch token name given workload_token cache w).1
      by_check on (Workload.refused why) p =
          rw (on, p, Enforcement.call) (λ n a t k h. ground arith)
      by_check on (Workload.known caller) p =
          rw (on, p, Enforcement.call)
            (λ n a t k h.
              let (f, g) = call_with_runs token name given w n a t k h in
              (f, g, inr (caller, refl)))
