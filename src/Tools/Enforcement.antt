-- ===== src/Tools/Enforcement.antt =====
-- app/tools/enforcement.py: `ToolEnforcer.call`, with the calls of its collaborators. What a handler does is
-- a state machine over the world W; the effects are the audit lines and the runs of handlers, in order.
pub mod Safety
pub mod Approved
pub mod Scope
use Prim.Native.String.{◌++◌ as ◌⧺◌}
use agent_identity_platform.Common.{
  ℕ, zero, suc, String, Bool, true, false, ◌&&◌, ◌||◌, not, Option, none, some, List, [], ◌∷◌, ◌++◌,
  ◌==◌, Dict, lookup, is_some, get_or, if◌then◌else◌,
}
use agent_identity_platform.Common.Values.{Values, coerce_args}
use agent_identity_platform.Approvals.Store.{Claim}
use agent_identity_platform.Tools.Tokens
use agent_identity_platform.Tools.Tokens.{Delegation}
use agent_identity_platform.Tools.Revocation.{Cache}
use agent_identity_platform.Tools.Workload
use agent_identity_platform.Tools.Policy
use agent_identity_platform.Tools.Policy.{PolicyResult, update}

pub data Outcome : Type 0 where
  ok denied approval_required error : Outcome

pub record ToolResult (R : Type 0) : Type 0 where
  pub outcome : Outcome
  pub tool : String
  pub reason : String
  pub decision : Option String
  pub result : Option R

-- A handler raises, or returns a result with its truthy "error", if it has one.
pub data Handled (R : Type 0) : Type 0 where
  raised : String → Handled R
  returned : R → Option String → Handled R

-- A tool: its handler takes the arguments, the tenant, and the idempotency key if it is idempotent.
pub record Tool (V R W : Type 0) : Type 0 where
  pub name : String
  pub properties : Dict (Option String)
  pub idempotent : Bool
  pub handler : Dict V → Option String → Option String → W → Handled R × W

-- The audit lines with the fields that name who and what, and the runs of handlers.
pub data Effect (V : Type 0) : Type 0 where
  workload_rejected : String → Effect V
  identity_rejected : String → Effect V
  unknown : String → String → Effect V
  audited : String → Delegation → String → String → Effect V
  handled : String → Dict V → Option String → Option String → Effect V

-- The enforcer with its collaborators: tokens, the workload check, the policy server, the approvals
-- client (none when the call raises) and the catalogue.
pub record Enforcer (V R W : Type 0) : Type 0 where
  pub settings : Tokens.Settings
  pub decode : String → String → Tokens.Decoded
  pub identity : Workload.Identity
  pub post : Dict V → Policy.Posted
  pub confirm : String → Claim V → Option Bool
  pub tools : Dict (Tool V R W)
  -- A list of texts as a value, and the texts of the exceptions.
  pub texts : List String → V
  pub workload_text : Workload.WorkloadRejected → String
  pub token_text : Tokens.TokenRejected → String

-- `reason[:200]`
unfoldable pub cut : ℕ → String → String
cut zero s = ""
cut (suc n) String.[] = ""
cut (suc n) (String.◌∷◌ c s) = String.◌∷◌ c (cut n s)

unfoldable pub refusal : {R : Type 0} → Outcome → String → String → Option String → ToolResult R
refusal outcome tool reason decision = record {
  outcome = outcome;
  tool = tool;
  reason = reason;
  decision = decision;
  result = none;
}

module _ {V R W : Type 0} (py : Values V) (e : Enforcer V R W) where
  unfoldable pub clean_args : Tool V R W → Dict V → Dict V
  clean_args tool args = coerce_args py tool.properties args

  -- `str(approval_id)` of a truthy one.
  unfoldable pub approval_of : Dict V → Option String
  approval_of args = elim (lookup "approval_id" args) [
    | none ↦ none
    | some v ↦ if py.truthy v then some (py.str v) else none
  ]

  unfoldable pub claim_of : Delegation → String → Dict V → Claim V
  claim_of who tool args = record {
    tool = tool;
    args = args;
    user = who.user;
    agent = who.workload;
    tenant = get_or who.tenant "";
  }

  -- `ApprovalsClient.verify`: whatever goes wrong is a no.
  unfoldable pub confirmed : Option String → Claim V → Bool
  confirmed none claim = false
  confirmed (some id) claim = get_or (e.confirm id claim) false

  unfoldable pub context_of : Delegation → Dict V → Dict V
  context_of who args =
      update
        (("roles", e.texts who.roles)
          ∷ ("tenant", (elim who.tenant [ none ↦ py.null | some t ↦ py.text t ]))
          ∷ [])
        args

  -- The handler is called with keyword arguments: one that is given twice is a TypeError.
  unfoldable pub collides : Tool V R W → Dict V → Bool
  collides tool args =
      is_some (lookup "tenant" args) || tool.idempotent && is_some (lookup "idempotency_key" args)

  -- What follows the handler: the error line, or the allowed line and that of a reported error.
  unfoldable pub report :
      Delegation → String → PolicyResult → Handled R → ToolResult R × List (Effect V)
  unfolding refusal cut
  report who name policy (raised text) = (
    refusal error name ("tool failed: " ⧺ text) none,
    audited "tool.error" who name (cut 200 text) ∷ [],
  )
  report who name policy (returned r problem) = (
    record {
      outcome = ok;
      tool = name;
      reason = policy.reason;
      decision = some (Policy.decision_value policy.decision);
      result = some r;
    },
    audited "tool.allowed" who name policy.reason ∷ (elim problem [
      | none ↦ []
      | some text ↦ audited "tool.reported_error" who name (cut 200 text) ∷ []
    ]),
  )

  unfoldable pub execute :
      Delegation
      → Tool V R W
      → String
      → Dict V
      → Option String
      → PolicyResult
      → W
      → ToolResult R × List (Effect V) × W
  unfolding collides report
  execute who tool name args id policy w =
      if collides tool args
      then (
        (report who name policy (raised "multiple values for a keyword argument")).0,
        (report who name policy (raised "multiple values for a keyword argument")).1,
        w,
      )
      else let key = if tool.idempotent then id else none in
        let (out, next) = tool.handler args who.tenant key w in
        let (result, lines) = report who name policy out in
        (result, handled name args who.tenant key ∷ lines, next)

  -- The part of `call` on the policy's result.
  unfoldable pub dispose :
      Delegation
      → Tool V R W
      → String
      → Dict V
      → Option String
      → PolicyResult
      → Policy.Decision
      → W
      → ToolResult R × List (Effect V) × W
  unfolding execute refusal claim_of confirmed
  dispose who tool name args id policy Policy.allow w = execute who tool name args id policy w
  dispose who tool name args id policy Policy.deny w = (
    refusal denied name policy.reason (some "deny"),
    audited "tool.denied" who name policy.reason ∷ [],
    w,
  )
  dispose who tool name args id policy Policy.require_approval w =
      if confirmed id (claim_of who name args) then execute who tool name args id policy w else (
        refusal approval_required name policy.reason (some "require_approval"),
        audited "tool.approval_required" who name policy.reason ∷ [],
        w,
      )

  unfoldable pub policy_of : Delegation → String → Dict V → PolicyResult
  unfolding context_of
  policy_of who name args =
      Policy.decide py.text e.post who.workload who.user name (context_of who args)

  -- The part of `call` for a verified delegation.
  unfoldable pub call_as :
      Delegation → String → Dict V → Option (Tool V R W) → W → ToolResult R × List (Effect V) × W
  unfolding refusal dispose clean_args approval_of policy_of
  call_as who name args none w =
      (refusal denied name "unknown tool" none, unknown name who.user ∷ [], w)
  call_as who name args (some tool) w =
      let clean = clean_args tool args in
      let policy = policy_of who name clean in
      dispose who tool name clean (approval_of args) policy policy.decision w

  -- The part of `call` after the token is verified.
  unfoldable pub call_verified :
      Tokens.Verified → String → Dict V → W → ToolResult R × List (Effect V) × W
  unfolding refusal call_as
  call_verified (Tokens.rejected why) name args w = (
    refusal denied name ("identity rejected: " ⧺ e.token_text why) none,
    identity_rejected name ∷ [],
    w,
  )
  call_verified (Tokens.verified who) name args w = call_as who name args (lookup name e.tools) w

  -- The part of `call` after the workload check.
  unfoldable pub call_with :
      Option String → String → Dict V → W → ToolResult R × List (Effect V) × W
  unfolding refusal call_verified
  call_with none name args w = (refusal denied name "no token presented" none, [], w)
  call_with (some token) name args w =
      if token == ""
      then (refusal denied name "no token presented" none, [], w)
      else call_verified (Tokens.verify e.decode e.settings token none none) name args w

  -- `call`, at a time, with what a fetch of the denylist would give then; the denylist's cache is part
  -- of the state.
  unfoldable pub call :
      ℕ
      → Option (List String)
      → Option String
      → String
      → Dict V
      → Option String
      → Cache
      → W
      → ToolResult R × List (Effect V) × W × Cache
  unfolding refusal call_with
  call now fetch token name args workload_token cache w =
      let (result, effects, next) = call_with token name args w in
      if not (Workload.enabled e.identity now fetch)
      then (result, effects, next, cache)
      else let (found, known) = Workload.check e.identity now fetch workload_token cache in
        elim found [
          | Workload.refused why ↦ (
            refusal denied name ("workload identity rejected: " ⧺ e.workload_text why) none,
            workload_rejected name ∷ [],
            w,
            known,
          )
          | Workload.known caller ↦ (result, effects, next, known)
        ]
