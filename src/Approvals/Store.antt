-- ===== src/Approvals/Store.antt =====
-- `Approval` and `ApprovalStore` of app/approvals/store.py. The identifier drawn by `uuid4` and the
-- reading of the clock are arguments; `None` is `none`.
use agent_identity_platform.Common.{
  ℕ, String, Bool, true, false, ◌&&◌, ◌||◌, not, Option, none, some, List, ◌==◌, Dict, lookup,
  insert, values, select, length, if◌then◌else◌,
}
use agent_identity_platform.Approvals.Args.{normalize, dict_eq}

pub data Status : Type 0 where
  pending approved denied : Status

abbrev pub is_pending : Status → Bool
is_pending pending = true
is_pending _ = false

abbrev pub is_approved : Status → Bool
is_approved approved = true
is_approved _ = false

pub record Approval (V : Type 0) : Type 0 where
  pub id : String
  pub tool : String
  pub args : Dict V
  pub user : String
  pub agent : String
  pub reason : String
  pub tenant : String
  pub status : Status
  pub approver : Option String
  pub note : Option String
  pub created_at : ℕ
  pub decided_at : Option ℕ

-- The keyword arguments of `create`.
pub record Request (V : Type 0) : Type 0 where
  pub tool : String
  pub args : Dict V
  pub user : String
  pub agent : String
  pub reason : String
  pub tenant : String

-- The keyword arguments of `verify`.
pub record Claim (V : Type 0) : Type 0 where
  pub tool : String
  pub args : Dict V
  pub user : String
  pub agent : String
  pub tenant : String

-- The keyword arguments of `decide`, with the time of the call.
pub record Verdict : Type 0 where
  pub approver : String
  pub approved : Bool
  pub note : Option String
  pub tenant : String
  pub now : ℕ

abbrev pub Items : Type 0 → Type 0
Items V = Dict (Approval V)

module _ {V : Type 0} where
  -- The `Approval(...)` that both backends build.
  unfoldable pub new_approval : String → ℕ → Request V → Approval V
  new_approval id now r = record {
    id = id;
    tool = r.tool;
    args = normalize r.args;
    user = r.user;
    agent = r.agent;
    reason = r.reason;
    tenant = r.tenant;
    status = pending;
    approver = none;
    note = none;
    created_at = now;
    decided_at = none;
  }

  unfoldable pub create : String → ℕ → Request V → Items V → Approval V × Items V
  unfolding new_approval
  create id now r items = (new_approval id now r, insert id (new_approval id now r) items)

  unfoldable pub get : String → String → Items V → Option (Approval V)
  get id tenant items = elim (lookup id items) [
    | none ↦ none
    | some a ↦ if a.tenant == tenant then some a else none
  ]

  unfoldable pub pending_of : String → Items V → List (Approval V)
  pending_of tenant items = select (λ a. is_pending a.status && a.tenant == tenant) (values items)

  unfoldable pub pending_count : Items V → ℕ
  pending_count items = length (select (λ a. is_pending a.status) (values items))

  unfoldable pub all_of : String → Items V → List (Approval V)
  all_of tenant items = select (λ a. a.tenant == tenant) (values items)

  -- The four assignments of `decide`.
  unfoldable pub settled : Verdict → Approval V → Approval V
  settled v a = record a {
    status = if v.approved then approved else denied;
    approver = some v.approver;
    note = v.note;
    decided_at = some v.now;
  }

  unfoldable pub decide : String → Verdict → Items V → Option (Approval V) × Items V
  unfolding settled
  decide id v items = elim (lookup id items) [
    | none ↦ (none, items)
    | some a ↦
        if not (is_pending a.status) || not (a.tenant == v.tenant)
        then (none, items)
        else if v.approver == a.user
        then (none, items)
        else (some (settled v a), insert id (settled v a) items)
  ]

  -- The comparison at the end of both `verify` methods.
  unfoldable pub is_exact : (V → V → Bool) → Claim V → Approval V → Bool
  is_exact eqv c a =
      a.tool == c.tool
      && dict_eq eqv a.args (normalize c.args)
      && a.user == c.user
      && a.agent == c.agent

  unfoldable pub verify : (V → V → Bool) → String → Claim V → Items V → Bool
  verify eqv id c items = elim (lookup id items) [
    | none ↦ false
    | some a ↦
        if not (is_approved a.status) || not (a.tenant == c.tenant) then false else is_exact eqv c a
  ]
