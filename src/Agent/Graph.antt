-- ===== src/Agent/Graph.antt =====
-- app/agent/graph.py: the state of a run, the five nodes and the routers between them. The arguments'
-- values, the results of tools and the world behind the dependencies (the model, the tool server, the
-- approvals service) are parameters; a key that the state may lack has its `.get` default.
pub mod Session
pub mod Cases
pub mod Budget
pub mod Ends
pub mod Repeats
pub mod Stale
mod Tests
use Prim.Native.String.{◌++◌ as ◌⧺◌}
use agent_identity_platform.Common.{
  ℕ, suc, ◌+◌, String, Bool, true, false, ◌&&◌, ◌||◌, not, Option, none, some, List, [], ◌∷◌, ◌++◌,
  ◌==◌, Dict, lookup, insert, select, ltb, get_or, if◌then◌else◌,
}

abbrev pub max_asks : ℕ
max_asks = 2

abbrev pub max_steps : ℕ
max_steps = 3

-- `status` of the state and of a `ToolCallResult`; `unset` while the state has no status.
pub data Status : Type 0 where
  unset ok denied refused error approval_required approved clarification_required : Status

abbrev pub is_ok : Status → Bool
is_ok ok = true
is_ok _ = false

-- The dictionary that `decide` returns. A missing or null tool is "".
pub record Decision (V : Type 0) : Type 0 where
  pub tool : String
  pub args : Dict V
  pub reason : String
  pub clarify : Bool
  pub missing : List String
  pub refused : Bool
  pub refused_tool : String
  pub more : Bool

pub record Observation (V R : Type 0) : Type 0 where
  pub tool : String
  pub args : Dict V
  pub result : R

pub record ToolCallResult (R : Type 0) : Type 0 where
  pub status : Status
  pub result : R
  pub reason : String

-- A call of a dependency raises or returns.
pub data Outcome (A : Type 0) : Type 0 where
  raised : String → Outcome A
  returned : A → Outcome A

pub record AgentState (V R : Type 0) : Type 0 where
  pub task : String
  pub tool : String
  pub args : Dict V
  pub reason : String
  pub status : Status
  pub refused_tool : String
  pub result : R
  pub approval_id : Option String
  pub missing : List String
  pub asks : ℕ
  pub steps : ℕ
  pub observations : List (Observation V R)
  pub more : Bool
  pub final : Bool

-- A human's answer to a pause: an absent `approved` is `False`, absent `values` are none.
pub record Answer (V : Type 0) : Type 0 where
  pub approved : Bool
  pub values : Dict V

pub data Node : Type 0 where
  plan call_tool create_approval await_decision ask_clarification finish : Node

-- `observations[-1]`
abbrev pub last_of {ℓ} : {A : Type ℓ} → List A → Option A
last_of [] = none
last_of (x ∷ []) = some x
last_of (x ∷ y ∷ xs) = last_of (y ∷ xs)

-- `", ".join(names)`
abbrev pub join : List String → String
join [] = ""
join (x ∷ []) = x
join (x ∷ y ∷ xs) = (x ⧺ ", ") ⧺ join (y ∷ xs)

module _ {V : Type 0} where
  -- `{**args, **{k: v for k, v in supplied.items() if v not in (None, "")}}`
  unfoldable pub merge : (V → Bool) → Dict V → Dict V → Dict V
  merge blank args [] = args
  merge blank args ((k, v) ∷ supplied) =
      merge blank (if blank v then args else insert k v args) supplied

  -- `args.get(name) in (None, "")`
  unfoldable pub is_missing : (V → Bool) → Dict V → String → Bool
  is_missing blank args name = elim (lookup name args) [ none ↦ true | some v ↦ blank v ]

module _ {V R : Type 0} where
  unfoldable pub plan_node : Decision V → AgentState V R → AgentState V R
  plan_node d s =
      if d.clarify
      then record s {
        tool = d.tool;
        args = d.args;
        missing = d.missing;
        asks = s.asks;
        status = clarification_required;
        reason = d.reason;
      }
      else if d.tool == ""
      then record s {
        status = if d.refused then refused else error;
        reason = d.reason;
        refused_tool = d.refused_tool;
      }
      else record s {
        tool = d.tool;
        args = d.args;
        reason = d.reason;
        more = d.more;
        final = false;
        approval_id = none;
      }

  -- The call that the model asks for is the one that it made last.
  unfoldable pub is_repeat : (Dict V → Dict V → Bool) → AgentState V R → Bool
  is_repeat args_eq s = elim (last_of s.observations) [
    | none ↦ false
    | some o ↦ o.tool == s.tool && args_eq o.args s.args
  ]

  unfoldable pub repeat_node : AgentState V R → AgentState V R
  repeat_node s = record s {
    status = ok;
    result = elim (last_of s.observations) [ none ↦ s.result | some o ↦ o.result ];
    reason = "the same call was already made — stopping rather than repeating it";
    final = true;
  }

  -- What `call_tool` writes once the dependency has answered.
  unfoldable pub called_node : Outcome (ToolCallResult R) → AgentState V R → AgentState V R
  called_node (raised e) s = record s {
    status = error;
    reason = "tool call failed: " ⧺ e;
    final = true;
  }
  called_node (returned r) s =
      if is_ok r.status
      then record s {
        status = r.status;
        result = r.result;
        reason = r.reason;
        final = not s.more;
        steps = s.steps + 1;
        observations =
            s.observations ++ record { tool = s.tool; args = s.args; result = r.result } ∷ [];
      }
      else record s { status = r.status; result = r.result; reason = r.reason; final = true }

  unfoldable pub created_node : Outcome String → AgentState V R → AgentState V R
  created_node (raised e) s = record s {
    status = error;
    reason = "could not request approval: " ⧺ e;
  }
  created_node (returned id) s = record s { approval_id = some id }

  unfoldable pub decision_node : Answer V → AgentState V R → AgentState V R
  decision_node a s = record s { status = if a.approved then approved else denied }

  unfoldable pub clarification_node : (V → Bool) → Answer V → AgentState V R → AgentState V R
  unfolding merge is_missing
  clarification_node blank a s =
      let args = merge blank s.args a.values in
      let remaining = select (is_missing blank args) s.missing in
      let asks = s.asks + 1 in
      elim remaining [
        | [] ↦ record s { args = args; missing = []; asks = asks }
        | name ∷ names ↦
            if ltb asks max_asks
            then record s { args = args; missing = name ∷ names; asks = asks }
            else record s {
              args = args;
              missing = name ∷ names;
              asks = asks;
              status = refused;
              reason =
                  ((s.tool ⧺ " still needs ") ⧺ join (name ∷ names))
                  ⧺ " after asking — nothing was executed";
            }
      ]

  unfoldable pub after_call : AgentState V R → Node
  after_call s = elim s.status [
    | approval_required ↦ elim s.approval_id [ none ↦ create_approval | some id ↦ await_decision ]
    | _ ↦ if not s.final && ltb s.steps max_steps then plan else finish
  ]

  unfoldable pub after_create : AgentState V R → Node
  after_create s = elim s.status [ error ↦ finish | _ ↦ await_decision ]

  unfoldable pub after_decision : AgentState V R → Node
  after_decision s = elim s.status [ approved ↦ call_tool | _ ↦ finish ]

  unfoldable pub after_plan : AgentState V R → Node
  after_plan s = elim s.status [
    | error ↦ finish
    | refused ↦ finish
    | clarification_required ↦ ask_clarification
    | _ ↦ call_tool
  ]

  unfoldable pub after_clarification : AgentState V R → Node
  after_clarification s = elim s.status [
    | refused ↦ finish
    | _ ↦ elim s.missing [ [] ↦ call_tool | name ∷ names ↦ ask_clarification ]
  ]
