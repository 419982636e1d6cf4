-- ===== src/Agent/Llm.antt =====
-- app/agent/llm.py: the decision from the model's reply. The call over the network with its prompt, the
-- JSON parser, the regular expressions and `float` are the parameters of `Model`.
pub mod Safety
mod Tests
use Prim.Native.String.{◌++◌ as ◌⧺◌}
use agent_identity_platform.Common.{
  String, Bool, true, false, ◌&&◌, ◌||◌, Option, none, some, List, [], ◌∷◌, ◌++◌, ◌==◌, Dict,
  lookup, insert, is_some, if◌then◌else◌,
}
use agent_identity_platform.Common.Values.{Values, blank, coerce_args}
use agent_identity_platform.Agent.Graph.{Decision, Observation, join}
use agent_identity_platform.Agent.Guardrails.{Schema, check_decision, resolve_identifiers}

-- How `_chat` ends: AgentRevoked, another exception, or the text of the reply.
pub data Reply : Type 0 where
  agent_revoked : String → Reply
  failed : String → Reply
  content : String → Reply

-- `decision.get("tool")`: falsy, a text, or something else.
pub data Chosen : Type 0 where
  nothing : Chosen
  named : String → Chosen
  other : Chosen

-- What `json.loads` gives, as far as it is read. `args` is none when `dict(...)` of it raises.
pub record Proposal (V : Type 0) : Type 0 where
  pub tool : Chosen
  pub args : Option (Dict V)
  pub reason : String
  pub more : Bool

pub data Parsed (V : Type 0) : Type 0 where
  not_json : Parsed V
  not_object : Parsed V
  object : Proposal V → Parsed V

-- The first letter of an identifier, "o", "c" or "t".
pub data Letter : Type 0 where
  order customer ticket : Letter

-- The causes of a decision without a tool.
pub data Cause : Type 0 where
  revoked unreachable unparseable unusable : Cause

-- The audit events of this module.
pub data Note : Type 0 where
  fallen_back : Cause → Note
  identifier_invented : String → List String → Note
  invalid_tool : Chosen → Note

-- A decision, its "cause", and the events that were recorded.
pub record Made (V : Type 0) : Type 0 where
  pub decision : Decision V
  pub cause : Option Cause
  pub notes : List Note

pub record Model (V R : Type 0) : Type 0 where
  pub chat : String → Dict Schema → Dict Schema → List (Observation V R) → Reply
  pub parse : String → Parsed V
  -- `_ID_TOKEN.search` and `_ID_TOKEN.findall`
  pub search_id : String → Option (Letter × String)
  pub find_ids : String → List String
  -- `float` of the first number of the text
  pub search_amount : String → Option V
  -- `json.dumps(obs, sort_keys=True)`
  pub dumps : Observation V R → String

unfoldable pub id_key : Letter → String
id_key order = "order_id"
id_key customer = "customer_id"
id_key ticket = "ticket_id"

module _ {V R : Type 0} (py : Values V) (model : Model V R) where
  unfoldable pub extract_args : String → Dict V
  unfolding id_key
  extract_args task =
      (elim (model.search_id task) [ none ↦ [] | some (l, id) ↦ (id_key l, py.text id) ∷ [] ])
      ++ (elim (model.search_amount task) [ none ↦ [] | some v ↦ ("amount", v) ∷ [] ])

  -- `args.get(key) in (None, "", 0)`
  unfoldable pub has_gap : Dict V → String → Bool
  has_gap args key = elim (lookup key args) [ none ↦ true | some v ↦ blank py v || py.is_zero v ]

  -- The loop of `_fill_gaps` over the extracted arguments.
  unfoldable pub fill : Dict (Option String) → Dict V → Dict V → Dict V
  unfolding has_gap
  fill properties [] args = args
  fill properties ((key, value) ∷ extracted) args =
      fill properties extracted (
        if is_some (lookup key properties) && has_gap args key then insert key value args else args)

  unfoldable pub fill_gaps : Schema → Dict V → String → Dict V
  unfolding fill extract_args
  fill_gaps tool args task =
      coerce_args py tool.properties (fill tool.properties (extract_args task) args)

  unfoldable pub seen_identifiers : String → List (Observation V R) → List String
  seen_identifiers task [] = model.find_ids task
  seen_identifiers task (o ∷ os) = model.find_ids (model.dumps o) ++ seen_identifiers task os

  unfoldable pub declined : String → Bool → String → Decision V
  declined reason refused refused_tool = record {
    tool = "";
    args = [];
    reason = reason;
    clarify = false;
    missing = [];
    refused = refused;
    refused_tool = refused_tool;
    more = false;
  }

  unfoldable pub no_tool : Option (Decision V) → String → Cause → List Note → Made V
  unfolding declined
  no_tool none reason cause notes = record {
    decision = declined reason false "";
    cause = some cause;
    notes = notes;
  }
  no_tool (some fallback) reason cause notes = record {
    decision = fallback;
    cause = none;
    notes = notes;
  }

  unfoldable pub unusable_tool : Option (Decision V) → Note → Made V
  unfolding no_tool
  unusable_tool fallback note =
      no_tool fallback "the model did not choose a usable tool — nothing was executed" unusable
        (note ∷ [])

  -- The decision on a tool, with its resolved arguments.
  unfoldable pub settle_call : Schema → Dict V → String → Bool → List String → Decision V
  settle_call tool args reason more [] = record {
    tool = tool.name;
    args = args;
    reason = reason;
    clarify = false;
    missing = [];
    refused = false;
    refused_tool = "";
    more = more;
  }
  settle_call tool args reason more (name ∷ names) = record {
    tool = tool.name;
    args = args;
    reason = tool.name ⧺ " needs " ⧺ join (name ∷ names);
    clarify = true;
    missing = name ∷ names;
    refused = false;
    refused_tool = "";
    more = false;
  }

  -- The case `chosen in tools`.
  unfoldable pub use_tool :
      String
      → List (Observation V R)
      → Option (Decision V)
      → Schema
      → Option (Dict V)
      → String
      → Bool
      → Made V
  unfolding unusable_tool settle_call fill_gaps seen_identifiers extract_args
  use_tool task observations fallback tool none reason more =
      unusable_tool fallback (fallen_back unusable)
  use_tool task observations fallback tool (some given) reason more =
      let (args, invented) =
        resolve_identifiers py tool (fill_gaps tool given task) (seen_identifiers task observations)
          (extract_args task) in
      record {
        decision = settle_call tool args reason more (check_decision py tool args);
        cause = none;
        notes = elim invented [ [] ↦ [] | i ∷ is ↦ identifier_invented tool.name (i ∷ is) ∷ [] ];
      }

  -- The part of `decide_tool` on a parsed reply that names `tool`.
  unfoldable pub choose :
      String
      → Dict Schema
      → Dict Schema
      → Option (Decision V)
      → List (Observation V R)
      → Chosen
      → Proposal V
      → Made V
  unfolding unusable_tool use_tool declined
  choose task tools unavailable fallback observations nothing proposal = record {
    decision = declined "no tool your role may call fits this task — nothing was executed" true "";
    cause = none;
    notes = [];
  }
  choose task tools unavailable fallback observations other proposal =
      unusable_tool fallback (invalid_tool other)
  choose task tools unavailable fallback observations (named chosen) proposal =
      if is_some (lookup chosen unavailable)
      then record {
        decision = declined ("your role may not call " ⧺ chosen) true chosen;
        cause = none;
        notes = [];
      }
      else elim (lookup chosen tools) [
        | none ↦ unusable_tool fallback (invalid_tool (named chosen))
        | some tool ↦
            use_tool task observations fallback tool proposal.args proposal.reason proposal.more
      ]

  unfoldable pub decide_tool :
      String → Dict Schema → Dict Schema → Option (Decision V) → List (Observation V R) → Made V
  unfolding no_tool unusable_tool choose
  decide_tool task tools unavailable fallback observations =
      elim (model.chat task tools unavailable observations) [
        | agent_revoked text ↦
            no_tool fallback "this agent has been revoked — nothing was executed" revoked
              (fallen_back revoked ∷ [])
        | failed text ↦
            no_tool fallback "the model could not be reached — nothing was executed" unreachable
              (fallen_back unreachable ∷ [])
        | content text ↦ elim (model.parse text) [
          | not_json ↦
              no_tool fallback "the model's reply could not be understood — nothing was executed"
                unparseable (fallen_back unparseable ∷ [])
          | not_object ↦ unusable_tool fallback (fallen_back unusable)
          | object proposal ↦
              choose task tools unavailable fallback observations proposal.tool proposal
        ]
      ]
