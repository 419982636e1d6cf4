-- ===== src/Agent/Graph/Session.antt =====
-- Running the compiled graph of app/agent/graph.py: the edges between the nodes, a run up to the next
-- pause, and a session of resumes. The dependencies are a state machine over a world; the log holds
-- what the run did to it, newest first.
use agent_identity_platform.Common.{
  ℕ, zero, suc, String, Bool, true, false, Option, none, List, [], ◌∷◌, Dict, if◌then◌else◌,
}
use agent_identity_platform.Agent.Graph.{
  unset, Decision, Observation, ToolCallResult, Outcome, raised, returned, AgentState, Answer, Node,
  plan, call_tool, create_approval, await_decision, ask_clarification, finish, is_ok, plan_node,
  is_repeat, repeat_node, called_node, created_node, decision_node, clarification_node, after_call,
  after_create, after_decision, after_plan, after_clarification,
}

-- `AgentDeps`, with the two tests on the values of arguments that the graph makes.
pub record Deps (V R W : Type 0) : Type 0 where
  pub decide : String → List (Observation V R) → W → Decision V × W
  pub call : String → Dict V → Option String → W → Outcome (ToolCallResult R) × W
  pub open_approval : String → Dict V → String → W → Outcome String × W
  pub blank : V → Bool
  pub args_eq : Dict V → Dict V → Bool

pub data Effect (V : Type 0) : Type 0 where
  -- A decision of the model.
  decided : Effect V
  -- A call of a tool with an approval or none, and whether it succeeded.
  called : String → Dict V → Option String → Bool → Effect V
  -- A new approval for a tool and its arguments.
  opened : String → Dict V → String → Effect V
  -- A question to the person.
  asked : Effect V

pub record Config (V R W : Type 0) : Type 0 where
  pub node : Node
  pub state : AgentState V R
  pub world : W
  pub log : List (Effect V)

abbrev pub succeeded : {R : Type 0} → (R → Bool) → Outcome R → Bool
succeeded p (raised e) = false
succeeded p (returned r) = p r

abbrev pub opened_by :
    {V : Type 0} → String → Dict V → Outcome String → List (Effect V) → List (Effect V)
opened_by tool args (raised e) log = log
opened_by tool args (returned id) log = opened tool args id ∷ log

-- The run waits for a person, or has ended.
abbrev pub is_stopped : Node → Bool
is_stopped await_decision = true
is_stopped ask_clarification = true
is_stopped finish = true
is_stopped _ = false

-- Enough for every run between two pauses.
abbrev pub fuel : ℕ
fuel = 10

module _ {V R W : Type 0} (deps : Deps V R W) where
  unfoldable pub visit_plan : Config V R W → Config V R W
  visit_plan c =
      let (d, w) = deps.decide c.state.task c.state.observations c.world in
      let s = plan_node d c.state in
      record { node = after_plan s; state = s; world = w; log = decided ∷ c.log }

  unfoldable pub visit_call : Config V R W → Config V R W
  visit_call c =
      if is_repeat deps.args_eq c.state
      then record c { node = after_call (repeat_node c.state); state = repeat_node c.state }
      else let (o, w) = deps.call c.state.tool c.state.args c.state.approval_id c.world in
        let s = called_node o c.state in
        record {
          node = after_call s;
          state = s;
          world = w;
          log =
              called c.state.tool c.state.args c.state.approval_id
                (succeeded (λ r. is_ok r.status) o)
              ∷ c.log;
        }

  unfoldable pub visit_create : Config V R W → Config V R W
  visit_create c =
      let (o, w) = deps.open_approval c.state.tool c.state.args c.state.reason c.world in
      let s = created_node o c.state in
      record {
        node = after_create s;
        state = s;
        world = w;
        log = opened_by c.state.tool c.state.args o c.log;
      }

  -- One node that needs no person; a pause or the end stays.
  unfoldable pub advance : Config V R W → Config V R W
  advance c = elim c.node [
    | plan ↦ visit_plan c
    | call_tool ↦ visit_call c
    | create_approval ↦ visit_create c
    | _ ↦ c
  ]

  -- `agent.invoke` up to the next interrupt.
  unfoldable pub run : ℕ → Config V R W → Config V R W
  run zero c = c
  run (suc fuel) c = elim (is_stopped c.node) [ true ↦ c | false ↦ run fuel (advance c) ]

  -- The interrupted node runs again, with the answer.
  unfoldable pub resume : Answer V → Config V R W → Config V R W
  resume a c = elim c.node [
    | await_decision ↦
        let s = decision_node a c.state in record c { node = after_decision s; state = s }
    | ask_clarification ↦
        let s = clarification_node deps.blank a c.state in
        record c { node = after_clarification s; state = s; log = asked ∷ c.log }
    | _ ↦ c
  ]

  unfoldable pub session : List (Answer V) → Config V R W → Config V R W
  session [] c = run fuel c
  session (a ∷ answers) c = session answers (resume a (run fuel c))

-- `agent.invoke({"task": task})`: the state before START, with the empty result.
unfoldable pub start : {V R W : Type 0} → R → String → W → Config V R W
start empty task w = record {
  node = plan;
  state = record {
    task = task;
    tool = "";
    args = [];
    reason = "";
    status = unset;
    refused_tool = "";
    result = empty;
    approval_id = none;
    missing = [];
    asks = 0;
    steps = 0;
    observations = [];
    more = false;
    final = false;
  };
  world = w;
  log = [];
}
