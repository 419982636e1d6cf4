-- ===== src/Agent/Graph/Stale.antt =====
-- Approvals in the graph (app/agent/graph.py): which calls carry one, and where an old one stays.
use agent_identity_platform.Common.{
  String, ◌≡◌, ◌∙◌, inl, inr, true, false, Option, none, some, List, [], ◌∷◌, arith, Dict, select,
  In,
}
use agent_identity_platform.Agent.Graph.{
  Observation, Answer, Node, Status, clarification_required, plan, call_tool, create_approval,
  ask_clarification, finish, plan_node, repeat_node, called_node, created_node, decision_node,
  clarification_node, after_call, after_create, after_decision, after_plan, after_clarification,
  is_missing, merge,
}
use agent_identity_platform.Agent.Graph.Cases.{advance-cases, session_keeps}
use agent_identity_platform.Agent.Graph.Session.{
  Deps, Effect, called, opened, Config, visit_plan, visit_call, visit_create, advance, is_stopped,
  resume, session, start,
}

module _ {V : Type 0} where
  -- Every call with an approval comes after the opening of that approval for that very call.
  abbrev pub IsBacked : List (Effect V) → Type 0
  IsBacked [] = Unit
  IsBacked (called tool args (some id) b ∷ log) = In (opened tool args id) log × IsBacked log
  IsBacked (_ ∷ log) = IsBacked log

  -- The approval in the state, if any, was opened for the tool and the arguments in the state.
  abbrev Holds : Option String → String → Dict V → List (Effect V) → Type 0
  Holds none tool args log = Unit
  Holds (some id) tool args log = In (opened tool args id) log

abbrev IsFresh : Node → Status → Type 0
IsFresh plan clarification_required = ⊥
IsFresh ask_clarification status = ⊥
IsFresh _ status = Unit

abbrev HoldsAt : {V : Type 0} → Node → Option String → String → Dict V → List (Effect V) → Type 0
HoldsAt plan id tool args log = Unit
HoldsAt finish id tool args log = Unit
HoldsAt _ id tool args log = Holds id tool args log

record IsOwned {V R W : Type 0} (c : Config V R W) : Type 0 where
  backed : IsBacked c.log
  fresh : IsFresh c.node c.state.status
  holds : HoldsAt c.node c.state.approval_id c.state.tool c.state.args c.log

module _ {V R W : Type 0} (deps : Deps V R W)
    (no_questions : (task : String) (obs : List (Observation V R)) (w : W)
      → (deps.decide task obs w).0.clarify ≡ false) where
  plan-IsOwned : (c : Config V R W) → c.node ≡ plan → IsOwned c → IsOwned (visit_plan deps c)
  unfolding visit_plan plan_node after_plan
  plan-IsOwned c e h =
      let n = no_questions c.state.task c.state.observations c.world in
      record { backed = ground arith; fresh = ground arith; holds = ground arith }

  call-IsOwned : (c : Config V R W) → c.node ≡ call_tool → IsOwned c → IsOwned (visit_call deps c)
  unfolding visit_call repeat_node called_node after_call
  call-IsOwned c e h = record { backed = ground arith; fresh = ground arith; holds = ground arith }

  create-IsOwned :
      (c : Config V R W) → c.node ≡ create_approval → IsOwned c → IsOwned (visit_create deps c)
  unfolding visit_create created_node after_create
  create-IsOwned c e h = record {
    backed = ground arith;
    fresh = ground arith;
    holds = ground arith;
  }

  resume-IsOwned : (a : Answer V) (c : Config V R W) → IsOwned c → IsOwned (resume deps a c)
  unfolding resume decision_node after_decision
  resume-IsOwned a c h = record {
    backed = ground arith;
    fresh = ground arith;
    holds = ground arith;
  }

  advance-IsOwned :
      (c : Config V R W) → is_stopped c.node ≡ false → IsOwned c → IsOwned (advance deps c)
  advance-IsOwned c s h = elim (advance-cases deps c s) [
    | inl (e, q) ↦ rw q (plan-IsOwned c e h)
    | inr (inl (e, q)) ↦ rw q (call-IsOwned c e h)
    | inr (inr (e, q)) ↦ rw q (create-IsOwned c e h)
  ]

  start-IsOwned : (empty : R) (task : String) (w : W) → IsOwned (start {V = V} empty task w)
  unfolding start
  start-IsOwned empty task w = record { backed = tt; fresh = tt; holds = tt }

  -- As long as the model never asks for a clarification, every tool call of a session that carries an
  -- approval comes after that approval was opened for the same tool with the same arguments.
  pub session-IsBacked :
      (empty : R) (task : String) (w : W) (answers : List (Answer V))
      → IsBacked (session deps answers (start empty task w)).log
  session-IsBacked empty task w answers =
      (session_keeps deps IsOwned advance-IsOwned resume-IsOwned answers (start empty task w)
        (start-IsOwned empty task w)).backed

module _ {V R W : Type 0} (deps : Deps V R W) where
  clarify-keeps :
      (c : Config V R W)
      → (deps.decide c.state.task c.state.observations c.world).0.clarify ≡ true
      → ((visit_plan deps c).node ≡ ask_clarification)
        × ((visit_plan deps c).state.approval_id ≡ c.state.approval_id)
        × ((visit_plan deps c).state.more ≡ c.state.more)
        × ((visit_plan deps c).state.status ≡ clarification_required)
  unfolding visit_plan plan_node after_plan
  clarify-keeps c h = ground arith

  answered :
      (a : Answer V) (c : Config V R W)
      → c.node ≡ ask_clarification
      → c.state.status ≡ clarification_required
      → select (is_missing deps.blank (merge deps.blank c.state.args a.values)) c.state.missing ≡ []
      → ((resume deps a c).node ≡ call_tool)
        × ((resume deps a c).state.approval_id ≡ c.state.approval_id)
        × ((resume deps a c).state.more ≡ c.state.more)
  unfolding resume clarification_node after_clarification
  answered a c n s h = ground arith

  -- When the model asks for a clarification at a later step and the person supplies all that is missing,
  -- the run goes on to the new tool call with the approval, and with the request for a further step,
  -- that an earlier step left in the state.
  pub clarified_call_is_stale :
      (c : Config V R W) (a : Answer V)
      → (deps.decide c.state.task c.state.observations c.world).0.clarify ≡ true
      → (let s = (visit_plan deps c).state in
          select (is_missing deps.blank (merge deps.blank s.args a.values)) s.missing ≡ [])
      → let next = resume deps a (visit_plan deps c) in
        (next.node ≡ call_tool)
        × (next.state.approval_id ≡ c.state.approval_id)
        × (next.state.more ≡ c.state.more)
  clarified_call_is_stale c a h m =
      let (n, i, k, s) = clarify-keeps c h in
      let (n', i', k') = answered a (visit_plan deps c) n s m in (n', i' ∙ i, k' ∙ k)
