-- ===== src/Agent/Graph/Budget.antt =====
-- The budgets of a run (app/agent/graph.py): steps, questions, approvals, and the end of every run.
use agent_identity_platform.Common.{
  ℕ, suc, ◌+◌, ◌≤◌, String, ◌≡◌, inl, inr, true, false, Option, none, some, List, [], ◌∷◌, arith,
}
use agent_identity_platform.Agent.Graph.{
  Answer, Node, plan, call_tool, create_approval, await_decision, ask_clarification, finish,
  plan_node, repeat_node, called_node, created_node, decision_node, clarification_node, after_call,
  after_create, after_decision, after_plan, after_clarification,
}
use agent_identity_platform.Agent.Graph.Cases.{advance-cases, resume-cases, session_keeps}
use agent_identity_platform.Agent.Graph.Session.{
  Deps, Effect, decided, called, opened, asked, Config, visit_plan, visit_call, visit_create,
  advance, is_stopped, resume, session, start,
}

module _ {V : Type 0} where
  -- How often each effect stands in a log.
  abbrev pub successes : List (Effect V) → ℕ
  successes [] = 0
  successes (called t a i true ∷ log) = suc (successes log)
  successes (_ ∷ log) = successes log

  abbrev pub decisions : List (Effect V) → ℕ
  decisions [] = 0
  decisions (decided ∷ log) = suc (decisions log)
  decisions (_ ∷ log) = decisions log

  abbrev pub approvals : List (Effect V) → ℕ
  approvals [] = 0
  approvals (opened t a i ∷ log) = suc (approvals log)
  approvals (_ ∷ log) = approvals log

  abbrev pub questions : List (Effect V) → ℕ
  questions [] = 0
  questions (asked ∷ log) = suc (questions log)
  questions (_ ∷ log) = questions log

abbrev pub most_steps : Node → ℕ
most_steps finish = 3
most_steps _ = 2

abbrev pub more_decisions : Node → ℕ
more_decisions plan = 0
more_decisions _ = 1

abbrev pub more_questions : Node → ℕ
more_questions plan = 1
more_questions ask_clarification = 1
more_questions _ = 2

-- An approval that the step at hand has opened; at `plan` it belongs to an earlier step.
abbrev pub held : Node → Option String → ℕ
held plan id = 0
held _ none = 0
held _ (some id) = 1

abbrev pub IsFree : Node → Option String → Type 0
IsFree create_approval id = id ≡ none
IsFree _ id = Unit

-- The counters of the state agree with what happened, and leave room for what may follow.
pub record IsBudgeted {V R W : Type 0} (c : Config V R W) : Type 0 where
  pub room : c.state.steps ≤ most_steps c.node
  pub counted : successes c.log ≡ c.state.steps
  pub planned : decisions c.log ≤ c.state.steps + more_decisions c.node
  pub approved_once : approvals c.log ≤ c.state.steps + held c.node c.state.approval_id
  pub free : IsFree c.node c.state.approval_id
  pub questioned : questions c.log ≡ c.state.asks
  pub patient : c.state.asks ≤ c.state.steps + more_questions c.node
  pub few_decisions : decisions c.log ≤ 3
  pub few_approvals : approvals c.log ≤ 3
  pub few_questions : questions c.log ≤ 4

module _ {V R W : Type 0} (deps : Deps V R W) (c : Config V R W) (h : IsBudgeted c) where
  plan-IsBudgeted : c.node ≡ plan → IsBudgeted (visit_plan deps c)
  unfolding visit_plan plan_node after_plan
  plan-IsBudgeted e = ground arith

  call-IsBudgeted : c.node ≡ call_tool → IsBudgeted (visit_call deps c)
  unfolding visit_call repeat_node called_node after_call
  call-IsBudgeted e = ground arith

  create-IsBudgeted : c.node ≡ create_approval → IsBudgeted (visit_create deps c)
  unfolding visit_create created_node after_create
  create-IsBudgeted e = ground arith

  decision-IsBudgeted : (a : Answer V) → c.node ≡ await_decision → IsBudgeted (resume deps a c)
  unfolding resume decision_node after_decision
  decision-IsBudgeted a e = ground arith

  clarification-IsBudgeted :
      (a : Answer V) → c.node ≡ ask_clarification → IsBudgeted (resume deps a c)
  unfolding resume clarification_node after_clarification
  clarification-IsBudgeted a e = ground arith

module _ {V R W : Type 0} (deps : Deps V R W) where
  pub advance-IsBudgeted :
      (c : Config V R W) → is_stopped c.node ≡ false → IsBudgeted c → IsBudgeted (advance deps c)
  advance-IsBudgeted c s h = elim (advance-cases deps c s) [
    | inl (e, q) ↦ rw q (plan-IsBudgeted deps c h e)
    | inr (inl (e, q)) ↦ rw q (call-IsBudgeted deps c h e)
    | inr (inr (e, q)) ↦ rw q (create-IsBudgeted deps c h e)
  ]

  pub resume-IsBudgeted :
      (a : Answer V) (c : Config V R W) → IsBudgeted c → IsBudgeted (resume deps a c)
  resume-IsBudgeted a c h = elim (resume-cases deps a c) [
    | inl e ↦ decision-IsBudgeted deps c h a e
    | inr (inl e) ↦ clarification-IsBudgeted deps c h a e
    | inr (inr q) ↦ rw q h
  ]

most_steps-le :
    {V R W : Type 0} (c : Config V R W) → c.state.steps ≤ most_steps c.node → c.state.steps ≤ 3
most_steps-le c h = ground arith

module _ {V R W : Type 0} (deps : Deps V R W) where
  pub session-IsBudgeted :
      (answers : List (Answer V)) (c : Config V R W)
      → IsBudgeted c
      → IsBudgeted (session deps answers c)
  session-IsBudgeted =
      session_keeps deps IsBudgeted (advance-IsBudgeted deps) (resume-IsBudgeted deps)

  pub start-IsBudgeted :
      (empty : R) (task : String) (w : W) → IsBudgeted (start {V = V} empty task w)
  unfolding start
  start-IsBudgeted empty task w = ground arith

  -- Whatever the model, the tools and the people answer, and however often the run is resumed: at most
  -- three tool calls of a session succeed, and as many as the state counts; the model is asked for at
  -- most four decisions, at most four approvals are opened and at most five questions put.
  pub session_budgets :
      (empty : R) (task : String) (w : W) (answers : List (Answer V))
      → let c = session deps answers (start empty task w) in
        (successes c.log ≡ c.state.steps)
        × (successes c.log ≤ 3)
        × (decisions c.log ≤ 3)
        × (approvals c.log ≤ 3)
        × (questions c.log ≤ 4)
  session_budgets empty task w answers =
      let h = session-IsBudgeted answers (start empty task w) (start-IsBudgeted empty task w) in
      (
        h.counted,
        omega (arith, h.counted, most_steps-le (session deps answers (start empty task w)) h.room),
        h.few_decisions,
        h.few_approvals,
        h.few_questions,
      )
