-- ===== src/Agent/Graph/Ends.antt =====
-- Every run of the graph (app/agent/graph.py) comes to a pause or to its end.
use agent_identity_platform.Common.{
  ℕ, zero, suc, ◌+◌, ◌-◌, ◌*◌, ◌≤◌, ◌<◌, String, ◌≡◌, inl, inr, true, false, List, [], ◌∷◌, arith,
  Bool-cases,
}
use agent_identity_platform.Agent.Graph.{
  Node, Answer, plan, call_tool, create_approval, await_decision, ask_clarification, finish,
  plan_node, repeat_node, called_node, created_node, after_call, after_create, after_plan,
}
use agent_identity_platform.Agent.Graph.Session.{
  Deps, Config, visit_plan, visit_call, visit_create, advance, is_stopped, run, resume, session,
  fuel, start,
}
use agent_identity_platform.Agent.Graph.Cases.{advance-cases, run_keeps}
use agent_identity_platform.Agent.Graph.Budget.{
  IsBudgeted, advance-IsBudgeted, resume-IsBudgeted, start-IsBudgeted,
}

-- How many visits are left at most, from the node and the steps taken.
abbrev rank : Node → ℕ → ℕ
rank plan n = 2 * (3 - n) + 3
rank call_tool n = 2 * (3 - n) + 2
rank create_approval n = 1
rank _ n = 0

module _ {V R W : Type 0} (deps : Deps V R W) where
  plan_falls :
      (c : Config V R W)
      → c.node ≡ plan
      → rank (visit_plan deps c).node (visit_plan deps c).state.steps < rank c.node c.state.steps
  unfolding visit_plan plan_node after_plan
  plan_falls c e = ground arith

  call_falls :
      (c : Config V R W)
      → IsBudgeted c
      → c.node ≡ call_tool
      → rank (visit_call deps c).node (visit_call deps c).state.steps < rank c.node c.state.steps
  unfolding visit_call repeat_node called_node after_call
  call_falls c h e = ground arith

  create_falls :
      (c : Config V R W)
      → c.node ≡ create_approval
      → rank (visit_create deps c).node (visit_create deps c).state.steps
        < rank c.node c.state.steps
  unfolding visit_create created_node after_create
  create_falls c e = ground arith

  advance_falls :
      (c : Config V R W)
      → IsBudgeted c
      → is_stopped c.node ≡ false
      → rank (advance deps c).node (advance deps c).state.steps < rank c.node c.state.steps
  advance_falls c h s = elim (advance-cases deps c s) [
    | inl (e, q) ↦ rw q (plan_falls c e)
    | inr (inl (e, q)) ↦ rw q (call_falls c h e)
    | inr (inr (e, q)) ↦ rw q (create_falls c e)
  ]

  run_stops :
      (n : ℕ) (c : Config V R W)
      → IsBudgeted c
      → rank c.node c.state.steps ≤ n
      → is_stopped (run deps n c).node ≡ true
  unfolding run
  run_stops zero c h r = ground arith
  run_stops (suc n) c h r = elim (Bool-cases (is_stopped c.node)) [
    | inl s ↦ rw (s, run) s
    | inr s ↦
        rw (s, run)
          (run_stops n (advance deps c) (advance-IsBudgeted deps c s h)
            (omega (arith, advance_falls c h s)))
  ]

  rank-le-fuel : (n : Node) (k : ℕ) → rank n k ≤ fuel
  rank-le-fuel plan k = omega arith
  rank-le-fuel call_tool k = omega arith
  rank-le-fuel create_approval k = omega arith
  rank-le-fuel await_decision k = omega arith
  rank-le-fuel ask_clarification k = omega arith
  rank-le-fuel finish k = omega arith

  session_stops_from :
      (answers : List (Answer V)) (c : Config V R W)
      → IsBudgeted c
      → is_stopped (session deps answers c).node ≡ true
  unfolding session
  session_stops_from [] c h = run_stops fuel c h (rank-le-fuel c.node c.state.steps)
  session_stops_from (a ∷ answers) c h =
      session_stops_from answers (resume deps a (run deps fuel c)) (
        resume-IsBudgeted deps a (run deps fuel c)
          (run_keeps deps IsBudgeted (advance-IsBudgeted deps) (resume-IsBudgeted deps) fuel c h))

  -- The fuel is enough: after the first run and after every resume the graph has come to a pause for a
  -- person or to its end, whatever the model, the tools and the people answer.
  pub session_stops :
      (empty : R) (task : String) (w : W) (answers : List (Answer V))
      → is_stopped (session deps answers (start empty task w)).node ≡ true
  session_stops empty task w answers =
      session_stops_from answers (start empty task w) (start-IsBudgeted deps empty task w)
