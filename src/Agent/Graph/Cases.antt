-- ===== src/Agent/Graph/Cases.antt =====
-- Case lemmas on one visit of a node (app/agent/graph.py), and the rules by which what every visit keeps
-- holds after a run and after a session.
use agent_identity_platform.Common.{
  ℕ, zero, suc, ◌≡◌, refl, ◌⊎◌, inl, inr, false, List, [], ◌∷◌, arith, Bool-cases,
}
use agent_identity_platform.Agent.Graph.{
  Answer, Node, plan, call_tool, create_approval, await_decision, ask_clarification, finish,
}
use agent_identity_platform.Agent.Graph.Session.{
  Deps, Config, visit_plan, visit_call, visit_create, advance, is_stopped, run, resume, session,
  fuel,
}

module _ {V R W : Type 0} (deps : Deps V R W) where
  pub advance_plan : (c : Config V R W) → c.node ≡ plan → advance deps c ≡ visit_plan deps c
  unfolding advance
  advance_plan c e = ground arith

  pub advance_call : (c : Config V R W) → c.node ≡ call_tool → advance deps c ≡ visit_call deps c
  unfolding advance
  advance_call c e = ground arith

  pub advance_create :
      (c : Config V R W) → c.node ≡ create_approval → advance deps c ≡ visit_create deps c
  unfolding advance
  advance_create c e = ground arith

  -- Which visit a step that is not stopped makes.
  pub advance-cases :
      (c : Config V R W)
      → is_stopped c.node ≡ false
      → ((c.node ≡ plan) × (advance deps c ≡ visit_plan deps c))
        ⊎ (((c.node ≡ call_tool) × (advance deps c ≡ visit_call deps c))
            ⊎ ((c.node ≡ create_approval) × (advance deps c ≡ visit_create deps c)))
  advance-cases c s = by_node c.node refl
    where
      by_node :
          (n : Node)
          → c.node ≡ n
          → ((c.node ≡ plan) × (advance deps c ≡ visit_plan deps c))
            ⊎ (((c.node ≡ call_tool) × (advance deps c ≡ visit_call deps c))
                ⊎ ((c.node ≡ create_approval) × (advance deps c ≡ visit_create deps c)))
      by_node plan e = inl (e, advance_plan c e)
      by_node call_tool e = inr (inl (e, advance_call c e))
      by_node create_approval e = inr (inr (e, advance_create c e))
      by_node await_decision e = absurd (ground arith)
      by_node ask_clarification e = absurd (ground arith)
      by_node finish e = absurd (ground arith)

  pub resume-cases :
      (a : Answer V) (c : Config V R W)
      → (c.node ≡ await_decision) ⊎ ((c.node ≡ ask_clarification) ⊎ (resume deps a c ≡ c))
  unfolding resume
  resume-cases a c = by_node c.node refl
    where
      by_node :
          (n : Node)
          → c.node ≡ n
          → (c.node ≡ await_decision) ⊎ ((c.node ≡ ask_clarification) ⊎ (resume deps a c ≡ c))
      by_node await_decision e = inl e
      by_node ask_clarification e = inr (inl e)
      by_node plan e = inr (inr (ground arith))
      by_node call_tool e = inr (inr (ground arith))
      by_node create_approval e = inr (inr (ground arith))
      by_node finish e = inr (inr (ground arith))

-- What every visit and every resume keeps holds after a run and after a session.
module _ {V R W : Type 0} (deps : Deps V R W) (P : Config V R W → Type 0)
    (on_advance : (c : Config V R W) → is_stopped c.node ≡ false → P c → P (advance deps c))
    (on_resume : (a : Answer V) (c : Config V R W) → P c → P (resume deps a c)) where
  pub run_keeps : (n : ℕ) (c : Config V R W) → P c → P (run deps n c)
  unfolding run
  run_keeps zero c h = h
  run_keeps (suc n) c h = elim (Bool-cases (is_stopped c.node)) [
    | inl s ↦ rw (s, run) h
    | inr s ↦ rw (s, run) (run_keeps n (advance deps c) (on_advance c s h))
  ]

  pub session_keeps :
      (answers : List (Answer V)) (c : Config V R W) → P c → P (session deps answers c)
  unfolding session
  session_keeps [] c h = run_keeps fuel c h
  session_keeps (a ∷ answers) c h =
      session_keeps answers (resume deps a (run deps fuel c))
        (on_resume a (run deps fuel c) (run_keeps fuel c h))
