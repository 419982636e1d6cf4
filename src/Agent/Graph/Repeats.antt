-- ===== src/Agent/Graph/Repeats.antt =====
-- The observations of a run (app/agent/graph.py): one for each step, and no step repeats the one
-- before it.
use agent_identity_platform.Common.{
  String, ◌≡◌, refl, inl, inr, Bool, false, ◌&&◌, some, List, [], ◌∷◌, ◌++◌, arith, Dict, ◌==◌,
  length, length-append, Bool-cases,
}
use agent_identity_platform.Agent.Graph.{
  Observation, Answer, Outcome, raised, returned, ToolCallResult, AgentState, plan_node,
  repeat_node, called_node, created_node, decision_node, clarification_node, is_repeat, is_ok,
  last_of,
}
use agent_identity_platform.Agent.Graph.Cases.{advance-cases, session_keeps}
use agent_identity_platform.Agent.Graph.Session.{
  Deps, Config, visit_plan, visit_call, visit_create, advance, is_stopped, resume, session, start,
}

module _ {V R : Type 0} (args_eq : Dict V → Dict V → Bool) where
  -- The same tool with equal arguments.
  abbrev pub is_same : Observation V R → Observation V R → Bool
  is_same o p = o.tool == p.tool && args_eq o.args p.args

  abbrev pub NoRepeat : List (Observation V R) → Type 0
  NoRepeat [] = Unit
  NoRepeat (o ∷ []) = Unit
  NoRepeat (o ∷ p ∷ xs) = (is_same o p ≡ false) × NoRepeat (p ∷ xs)

  -- The last of a list differs from a new one.
  abbrev IsNew : List (Observation V R) → Observation V R → Type 0
  IsNew [] p = Unit
  IsNew (o ∷ []) p = is_same o p ≡ false
  IsNew (o ∷ q ∷ xs) p = IsNew (q ∷ xs) p

  NoRepeat-append :
      (xs : List (Observation V R)) (p : Observation V R)
      → NoRepeat xs
      → IsNew xs p
      → NoRepeat (xs ++ p ∷ [])
  NoRepeat-append [] p h n = tt
  NoRepeat-append (o ∷ []) p h n = (n, tt)
  NoRepeat-append (o ∷ q ∷ xs) p h n = (h.0, NoRepeat-append (q ∷ xs) p h.1 n)

  IsNew-of_last :
      (xs : List (Observation V R)) (p : Observation V R)
      → ((o : Observation V R) → last_of xs ≡ some o → is_same o p ≡ false)
      → IsNew xs p
  IsNew-of_last [] p h = tt
  IsNew-of_last (o ∷ []) p h = h o refl
  IsNew-of_last (o ∷ q ∷ xs) p h = IsNew-of_last (q ∷ xs) p h

  IsNew-of_state :
      (s : AgentState V R) (r : R)
      → is_repeat args_eq s ≡ false
      → IsNew s.observations (record { tool = s.tool; args = s.args; result = r })
  unfolding is_repeat
  IsNew-of_state s r h =
      IsNew-of_last s.observations (record { tool = s.tool; args = s.args; result = r })
        (λ o e. ground arith)

  -- One observation for each step, and no two adjacent ones for the same call.
  abbrev pub IsProgress : AgentState V R → Type 0
  IsProgress s = (length s.observations ≡ s.steps) × NoRepeat s.observations

  called-IsProgress :
      (o : Outcome (ToolCallResult R)) (s : AgentState V R)
      → is_repeat args_eq s ≡ false
      → IsProgress s
      → IsProgress (called_node o s)
  unfolding called_node
  called-IsProgress (raised e) s n h = h
  called-IsProgress (returned r) s n h =
      let p : Observation V R = record { tool = s.tool; args = s.args; result = r.result } in
      let grown = NoRepeat-append s.observations p h.1 (IsNew-of_state s r.result n) in
      elim (Bool-cases (is_ok r.status)) [
        | inl e ↦ rw e (omega (arith, length-append s.observations (p ∷ []), h.0), grown)
        | inr e ↦ rw e h
      ]

  IsProgress-eq :
      (s t : AgentState V R)
      → t.observations ≡ s.observations
      → t.steps ≡ s.steps
      → IsProgress s
      → IsProgress t
  IsProgress-eq s t e n h = rw (e, n) h

module _ {V R W : Type 0} (deps : Deps V R W) where
  abbrev Progresses : Config V R W → Type 0
  Progresses c = IsProgress deps.args_eq c.state

  call-Progresses : (c : Config V R W) → Progresses c → Progresses (visit_call deps c)
  unfolding visit_call repeat_node
  call-Progresses c h = elim (Bool-cases (is_repeat deps.args_eq c.state)) [
    | inl e ↦ rw e h
    | inr e ↦ rw e (
        called-IsProgress deps.args_eq
          (deps.call c.state.tool c.state.args c.state.approval_id c.world).0 c.state e h)
  ]

  plan-Progresses : (c : Config V R W) → Progresses c → Progresses (visit_plan deps c)
  unfolding visit_plan plan_node
  plan-Progresses c =
      IsProgress-eq deps.args_eq c.state (visit_plan deps c).state (ground arith) (ground arith)

  create-Progresses : (c : Config V R W) → Progresses c → Progresses (visit_create deps c)
  unfolding visit_create created_node
  create-Progresses c =
      IsProgress-eq deps.args_eq c.state (visit_create deps c).state (ground arith) (ground arith)

  resume-Progresses :
      (a : Answer V) (c : Config V R W) → Progresses c → Progresses (resume deps a c)
  unfolding resume decision_node clarification_node
  resume-Progresses a c =
      IsProgress-eq deps.args_eq c.state (resume deps a c).state (ground arith) (ground arith)

  advance-Progresses :
      (c : Config V R W) → is_stopped c.node ≡ false → Progresses c → Progresses (advance deps c)
  advance-Progresses c s h = elim (advance-cases deps c s) [
    | inl (e, q) ↦ rw q (plan-Progresses c h)
    | inr (inl (e, q)) ↦ rw q (call-Progresses c h)
    | inr (inr (e, q)) ↦ rw q (create-Progresses c h)
  ]

  -- In every session the state holds one observation for each step, and no observation is of the same
  -- tool with equal arguments as the one before it.
  pub session-IsProgress :
      (empty : R) (task : String) (w : W) (answers : List (Answer V))
      → IsProgress deps.args_eq (session deps answers (start empty task w)).state
  unfolding start
  session-IsProgress empty task w answers =
      session_keeps deps Progresses advance-Progresses resume-Progresses answers
        (start empty task w) (refl, tt)
