-- ===== src/Agent/Graph/Tests.antt =====
-- Scripted sessions of the graph (app/agent/graph.py), and the theorems at concrete inputs.
use agent_identity_platform.Common.{
  ℕ, ◌≤◌, String, ◌≡◌, refl, Bool, true, false, Option, none, some, List, [], ◌∷◌, eqb,
  if◌then◌else◌,
}
use agent_identity_platform.Agent.Graph.{
  Decision, Observation, ToolCallResult, returned, Answer, ok, approval_required, call_tool,
  plan_node, is_repeat, called_node, created_node, decision_node, after_call, after_create,
  after_decision, after_plan, merge, is_missing,
}
use agent_identity_platform.Agent.Graph.Session.{
  Deps, Config, session, start, run, advance, resume, visit_plan, visit_call, visit_create,
  is_stopped,
}
use agent_identity_platform.Agent.Graph.Budget.{
  successes, decisions, approvals, questions, session_budgets,
}
use agent_identity_platform.Agent.Graph.Ends.{session_stops}
use agent_identity_platform.Agent.Graph.Repeats.{IsProgress, session-IsProgress}
use agent_identity_platform.Agent.Graph.Stale.{IsBacked, session-IsBacked, clarified_call_is_stale}

-- A model that wants a refund of 200, and then, when it has seen a result, a lookup.
first_decision : Decision ℕ
first_decision = record {
  tool = "refunds.issue";
  args = ("amount", 200) ∷ [];
  reason = "refund";
  clarify = false;
  missing = [];
  refused = false;
  refused_tool = "";
  more = true;
}

second_decision : Bool → Decision ℕ
second_decision clarify = record {
  tool = "crm.customer.read";
  args = [];
  reason = "look";
  clarify = clarify;
  missing = if clarify then "customer_id" ∷ [] else [];
  refused = false;
  refused_tool = "";
  more = false;
}

called_with : Option String → ToolCallResult ℕ
called_with none = record { status = approval_required; result = 0; reason = "held" }
called_with (some id) = record { status = ok; result = 1; reason = "" }

-- The tool server holds every call without an approval.
deps : Bool → Deps ℕ ℕ (Unit {0})
unfolding first_decision second_decision called_with
deps clarify = record {
  decide = λ task obs w. (elim obs [ [] ↦ first_decision | o ∷ os ↦ second_decision clarify ], tt);
  call = λ tool args id w. (returned (called_with id), tt);
  open_approval = λ tool args reason w. (returned "ap-1", tt);
  blank = λ v. eqb v 0;
  args_eq = λ a b. elim a [ [] ↦ elim b [ [] ↦ true | _ ↦ false ] | _ ↦ false ];
}

abbrev granted : Answer ℕ
granted = record { approved = true; values = [] }

abbrev supplied : Answer ℕ
supplied = record { approved = false; values = ("customer_id", 100) ∷ [] }

abbrev begun : Config ℕ ℕ (Unit {0})
begun = start 0 "refund and look" tt

two_steps : (session (deps false) (granted ∷ granted ∷ []) begun).state.steps ≡ 2
unfolding deps session start run advance resume visit_plan visit_call visit_create plan_node
    is_repeat called_node created_node decision_node after_call after_create after_decision
    after_plan
two_steps = refl

session_budgets_example :
    let c = session (deps false) (granted ∷ granted ∷ []) begun in
    (successes c.log ≡ c.state.steps)
    × (successes c.log ≤ 3)
    × (decisions c.log ≤ 3)
    × (approvals c.log ≤ 3)
    × (questions c.log ≤ 4)
session_budgets_example =
    session_budgets (deps false) 0 "refund and look" tt (granted ∷ granted ∷ [])

session_stops_example : is_stopped (session (deps false) (granted ∷ []) begun).node ≡ true
session_stops_example = session_stops (deps false) 0 "refund and look" tt (granted ∷ [])

session-IsProgress_example :
    IsProgress (deps false).args_eq (session (deps false) (granted ∷ granted ∷ []) begun).state
session-IsProgress_example =
    session-IsProgress (deps false) 0 "refund and look" tt (granted ∷ granted ∷ [])

never_clarifies :
    (task : String) (obs : List (Observation ℕ ℕ)) (w : Unit {0})
    → ((deps false).decide task obs w).0.clarify ≡ false
unfolding deps
never_clarifies task [] w = refl
never_clarifies task (o ∷ obs) w = refl

session-IsBacked_example : IsBacked (session (deps false) (granted ∷ granted ∷ []) begun).log
session-IsBacked_example =
    session-IsBacked (deps false) never_clarifies 0 "refund and look" tt (granted ∷ granted ∷ [])

-- At its second step, with the approval of the first still in the state.
abbrev second_step : Config ℕ ℕ (Unit {0})
second_step = record begun {
  state = record begun.state {
    approval_id = some "ap-1";
    more = true;
    steps = 1;
    observations = record { tool = "refunds.issue"; args = []; result = 1 } ∷ [];
  };
}

clarified_call_is_stale_example :
    let next = resume (deps true) supplied (visit_plan (deps true) second_step) in
    (next.node ≡ call_tool) × (next.state.approval_id ≡ some "ap-1") × (next.state.more ≡ true)
unfolding deps visit_plan plan_node is_missing merge start
clarified_call_is_stale_example = clarified_call_is_stale (deps true) second_step supplied refl refl
