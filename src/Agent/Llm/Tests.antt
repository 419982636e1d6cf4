-- ===== src/Agent/Llm/Tests.antt =====
-- Decisions at concrete inputs (app/agent/llm.py, app/agent/guardrails.py).
use agent_identity_platform.Common.{
  ℕ, ◌≡◌, refl, false, none, some, [], ◌∷◌, Dict, lookup, inl, arith, ap, ◌==◌,
}
use agent_identity_platform.Common.Sample.{Json, label, number, json, refund_properties}
use agent_identity_platform.Common.Values.{lacks, blank, coerce_args}
use agent_identity_platform.Agent.Guardrails.{
  Schema, resolve_identifiers, identifier_args, ends_with, check_decision,
}
use agent_identity_platform.Agent.Guardrails.Identifiers.{IsKnown, resolve_identifiers-IsKnown}
use agent_identity_platform.Agent.Llm
use agent_identity_platform.Agent.Llm.{Model}
use agent_identity_platform.Agent.Llm.Safety.{IsUsable, decide_tool-IsUsable}

abbrev refund : Schema
refund = record {
  name = "refunds.issue";
  description = "Issue a refund";
  properties = refund_properties;
  required = "order_id" ∷ "amount" ∷ [];
}

abbrev offered : Dict Schema
offered = ("refunds.issue", refund) ∷ []

-- The model invents an order; the task names another one.
abbrev model : Model Json ℕ
model = record {
  chat = λ task tools unavailable observations. Llm.content "reply";
  parse = λ reply. Llm.object (record {
    tool = Llm.named "refunds.issue";
    args = some (("order_id", label "o-9999") ∷ ("amount", label "200") ∷ []);
    reason = "refund";
    more = false;
  });
  search_id = λ task. some (Llm.order, "o-1001");
  find_ids = λ t. "o-1001" ∷ [];
  search_amount = λ task. none;
  dumps = λ o. "{}";
}

corrected :
    (Llm.decide_tool json model "refund o-1001" offered [] none []).decision.args
    ≡ ("order_id", label "o-1001") ∷ ("amount", number 200) ∷ []
unfolding Llm.decide_tool Llm.choose Llm.use_tool Llm.fill_gaps resolve_identifiers ends_with
    check_decision Llm.settle_call lacks identifier_args coerce_args blank
corrected = refl

noted :
    (Llm.decide_tool json model "refund o-1001" offered [] none []).notes
    ≡ Llm.identifier_invented "refunds.issue" ("order_id" ∷ []) ∷ []
unfolding Llm.decide_tool Llm.choose Llm.use_tool Llm.fill_gaps resolve_identifiers ends_with
    check_decision Llm.settle_call lacks identifier_args coerce_args blank
noted = refl

forbidden :
    (Llm.decide_tool json model "refund o-1001" [] offered none []).decision.refused_tool
    ≡ "refunds.issue"
unfolding Llm.decide_tool Llm.choose Llm.declined
forbidden = refl

decide_tool-IsUsable_example :
    IsUsable json model "refund o-1001" offered [] []
      (Llm.decide_tool json model "refund o-1001" offered [] none []).decision
unfolding Llm.decide_tool Llm.choose Llm.use_tool Llm.fill_gaps resolve_identifiers ends_with
    check_decision Llm.settle_call lacks identifier_args coerce_args blank
decide_tool-IsUsable_example =
    decide_tool-IsUsable json model "refund o-1001" offered [] []
      (λ p. ground (arith, ap (λ s. s == "") p))

resolve_identifiers-IsKnown_example : IsKnown json ("o-1001" ∷ []) [] "order_id" (
    lookup "order_id"
      (resolve_identifiers json refund (("order_id", label "o-9999") ∷ []) ("o-1001" ∷ []) []).0)
unfolding resolve_identifiers ends_with identifier_args
resolve_identifiers-IsKnown_example =
    resolve_identifiers-IsKnown json ("o-1001" ∷ []) [] refund (("order_id", label "o-9999") ∷ [])
      "order_id" (inl refl)
