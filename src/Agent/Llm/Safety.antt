-- ===== src/Agent/Llm/Safety.antt =====
-- What a decision of `decide_tool` (app/agent/llm.py) guarantees.
use mathlib.Core.Path.{subst}
use agent_identity_platform.Common.{
  ap, ◌∙◌, String, ◌≡◌, ◌≢◌, refl, sym, Bool, false, Option, none, some, List, [], ◌∷◌, arith, Dict,
  lookup, In,
}
use agent_identity_platform.Common.Values.{Values}
use agent_identity_platform.Agent.Graph.{Decision, Observation}
use agent_identity_platform.Agent.Guardrails.{
  Schema, check_decision, identifier_args, resolve_identifiers,
}
use agent_identity_platform.Agent.Guardrails.Identifiers.{IsKnown, resolve_identifiers-IsKnown}
use agent_identity_platform.Agent.Llm

module _ {V R : Type 0} (py : Values V) (model : Llm.Model V R) where
  -- A call of an offered tool: the tool is under a name that the role is offered and not forbidden,
  -- the missing arguments are those that are listed, it is a question just when there are some, and
  -- every required identifier is known.
  abbrev pub IsUsable :
      String → Dict Schema → Dict Schema → List (Observation V R) → Decision V → Type 0
  IsUsable task tools unavailable observations d =
      (chosen : String) × (tool : Schema) × (lookup chosen tools ≡ some tool)
      × (lookup chosen unavailable ≡ none)
      × (d.tool ≡ tool.name)
      × (d.missing ≡ check_decision py tool d.args)
      × ((d.clarify ≡ false) → (d.missing ≡ []))
      × ((name : String)
          → In name (identifier_args tool)
          → IsKnown py (Llm.seen_identifiers py model task observations)
              (Llm.extract_args py model task) name (lookup name d.args))

  settle_call_lem :
      (tool : Schema) (args : Dict V) (reason : String) (more : Bool) (missing : List String)
      → let d = Llm.settle_call py model tool args reason more missing in
        (d.tool ≡ tool.name)
        × (d.args ≡ args)
        × (d.missing ≡ missing)
        × ((d.clarify ≡ false) → (d.missing ≡ []))
  unfolding Llm.settle_call
  settle_call_lem tool args reason more [] = (refl, refl, refl, λ h. refl)
  settle_call_lem tool args reason more (n ∷ ns) = (refl, refl, refl, λ h. ground (arith, h))

  -- A decision without a tool is no counterexample.
  abbrev IsUsableOrNone :
      String → Dict Schema → Dict Schema → List (Observation V R) → Llm.Made V → Type 0
  IsUsableOrNone task tools unavailable observations made =
      made.decision.tool ≢ "" → IsUsable task tools unavailable observations made.decision

  use_tool-IsUsable :
      (task chosen : String) (tools unavailable : Dict Schema)
      (observations : List (Observation V R)) (tool : Schema) (args : Option (Dict V))
      (reason : String) (more : Bool)
      → lookup chosen tools ≡ some tool
      → lookup chosen unavailable ≡ none
      → IsUsableOrNone task tools unavailable observations
          (Llm.use_tool py model task observations none tool args reason more)
  unfolding Llm.use_tool Llm.unusable_tool Llm.no_tool Llm.declined
  use_tool-IsUsable task chosen tools unavailable observations tool none reason more e f ne =
      absurd (ne refl)
  use_tool-IsUsable task chosen tools unavailable observations tool (some given) reason more e f
        ne =
      let seen = Llm.seen_identifiers py model task observations in
      let from_task = Llm.extract_args py model task in
      let args =
        (resolve_identifiers py tool (Llm.fill_gaps py model tool given task) seen from_task).0 in
      let (same_tool, same_args, missing, asks) =
        settle_call_lem tool args reason more (check_decision py tool args) in
      (
        chosen,
        tool,
        e,
        f,
        same_tool,
        missing ∙ ap (check_decision py tool) (sym same_args),
        asks,
        λ name h.
            subst (λ d. IsKnown py seen from_task name (lookup name d)) (sym same_args)
              (resolve_identifiers-IsKnown py seen from_task tool
                (Llm.fill_gaps py model tool given task) name h),
      )

  choose-IsUsable :
      (task : String) (tools unavailable : Dict Schema) (observations : List (Observation V R))
      (chosen : Llm.Chosen) (proposal : Llm.Proposal V)
      → IsUsableOrNone task tools unavailable observations
          (Llm.choose py model task tools unavailable none observations chosen proposal)
  unfolding Llm.choose Llm.unusable_tool Llm.no_tool Llm.declined
  choose-IsUsable task tools unavailable observations Llm.nothing proposal = λ ne. absurd (ne refl)
  choose-IsUsable task tools unavailable observations Llm.other proposal = λ ne. absurd (ne refl)
  choose-IsUsable task tools unavailable observations (Llm.named c) proposal =
      by_lookups (lookup c unavailable) (lookup c tools) refl refl
    where
      by_lookups :
          (u t : Option Schema)
          → lookup c unavailable ≡ u
          → lookup c tools ≡ t
          → IsUsableOrNone task tools unavailable observations
              (Llm.choose py model task tools unavailable none observations (Llm.named c) proposal)
      by_lookups (some x) t p q = rw (p, Llm.choose) (λ ne. absurd (ne refl))
      by_lookups none none p q = rw (p, q, Llm.choose) (λ ne. absurd (ne refl))
      by_lookups none (some tool) p q =
          rw (p, q, Llm.choose)
            (use_tool-IsUsable task c tools unavailable observations tool proposal.args
              proposal.reason proposal.more q p)

  -- Without a fallback, a decision of `decide_tool` that names a tool names one that the role is
  -- offered and not forbidden; its missing arguments are exactly the required ones that it lacks, and
  -- it is a question when there are any; each required identifier of the tool is blank, was shown
  -- to the model, or is the task's own. The reply of the model is arbitrary.
  pub decide_tool-IsUsable :
      (task : String) (tools unavailable : Dict Schema) (observations : List (Observation V R))
      → let d = (Llm.decide_tool py model task tools unavailable none observations).decision in
        d.tool ≢ "" → IsUsable task tools unavailable observations d
  unfolding Llm.decide_tool Llm.no_tool Llm.unusable_tool Llm.declined
  decide_tool-IsUsable task tools unavailable observations =
      by_reply (model.chat task tools unavailable observations) refl
    where
      by_parsed :
          (text : String) (parsed : Llm.Parsed V)
          → model.chat task tools unavailable observations ≡ Llm.content text
          → model.parse text ≡ parsed
          → IsUsableOrNone task tools unavailable observations
              (Llm.decide_tool py model task tools unavailable none observations)
      by_parsed text Llm.not_json p q = rw (p, q, Llm.decide_tool) (λ ne. absurd (ne refl))
      by_parsed text Llm.not_object p q = rw (p, q, Llm.decide_tool) (λ ne. absurd (ne refl))
      by_parsed text (Llm.object o) p q =
          rw (p, q, Llm.decide_tool) (choose-IsUsable task tools unavailable observations o.tool o)

      by_reply :
          (r : Llm.Reply)
          → model.chat task tools unavailable observations ≡ r
          → IsUsableOrNone task tools unavailable observations
              (Llm.decide_tool py model task tools unavailable none observations)
      by_reply (Llm.agent_revoked t) p = rw (p, Llm.decide_tool) (λ ne. absurd (ne refl))
      by_reply (Llm.failed t) p = rw (p, Llm.decide_tool) (λ ne. absurd (ne refl))
      by_reply (Llm.content text) p = by_parsed text (model.parse text) p refl
