-- ===== src/Simulators/Tickets/Tests.antt =====
-- Drafts at concrete inputs (app/simulators/tickets.py).
use agent_identity_platform.Common.{
  ℕ, String, ◌≡◌, refl, ap, none, some, [], ◌∷◌, ◌==◌, arith, Dict, lookup,
}
use agent_identity_platform.Simulators.Tickets.{
  Ticket, Draft, Drafts, draft_reply, list_drafts, drafted,
}
use agent_identity_platform.Simulators.Tickets.Isolation.{draft_reply_lem}

abbrev tickets : Dict Ticket
tickets =
    (
      "t-5001",
      record {
        id = "t-5001";
        tenant = "acme";
        customer_id = "c-100";
        subject = "My order arrived damaged";
        status = "open";
        messages = [];
      },
    )
    ∷ []

abbrev id_of : ℕ → String
id_of n = "d-0001"

abbrev empty : Drafts
empty = record { drafts = []; seq = 1 }

draft_reply_lem_example :
    (list_drafts tickets id_of "globex" none
        (draft_reply tickets id_of "t-5001" "Sorry" "acme" empty).1
      ≡ list_drafts tickets id_of "globex" none empty)
    × ((d : Draft)
        → (draft_reply tickets id_of "t-5001" "Sorry" "acme" empty).0 ≡ drafted d
        → (t : Ticket) × (lookup "t-5001" tickets ≡ some t) × (t.tenant ≡ "acme"))
draft_reply_lem_example =
    draft_reply_lem tickets id_of "t-5001" "Sorry" "acme" "globex" none empty
      (λ p. ground (arith, ap (λ s. s == "acme") p)) refl
