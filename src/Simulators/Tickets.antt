-- ===== src/Simulators/Tickets.antt =====
-- app/simulators/tickets.py. The tickets are a parameter, with the formatting of a draft's id.
pub mod Isolation
mod Tests
use agent_identity_platform.Common.{
  ℕ, suc, String, Option, none, some, List, [], ◌∷◌, ◌==◌, Dict, lookup, insert, values, select,
  if◌then◌else◌,
}
use agent_identity_platform.Simulators.Data.{scoped, next_id_number, refile}

pub record Ticket : Type 0 where
  pub id : String
  pub tenant : String
  pub customer_id : String
  pub subject : String
  pub status : String
  -- Who wrote, and what.
  pub messages : List (String × String)

-- The status of a draft is always "draft".
pub record Draft : Type 0 where
  pub id : String
  pub ticket_id : String
  pub tenant : String
  pub body : String

-- `_drafts` and the next number of `_seq`.
pub record Drafts : Type 0 where
  pub drafts : Dict Draft
  pub seq : ℕ

-- NotFound, or the draft.
pub data Drafted : Type 0 where
  unknown_ticket : String → Drafted
  drafted : Draft → Drafted

module _ (tickets : Dict Ticket) (id_of : ℕ → String) where
  unfoldable pub get_ticket : String → String → Option Ticket
  get_ticket id tenant = scoped (λ t. t.tenant) (lookup id tickets) tenant

  -- An absent or empty `customer_id` is no filter.
  unfoldable pub list_tickets : String → Option String → List Ticket
  list_tickets tenant customer_id =
      let mine = select (λ t. t.tenant == tenant) (values tickets) in
      elim customer_id [
        | none ↦ mine
        | some id ↦ if id == "" then mine else select (λ t. t.customer_id == id) mine
      ]

  unfoldable pub new_draft : String → String → String → ℕ → Draft
  new_draft ticket_id body tenant n = record {
    id = id_of n;
    ticket_id = ticket_id;
    tenant = tenant;
    body = body;
  }

  -- The part of `draft_reply` after the lookup of the ticket.
  unfoldable pub draft_on : String → String → String → Option Ticket → Drafts → Drafted × Drafts
  unfolding new_draft
  draft_on ticket_id body tenant none s = (unknown_ticket ticket_id, s)
  draft_on ticket_id body tenant (some t) s =
      let d = new_draft ticket_id body tenant s.seq in
      (drafted d, record { drafts = insert d.id d s.drafts; seq = suc s.seq })

  unfoldable pub draft_reply : String → String → String → Drafts → Drafted × Drafts
  unfolding draft_on get_ticket
  draft_reply ticket_id body tenant s =
      draft_on ticket_id body tenant (get_ticket ticket_id tenant) s

  unfoldable pub list_drafts : String → Option String → Drafts → List Draft
  list_drafts tenant ticket_id s =
      let mine = select (λ d. d.tenant == tenant) (values s.drafts) in
      elim ticket_id [
        | none ↦ mine
        | some id ↦ if id == "" then mine else select (λ d. d.ticket_id == id) mine
      ]

unfoldable pub snapshot : Drafts → List Draft
snapshot s = values s.drafts

unfoldable pub restore : (String → Option ℕ) → List Draft → Drafts → Drafts
unfolding refile next_id_number
restore number_of records s = record {
  drafts = refile (λ d. d.id) records [];
  seq = next_id_number (λ d. number_of d.id) records;
}
