-- ===== src/Simulators/Tickets/Isolation.antt =====
-- A tenant's drafts are its own (app/simulators/tickets.py).
use agent_identity_platform.Common.{
  ℕ, String, ◌≡◌, ◌≢◌, refl, ap, ◌⊎◌, inl, inr, true, false, Option, none, some, List, [], ◌∷◌,
  ◌==◌, ne→==, arith, Dict, lookup, insert, values, select, if◌then◌else◌, Bool-cases,
}
use agent_identity_platform.Simulators.Data.{scoped, scoped_lem}
use agent_identity_platform.Simulators.Tickets.{
  Ticket, Draft, Drafts, get_ticket, draft_on, draft_reply, list_drafts, new_draft, drafted,
}

-- The drafts of one tenant among those of the store.
abbrev of_tenant : String → Dict Draft → List Draft
of_tenant tenant d = select (λ x. x.tenant == tenant) (values d)

of_tenant-insert :
    (other k : String) (x : Draft) (d : Dict Draft)
    → lookup k d ≡ none
    → (x.tenant == other) ≡ false
    → of_tenant other (insert k x d) ≡ of_tenant other d
of_tenant-insert other k x [] fresh ne = rw ne refl
of_tenant-insert other k x ((j, y) ∷ d) fresh ne =
    by_key (Bool-cases (j == k)) (λ h. of_tenant-insert other k x d h ne)
  where
    by_key :
        ((j == k) ≡ true) ⊎ ((j == k) ≡ false)
        → (lookup k d ≡ none → of_tenant other (insert k x d) ≡ of_tenant other d)
        → of_tenant other (insert k x ((j, y) ∷ d)) ≡ of_tenant other ((j, y) ∷ d)
    by_key (inl e) rest = ground (arith, fresh, e)
    by_key (inr e) rest =
        rw e (ap (λ l. if y.tenant == other then y ∷ l else l) (rest (ground (arith, fresh, e))))

module _ (tickets : Dict Ticket) (id_of : ℕ → String) where
  draft_on_lem :
      (ticket_id body tenant other : String) (filter : Option String) (t : Option Ticket)
      (s : Drafts)
      → tenant ≢ other
      → lookup (id_of s.seq) s.drafts ≡ none
      → list_drafts tickets id_of other filter (draft_on tickets id_of ticket_id body tenant t s).1
        ≡ list_drafts tickets id_of other filter s
  unfolding draft_on list_drafts new_draft
  draft_on_lem ticket_id body tenant other filter none s ne fresh = refl
  draft_on_lem ticket_id body tenant other filter (some t) s ne fresh =
      ap
        (λ l. elim filter [
          | none ↦ l
          | some id ↦ if id == "" then l else select (λ d. d.ticket_id == id) l
        ])
        (of_tenant-insert other (id_of s.seq) (new_draft tickets id_of ticket_id body tenant s.seq)
          s.drafts fresh (ne→== tenant other ne))

  -- A draft is recorded only on a ticket of its own tenant; and when the number that is next is not in
  -- use, another tenant sees, with any filter, the same drafts as before.
  pub draft_reply_lem :
      (ticket_id body tenant other : String) (filter : Option String) (s : Drafts)
      → tenant ≢ other
      → lookup (id_of s.seq) s.drafts ≡ none
      → (list_drafts tickets id_of other filter
            (draft_reply tickets id_of ticket_id body tenant s).1
          ≡ list_drafts tickets id_of other filter s)
        × ((d : Draft)
            → (draft_reply tickets id_of ticket_id body tenant s).0 ≡ drafted d
            → (t : Ticket) × (lookup ticket_id tickets ≡ some t) × (t.tenant ≡ tenant))
  unfolding draft_reply get_ticket draft_on
  draft_reply_lem ticket_id body tenant other filter s ne fresh = (
    draft_on_lem ticket_id body tenant other filter (get_ticket tickets id_of ticket_id tenant) s ne
        fresh,
    owner (get_ticket tickets id_of ticket_id tenant) refl,
  )
    where
      owner :
          (o : Option Ticket)
          → scoped (λ t. t.tenant) (lookup ticket_id tickets) tenant ≡ o
          → (d : Draft) → (draft_on tickets id_of ticket_id body tenant o s).0 ≡ drafted d
          → (t : Ticket) × (lookup ticket_id tickets ≡ some t) × (t.tenant ≡ tenant)
      owner none p d h = ground (arith, h)
      owner (some t) p d h =
          let (e, f) =
            scoped_lem (λ (t : Ticket). t.tenant) (lookup ticket_id tickets) tenant t p in
          (t, e, f)
