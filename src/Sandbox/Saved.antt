-- ===== src/Sandbox/Saved.antt =====
-- Requests that write, and what the file holds after them (app/sandbox/app.py,
-- app/sandbox/persistence.py).
use agent_identity_platform.Common.{
  ℕ, String, ◌≡◌, refl, sym, ap, ◌∙◌, inl, inr, true, Option, none, some, List, [], ◌∷◌, arith,
  get_or, Bool-cases, Option-cases,
}
use agent_identity_platform.Common.Http.{Response, fail, answer, Response-cases}
use agent_identity_platform.Simulators.Data.{returned}
use agent_identity_platform.Simulators.Data.Keyed.{IsKeyed, insert-IsKeyed}
use agent_identity_platform.Simulators.Payments as P
use agent_identity_platform.Simulators.Payments.{Issued, not_found, not_positive, refunded, Refund}
use agent_identity_platform.Simulators.Payments.Restart.{issue_refund-IsKeyed}
use agent_identity_platform.Simulators.Tickets as T
use agent_identity_platform.Simulators.Tickets.{Draft, Drafted, unknown_ticket, drafted}
use agent_identity_platform.Simulators.Systems.{Systems as Both, snapshot, empty_systems}
use agent_identity_platform.Sandbox.{
  World, Amount, refund_arguments, draft_reply, issue_refund, tenant_of, persisted, simulate_draft,
  simulate_refund,
}
use agent_identity_platform.Sandbox.State.{Sandbox as State, Storage, save, load, read, absent}

-- The requests that write, each with the tenant of its token, its body and its header.
pub data Request (A : Type 0) : Type 0 where
  drafts : Option String → String → Option String → Option String → Request A
  refunds : Option String → String → Option (Amount A) → Option String → Option String → Request A

abbrev pub storage : Storage
storage = record { enabled = true; writes = true }

module _ {A : Type 0} (w : World A) where
  unfoldable pub serve : Request A → State A → State A
  serve (drafts ctx ticket_id body x_tenant) s =
      (draft_reply w storage ctx ticket_id body x_tenant s).1
  serve (refunds ctx order_id amount key x_tenant) s =
      (issue_refund w storage ctx order_id amount key x_tenant s).1

  -- The first request is the last of the list.
  unfoldable pub serve_all : List (Request A) → State A → State A
  serve_all [] s = s
  serve_all (r ∷ rs) s = serve r (serve_all rs s)

  -- The file holds what runs, and every record stands under its key.
  pub record IsSaved (s : State A) : Type 0 where
    pub saved : load storage s.file ≡ returned (snapshot w.money w.orders s.systems)
    pub refunds : IsKeyed (P.key_of w.money w.orders) s.systems.payments.refunds
    pub drafts : IsKeyed (λ (d : Draft). d.id) s.systems.drafts.drafts

  persisted-IsSaved :
      {R : Type 0} (r : Response R) (systems : Both A) (s : State A)
      → ((code : ℕ) (detail : String) → r ≡ fail code detail → systems ≡ s.systems)
      → IsKeyed (P.key_of w.money w.orders) systems.payments.refunds
      → IsKeyed (λ (d : Draft). d.id) systems.drafts.drafts
      → IsSaved s
      → IsSaved (persisted w storage r systems s).1
  unfolding persisted save load read
  persisted-IsSaved (fail code detail) systems s same p d h = record {
    saved =
        h.saved ∙ ap (λ x. returned (snapshot w.money w.orders x)) (sym (same code detail refl));
    refunds = p;
    drafts = d;
  }
  persisted-IsSaved (answer r) systems s same p d h = record {
    saved = refl;
    refunds = p;
    drafts = d;
  }

  draft_on-keeps :
      (ticket_id body tenant : String) (t : Option T.Ticket) (s : T.Drafts) (code : ℕ)
      (detail : String)
      → simulate_draft w (T.draft_on w.tickets w.draft_id ticket_id body tenant t s).0
        ≡ fail code detail
      → (T.draft_on w.tickets w.draft_id ticket_id body tenant t s).1 ≡ s
  unfolding T.draft_on simulate_draft
  draft_on-keeps ticket_id body tenant none s code detail h = refl
  draft_on-keeps ticket_id body tenant (some t) s code detail h = ground (arith, h)

  draft_on-IsKeyed :
      (ticket_id body tenant : String) (t : Option T.Ticket) (s : T.Drafts)
      → IsKeyed (λ (d : Draft). d.id) s.drafts
      → IsKeyed
          (λ (d : Draft). d.id)
          (T.draft_on w.tickets w.draft_id ticket_id body tenant t s).1.drafts
  unfolding T.draft_on
  draft_on-IsKeyed ticket_id body tenant none s h = h
  draft_on-IsKeyed ticket_id body tenant (some t) s h =
      let d = T.new_draft w.tickets w.draft_id ticket_id body tenant s.seq in
      insert-IsKeyed (λ (x : Draft). x.id) d.id d s.drafts refl h

  issue_new-keeps :
      (order_id : String) (amount : A) (tenant : String) (key : Option String)
      (o : Option (P.Order A)) (s : P.Payments A) (code : ℕ) (detail : String)
      → simulate_refund w (P.issue_new w.money w.orders order_id amount tenant key o s).0
        ≡ fail code detail
      → (P.issue_new w.money w.orders order_id amount tenant key o s).1 ≡ s
  unfolding P.issue_new simulate_refund
  issue_new-keeps order_id amount tenant key none s code detail = λ h. refl
  issue_new-keeps order_id amount tenant key (some o) s code detail =
      elim (Bool-cases (w.money.is_positive amount)) [
        | inr c ↦ rw (c, P.issue_new) (λ h. refl)
        | inl c ↦ rw (c, P.issue_new) (λ h. ground (arith, h))
      ]

  issue_refund-keeps :
      (order_id : String) (amount : A) (tenant : String) (key : Option String) (s : P.Payments A)
      (code : ℕ) (detail : String)
      → simulate_refund w (P.issue_refund w.money w.orders order_id amount tenant key s).0
        ≡ fail code detail
      → (P.issue_refund w.money w.orders order_id amount tenant key s).1 ≡ s
  unfolding P.issue_refund
  issue_refund-keeps order_id amount tenant key s code detail =
      elim (Option-cases (P.known w.money w.orders key s)) [
        | inr (x, c) ↦ rw (c, P.issue_refund) (λ h. refl)
        | inl c ↦
            rw (c, P.issue_refund)
              (issue_new-keeps order_id amount tenant key
                (P.get_order w.money w.orders order_id tenant) s code detail)
      ]

  draft_reply-IsSaved :
      (ctx : Option String) (id : String) (body x_tenant : Option String) (s : State A)
      → IsSaved s
      → IsSaved (draft_reply w storage ctx id body x_tenant s).1
  unfolding draft_reply T.draft_reply
  draft_reply-IsSaved ctx id body x_tenant s h = elim (Response-cases (tenant_of ctx x_tenant)) [
    | inl (code, detail, e) ↦ rw (e, draft_reply) h
    | inr (tenant, e) ↦
        let t = T.get_ticket w.tickets w.draft_id id tenant in
        let done = T.draft_on w.tickets w.draft_id id (get_or body "") tenant t s.systems.drafts in
        rw (e, draft_reply)
          (persisted-IsSaved (simulate_draft w done.0) (record (s.systems) { drafts = done.1 }) s
            (λ code detail f.
              ap (λ d. record (s.systems) { drafts = d })
                (draft_on-keeps id (get_or body "") tenant t s.systems.drafts code detail f))
            h.refunds (draft_on-IsKeyed id (get_or body "") tenant t s.systems.drafts h.drafts) h)
  ]

  issue_refund-IsSaved :
      (ctx : Option String) (id : String) (amount : Option (Amount A))
      (key x_tenant : Option String) (s : State A)
      → IsSaved s
      → IsSaved (issue_refund w storage ctx id amount key x_tenant s).1
  unfolding issue_refund
  issue_refund-IsSaved ctx id amount key x_tenant s h =
      elim (Response-cases (refund_arguments w ctx amount x_tenant)) [
        | inl (code, detail, e) ↦ rw (e, issue_refund) h
        | inr ((n, tenant), e) ↦
            let done = P.issue_refund w.money w.orders id n tenant key s.systems.payments in
            rw (e, issue_refund)
              (persisted-IsSaved (simulate_refund w done.0)
                (record (s.systems) { payments = done.1 }) s
                (λ code detail f.
                  ap (λ d. record (s.systems) { payments = d })
                    (issue_refund-keeps id n tenant key s.systems.payments code detail f))
                (issue_refund-IsKeyed w.money w.orders id n tenant key s.systems.payments h.refunds)
                h.drafts h)
      ]

  pub serve_all-IsSaved :
      (rs : List (Request A)) (s : State A) → IsSaved s → IsSaved (serve_all rs s)
  unfolding serve serve_all
  serve_all-IsSaved [] s h = h
  serve_all-IsSaved (drafts ctx id body x_tenant ∷ rs) s h =
      draft_reply-IsSaved ctx id body x_tenant (serve_all rs s) (serve_all-IsSaved rs s h)
  serve_all-IsSaved (refunds ctx id amount key x_tenant ∷ rs) s h =
      issue_refund-IsSaved ctx id amount key x_tenant (serve_all rs s) (serve_all-IsSaved rs s h)

  abbrev pub fresh : State A
  fresh = record { systems = empty_systems; file = absent }

  pub fresh-IsSaved : IsSaved fresh
  unfolding load read snapshot P.snapshot T.snapshot
  fresh-IsSaved = record { saved = refl; refunds = tt; drafts = tt }
