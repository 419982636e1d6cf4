-- ===== src/Tools/Backends/Agreement.antt =====
-- The tools get the same answers from both backends (app/tools/backends.py, app/sandbox/app.py).
use agent_identity_platform.Common.{String, ◌≡◌, refl, true, Option, none, some}
use agent_identity_platform.Common.Http.{Response, fail, answer, ◌>>=◌}
use agent_identity_platform.Simulators.Data.{Called, raised, returned}
use agent_identity_platform.Simulators.Payments as P
use agent_identity_platform.Simulators.Payments.{Issued, not_found, not_positive, refunded}
use agent_identity_platform.Simulators.Tickets as T
use agent_identity_platform.Simulators.Tickets.{Drafted, unknown_ticket, drafted}
use agent_identity_platform.Simulators.Crm as C
use agent_identity_platform.Simulators.Systems.{Systems}
use agent_identity_platform.Sandbox
use agent_identity_platform.Sandbox.{World, Auth}
use agent_identity_platform.Sandbox.State.{Sandbox as State, Storage}
use agent_identity_platform.Tools.Backends.{
  Client, Transport, simulator_backend, http_backend, authorization, received, read, write, written,
  draft_or_none, refund_or_none,
}

-- Both calls raise, or both return the same.
abbrev pub IsSame : {R : Type 0} → Called R → Called R → Type 0
IsSame (raised s) (raised t) = Unit
IsSame (returned x) (returned y) = x ≡ y
IsSame _ _ = ⊥

-- The sandbox takes the caller for the tenant.
abbrev pub IsTenant : Auth → Option String → String → Type 0
IsTenant auth header tenant =
    (ctx : Option String) × (Sandbox.identify auth header ≡ answer ctx)
    × (Sandbox.tenant_of ctx (some tenant) ≡ answer tenant)

IsSame-refl : {R : Type 0} (r : Called R) → IsSame r r
IsSame-refl (raised s) = tt
IsSame-refl (returned x) = refl

received-or_404 :
    {R : Type 0} (detail : String) (o : Option R) → received (Sandbox.or_404 detail o) ≡ returned o
unfolding received Sandbox.or_404
received-or_404 detail none = refl
received-or_404 detail (some r) = refl

received-pii :
    {R : Type 0} (detail : String) (o : Called (Option R))
    → IsSame o (received (Sandbox.or_500 o >>= Sandbox.or_404 detail))
unfolding received Sandbox.or_500 Sandbox.or_404
received-pii detail (raised text) = tt
received-pii detail (returned none) = refl
received-pii detail (returned (some r)) = refl

write-opened :
    {R S : Type 0} (auth : Auth) (header ctx : Option String)
    (handler : Option String → S → Response R × S) (s : S)
    → Sandbox.identify auth header ≡ answer ctx
    → write auth header handler s ≡ handler ctx s
unfolding write
write-opened auth header ctx handler s e = rw (e, write) refl

module _ {A : Type 0} (w : World A) (storage : Storage) where
  received-simulate_draft : (d : Drafted) → received (Sandbox.simulate_draft w d) ≡ draft_or_none d
  unfolding received Sandbox.simulate_draft draft_or_none
  received-simulate_draft (unknown_ticket id) = refl
  received-simulate_draft (drafted d) = refl

  received-simulate_refund :
      (r : Issued A) → IsSame (refund_or_none r) (received (Sandbox.simulate_refund w r))
  unfolding received Sandbox.simulate_refund refund_or_none
  received-simulate_refund (not_found id) = refl
  received-simulate_refund not_positive = tt
  received-simulate_refund (refunded r) = refl

  persisted-parts :
      {R : Type 0} (r : Response R) (systems : Systems A) (s : State A)
      → ((Sandbox.persisted w storage r systems s).0 ≡ r)
        × ((Sandbox.persisted w storage r systems s).1.systems ≡ systems)
  unfolding Sandbox.persisted
  persisted-parts (fail code detail) systems s = (refl, refl)
  persisted-parts (answer r) systems s = (refl, refl)

  draft_reply-opened :
      (ctx : Option String) (id body tenant : String) (s : State A)
      → Sandbox.tenant_of ctx (some tenant) ≡ answer tenant
      → Sandbox.draft_reply w storage ctx id (some body) (some tenant) s ≡ (
          let (done, drafts) = T.draft_reply w.tickets w.draft_id id body tenant s.systems.drafts in
          Sandbox.persisted w storage
            (Sandbox.simulate_draft w done)
            (record (s.systems) { drafts = drafts })
            s)
  unfolding Sandbox.draft_reply
  draft_reply-opened ctx id body tenant s t = rw (t, Sandbox.draft_reply) refl

  issue_refund-opened :
      (ctx : Option String) (id : String) (amount : A) (key : Option String) (tenant : String)
      (s : State A)
      → Sandbox.tenant_of ctx (some tenant) ≡ answer tenant
      → Sandbox.issue_refund w storage ctx id (some (Sandbox.readable amount)) key (some tenant) s
        ≡ (let (done, payments) =
              P.issue_refund w.money w.orders id amount tenant key s.systems.payments in
            Sandbox.persisted w storage
              (Sandbox.simulate_refund w done)
              (record (s.systems) { payments = payments })
              s)
  unfolding Sandbox.issue_refund Sandbox.refund_arguments Sandbox.amount_of
  issue_refund-opened ctx id amount key tenant s t = rw (t, Sandbox.issue_refund) refl

  written_draft :
      (ctx : Option String) (id body tenant : String) (s : State A)
      → Sandbox.tenant_of ctx (some tenant) ≡ answer tenant
      → let done = T.draft_reply w.tickets w.draft_id id body tenant s.systems.drafts in
        let got = written (Sandbox.draft_reply w storage ctx id (some body) (some tenant) s) in
        IsSame (draft_or_none done.0) got.0
        × (got.1.systems ≡ record (s.systems) { drafts = done.1 })
  unfolding written
  written_draft ctx id body tenant s t =
      let (done, drafts) = T.draft_reply w.tickets w.draft_id id body tenant s.systems.drafts in
      let (p, q) =
        persisted-parts (Sandbox.simulate_draft w done) (record (s.systems) { drafts = drafts })
          s in
      rw (draft_reply-opened ctx id body tenant s t)
        (rw (p, received-simulate_draft done) (IsSame-refl (draft_or_none done)), q)

  written_refund :
      (ctx : Option String) (id : String) (amount : A) (key : Option String) (tenant : String)
      (s : State A)
      → Sandbox.tenant_of ctx (some tenant) ≡ answer tenant
      → let done = P.issue_refund w.money w.orders id amount tenant key s.systems.payments in
        let got = written (
          Sandbox.issue_refund w storage ctx id
            (some (Sandbox.readable amount))
            key
            (some tenant)
            s) in
        IsSame (refund_or_none done.0) got.0
        × (got.1.systems ≡ record (s.systems) { payments = done.1 })
  unfolding written
  written_refund ctx id amount key tenant s t =
      let (done, payments) =
        P.issue_refund w.money w.orders id amount tenant key s.systems.payments in
      let (p, q) =
        persisted-parts (Sandbox.simulate_refund w done)
          (record (s.systems) { payments = payments }) s in
      rw (issue_refund-opened ctx id amount key tenant s t)
        (rw p (received-simulate_refund done), q)

  -- For a caller whom the sandbox takes for the tenant, an id that makes one segment of a path and an
  -- amount that arrives as it was sent, every operation of the HTTP backend against the sandbox either raises where the simulator backend raises, or returns what that returns, a missing
  -- record included; and the two operations that write leave the simulated systems in the same state.
  pub backends_agree :
      (auth : Auth) (net : Transport A) (c : Client) (subject : Option String) (id body : String)
      (amount : A) (tenant : String) (key : Option String) (s : State A)
      → IsTenant auth (authorization c subject) tenant
      → net.is_segment id ≡ true
      → net.sent amount ≡ some amount
      → let sim = simulator_backend w in
        let http = http_backend w storage auth net c subject in
        IsSame (sim.get_customer id tenant s.systems) (http.get_customer id tenant s)
        × IsSame (sim.get_pii id tenant s.systems) (http.get_pii id tenant s)
        × IsSame (sim.list_orders id tenant s.systems) (http.list_orders id tenant s)
        × IsSame (sim.get_ticket id tenant s.systems) (http.get_ticket id tenant s)
        × IsSame (sim.quote_refund id tenant s.systems) (http.quote_refund id tenant s)
        × IsSame (sim.draft_reply id body tenant s.systems).0 (http.draft_reply id body tenant s).0
        × ((http.draft_reply id body tenant s).1.systems
            ≡ (sim.draft_reply id body tenant s.systems).1)
        × IsSame
            (sim.issue_refund id amount tenant key s.systems).0
            (http.issue_refund id amount tenant key s).0
        × ((http.issue_refund id amount tenant key s).1.systems
            ≡ (sim.issue_refund id amount tenant key s.systems).1)
  unfolding simulator_backend http_backend read Sandbox.get_customer Sandbox.get_pii
      Sandbox.list_orders Sandbox.get_ticket Sandbox.quote_refund
  backends_agree auth net c subject id body amount tenant key s (ctx, e, t) seg sent =
      let header = authorization c subject in
      let drafts : Option String → State A → Response T.Draft × State A =
        λ ctx'. Sandbox.draft_reply w storage ctx' id (some body) (some tenant) in
      let refunds : Option String → State A → Response (P.Refund A) × State A = λ ctx'.
        Sandbox.issue_refund w storage ctx' id (some (Sandbox.readable amount)) key (some tenant) in
      (
        rw (seg, e, t)
            (rw (received-or_404 "unknown customer" (C.get_customer (λ x. x) w.customers id tenant))
              refl),
        rw (seg, e, t) (received-pii "unknown customer" (C.get_pii (λ x. x) w.customers id tenant)),
        rw (seg, e, t) refl,
        rw (seg, e, t)
            (rw (received-or_404 "unknown ticket" (T.get_ticket w.tickets w.draft_id id tenant))
              refl),
        rw (seg, e, t)
            (rw
              (received-or_404 "unknown order"
                (P.quote_refund w.money w.orders id tenant s.systems.payments))
              refl),
        rw (seg, write-opened auth header ctx drafts s e) (written_draft ctx id body tenant s t).0,
        rw (seg, write-opened auth header ctx drafts s e) (written_draft ctx id body tenant s t).1,
        rw (seg, sent, write-opened auth header ctx refunds s e)
            (written_refund ctx id amount key tenant s t).0,
        rw (seg, sent, write-opened auth header ctx refunds s e)
            (written_refund ctx id amount key tenant s t).1,
      )
