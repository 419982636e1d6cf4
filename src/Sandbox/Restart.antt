-- ===== src/Sandbox/Restart.antt =====
-- A restart of the sandbox on its file (app/sandbox/app.py, app/sandbox/persistence.py).
use agent_identity_platform.Common.{
  ℕ, ◌<◌, String, ◌≡◌, refl, some, List, arith, In, lookup, values,
}
use agent_identity_platform.Simulators.Data.{le-highest, next_id_number, returned}
use agent_identity_platform.Simulators.Data.Keyed.{refile-values}
use agent_identity_platform.Simulators.Payments as P
use agent_identity_platform.Simulators.Payments.{Issued, not_found, not_positive, refunded, Refund}
use agent_identity_platform.Simulators.Tickets as T
use agent_identity_platform.Simulators.Tickets.{Draft, Drafted, unknown_ticket, drafted}
use agent_identity_platform.Simulators.Systems as Systems
use agent_identity_platform.Simulators.Systems.{Systems as Both, Snapshot, snapshot, empty_systems}
use agent_identity_platform.Sandbox.{World}
use agent_identity_platform.Sandbox.State.{Sandbox as State, start, started}
use agent_identity_platform.Sandbox.Saved.{
  Request, storage, serve_all, fresh, IsSaved, serve_all-IsSaved, fresh-IsSaved,
}

module _ {A : Type 0} (w : World A) where
  -- What the process that starts on the file finds of a state.
  abbrev pub Keeps : State A → State A → Type 0
  Keeps s s' =
      ((k : String) → lookup k s'.systems.payments.refunds ≡ lookup k s.systems.payments.refunds)
      × ((k : String) → lookup k s'.systems.drafts.drafts ≡ lookup k s.systems.drafts.drafts)
      × ((r : Refund A) (n : ℕ)
          → In r (values s.systems.payments.refunds)
          → w.money.number_of r.id ≡ some n
          → n < s'.systems.payments.seq)
      × ((d : Draft) (n : ℕ)
          → In d (values s.systems.drafts.drafts)
          → w.draft_number d.id ≡ some n
          → n < s'.systems.drafts.seq)

  abbrev restored : State A → State A
  restored s = record {
    systems =
        Systems.restore w.money w.orders w.draft_number (snapshot w.money w.orders s.systems)
          empty_systems;
    file = s.file;
  }

  restored-Keeps : (s : State A) → IsSaved w s → Keeps s (restored s)
  unfolding Systems.restore P.restore T.restore snapshot P.snapshot T.snapshot next_id_number
  restored-Keeps s h = (
    λ k. refile-values (P.key_of w.money w.orders) s.systems.payments.refunds k h.refunds,
    λ k. refile-values (λ (d : Draft). d.id) s.systems.drafts.drafts k h.drafts,
    λ r n i e. omega (
      arith,
      le-highest (λ x. w.money.number_of x.id) r (values s.systems.payments.refunds) n i e,
    ),
    λ d n i e.
        omega
          (arith, le-highest (λ x. w.draft_number x.id) d (values s.systems.drafts.drafts) n i e),
  )

  start-restored :
      (s : State A)
      → IsSaved w s
      → start w.money w.orders w.draft_number storage s ≡ returned (restored s)
  unfolding start started
  start-restored s h = rw (h.saved) refl

  -- A sandbox that starts without a file and answers any series of requests, refusals included, while its
  -- writes to the file succeed, loses nothing at a restart: a new process starts, and finds the same
  -- refund under every key and the same draft under every id, and its next numbers are above those of
  -- all of them.
  pub restart_loses_nothing :
      (requests : List (Request A))
      → (s' : State A) × (start w.money w.orders w.draft_number storage
            (serve_all w requests (fresh w))
          ≡ returned s')
        × Keeps (serve_all w requests (fresh w)) s'
  restart_loses_nothing requests =
      let s = serve_all w requests (fresh w) in
      let saved = serve_all-IsSaved w requests (fresh w) (fresh-IsSaved w) in
      (restored s, start-restored s saved, restored-Keeps s saved)
