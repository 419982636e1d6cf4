-- ===== src/Simulators/Systems.antt =====
-- app/simulators/__init__.py: the runtime state of all simulated systems, its snapshot and its restoration.
use agent_identity_platform.Common.{ℕ, String, Option, List, [], Dict}
use agent_identity_platform.Simulators.Payments as P
use agent_identity_platform.Simulators.Payments.{Money, Order, Refund, Payments}
use agent_identity_platform.Simulators.Tickets as T
use agent_identity_platform.Simulators.Tickets.{Ticket, Draft, Drafts}

pub record Systems (A : Type 0) : Type 0 where
  pub payments : Payments A
  pub drafts : Drafts

-- What both modules start with.
abbrev pub empty_systems : {A : Type 0} → Systems A
empty_systems = record {
  payments = record { refunds = []; seq = 1 };
  drafts = record { drafts = []; seq = 1 };
}

pub record Snapshot (A : Type 0) : Type 0 where
  pub refunds : List (Refund A)
  pub drafts : List Draft

module _ {A : Type 0} (money : Money A) (orders : Dict (Order A)) where
  unfoldable pub snapshot : Systems A → Snapshot A
  unfolding P.snapshot T.snapshot
  snapshot s = record { refunds = P.snapshot money orders s.payments; drafts = T.snapshot s.drafts }

  unfoldable pub restore : (String → Option ℕ) → Snapshot A → Systems A → Systems A
  unfolding P.restore T.restore
  restore draft_number k s = record {
    payments = P.restore money orders k.refunds s.payments;
    drafts = T.restore draft_number k.drafts s.drafts;
  }
