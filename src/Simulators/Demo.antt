-- ===== src/Simulators/Demo.antt =====
-- The records of app/simulators/data.py. An amount is `dollars` of a number of cents.
use agent_identity_platform.Common.{ℕ, String, Dict, [], ◌∷◌}
use agent_identity_platform.Simulators.Payments.{Order}
use agent_identity_platform.Simulators.Tickets.{Ticket}

abbrev pub customers : Dict (Dict String)
customers =
    (
      "c-100",
      ("id", "c-100")
          ∷ ("tenant", "acme")
          ∷ ("name", "Alice Example")
          ∷ ("email", "alice@example.com")
          ∷ ("phone", "+1-555-0100")
          ∷ ("tier", "gold")
          ∷ ("region", "us-east")
          ∷ ("created_at", "2024-03-01")
          ∷ [],
    )
    ∷ (
      "c-200",
      ("id", "c-200")
          ∷ ("tenant", "acme")
          ∷ ("name", "Bob Sample")
          ∷ ("email", "bob@example.com")
          ∷ ("phone", "+1-555-0200")
          ∷ ("tier", "silver")
          ∷ ("region", "eu-west")
          ∷ ("created_at", "2024-06-14")
          ∷ [],
    )
    ∷ (
      "c-300",
      ("id", "c-300")
          ∷ ("tenant", "acme")
          ∷ ("name", "Carol Demo")
          ∷ ("email", "carol@example.com")
          ∷ ("phone", "+1-555-0300")
          ∷ ("tier", "standard")
          ∷ ("region", "us-west")
          ∷ ("created_at", "2025-01-09")
          ∷ [],
    )
    ∷ (
      "c-900",
      ("id", "c-900")
          ∷ ("tenant", "globex")
          ∷ ("name", "Grace Other")
          ∷ ("email", "grace@globex.example")
          ∷ ("phone", "+1-555-0900")
          ∷ ("tier", "gold")
          ∷ ("region", "us-east")
          ∷ ("created_at", "2024-11-02")
          ∷ [],
    )
    ∷ []

module _ {A : Type 0} (dollars : ℕ → A) where
  abbrev pub orders : Dict (Order A)
  orders =
      (
        "o-1001",
        record {
          id = "o-1001";
          tenant = "acme";
          customer_id = "c-100";
          items = record { sku = "WIDGET-A"; qty = 2; price = dollars 2500 } ∷ [];
          total = dollars 5000;
          status = "delivered";
          payment_token = "tok_demo_4242";
          created_at = "2025-02-10";
        },
      )
      ∷ (
        "o-1002",
        record {
          id = "o-1002";
          tenant = "acme";
          customer_id = "c-100";
          items = record { sku = "GADGET-B"; qty = 1; price = dollars 32000 } ∷ [];
          total = dollars 32000;
          status = "delivered";
          payment_token = "tok_demo_1881";
          created_at = "2025-03-02";
        },
      )
      ∷ (
        "o-2001",
        record {
          id = "o-2001";
          tenant = "acme";
          customer_id = "c-200";
          items = record { sku = "WIDGET-A"; qty = 1; price = dollars 2500 } ∷ [];
          total = dollars 2500;
          status = "shipped";
          payment_token = "tok_demo_9009";
          created_at = "2025-04-21";
        },
      )
      ∷ (
        "o-3001",
        record {
          id = "o-3001";
          tenant = "acme";
          customer_id = "c-300";
          items = record { sku = "SUBSCRIPTION"; qty = 1; price = dollars 90000 } ∷ [];
          total = dollars 90000;
          status = "delivered";
          payment_token = "tok_demo_7777";
          created_at = "2025-05-30";
        },
      )
      ∷ (
        "o-9001",
        record {
          id = "o-9001";
          tenant = "globex";
          customer_id = "c-900";
          items = record { sku = "WIDGET-A"; qty = 4; price = dollars 2500 } ∷ [];
          total = dollars 10000;
          status = "delivered";
          payment_token = "tok_demo_0900";
          created_at = "2025-06-11";
        },
      )
      ∷ []

abbrev pub tickets : Dict Ticket
tickets =
    (
      "t-5001",
      record {
        id = "t-5001";
        tenant = "acme";
        customer_id = "c-100";
        subject = "My order arrived damaged";
        status = "open";
        messages = ("customer", "The GADGET-B arrived with a cracked screen.") ∷ [];
      },
    )
    ∷ (
      "t-5002",
      record {
        id = "t-5002";
        tenant = "acme";
        customer_id = "c-200";
        subject = "Where is my order?";
        status = "open";
        messages = ("customer", "It has been a week.") ∷ [];
      },
    )
    ∷ (
      "t-9001",
      record {
        id = "t-9001";
        tenant = "globex";
        customer_id = "c-900";
        subject = "Invoice question";
        status = "open";
        messages = ("customer", "Please re-send the invoice.") ∷ [];
      },
    )
    ∷ []
