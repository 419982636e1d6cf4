-- ===== src/Tools/Catalog/Refunds.antt =====
-- A repeated refund, from the tool to the stored refund (app/tools/catalog.py, app/tools/backends.py,
-- app/sandbox/app.py, app/simulators/payments.py).
use mathlib.Core.Path.{subst}
use agent_identity_platform.Common.{
  ℕ, String, ◌≡◌, ◌≢◌, refl, sym, ap, ◌∙◌, inl, inr, true, false, Option, none, some, [], ◌∷◌, Dict,
  get_or, arith, Bool-cases, Option-cases,
}
use agent_identity_platform.Common.Values.{Values}
use agent_identity_platform.Simulators.Data
use agent_identity_platform.Simulators.Data.{Called}
use agent_identity_platform.Simulators.Payments as P
use agent_identity_platform.Simulators.Payments.{Issued, Refund}
use agent_identity_platform.Simulators.Payments.Retry.{after, retry_returns_first}
use agent_identity_platform.Sandbox.{World, Auth}
use agent_identity_platform.Sandbox.State.{Sandbox as State, Storage}
use agent_identity_platform.Tools.Backends.{
  Client, Transport, Backend, authorization, simulator_backend, http_backend, refund_or_none,
}
use agent_identity_platform.Tools.Backends.Agreement.{IsSame, IsTenant, backends_agree}
use agent_identity_platform.Tools.Enforcement.{Handled, returned, raised}
use agent_identity_platform.Tools.Catalog.{
  Output, refund, refund_tool, refund_with, accepts, amount_arg, text_arg, or_not_found, taking,
}

returned-inv :
    {A : Type 0} (x : Called (Option (Refund A))) (r : Refund A)
    → or_not_found refund "order" x ≡ returned (refund r) none
    → x ≡ Data.returned (some r)
unfolding or_not_found
returned-inv (Data.raised text) r h = cc
returned-inv (Data.returned none) r h = ground (arith, h)
returned-inv (Data.returned (some y)) r h = ground (arith, h)

same_refund :
    {A : Type 0} (done : Issued A) (x : Called (Option (Refund A))) (r : Refund A)
    → IsSame (refund_or_none done) x
    → x ≡ Data.returned (some r)
    → done ≡ P.refunded r
unfolding refund_or_none
same_refund (P.not_found id) x r h e = absurd (cc (subst (IsSame (Data.returned none)) e h))
same_refund P.not_positive x r h e =
    absurd (subst (IsSame (Data.raised "refund amount must be positive")) e h)
same_refund (P.refunded y) x r h e =
    let q : Data.returned (some y) ≡ Data.returned (some r) =
      ap Data.returned (subst (IsSame (Data.returned (some y))) e h) in
    ground (arith, q)

from_same : {R : Type 0} (y : Called R) (x : R) → IsSame (Data.returned x) y → y ≡ Data.returned x
from_same (Data.raised text) x h = absurd h
from_same (Data.returned y) x h = ap Data.returned (sym h)

module _ {A : Type 0} (w : World A) (storage : Storage) (auth : Auth) (net : Transport A)
    (c : Client) (subject : Option String) where
  abbrev pub http : Backend A (State A)
  http = http_backend w storage auth net c subject

  issue_refund_repeats :
      (id id' k tenant tenant' : String) (amount amount' : A) (s s1 : State A) (r : Refund A)
      → ((n : ℕ) → w.money.id_of n ≢ k)
      → IsTenant auth (authorization c subject) tenant
      → IsTenant auth (authorization c subject) tenant'
      → net.is_segment id ≡ true
      → net.is_segment id' ≡ true
      → net.sent amount ≡ some amount
      → net.sent amount' ≡ some amount'
      → http.issue_refund id amount tenant (some k) s ≡ (Data.returned (some r), s1)
      → ((http.issue_refund id' amount' tenant' (some k) s1).0 ≡ Data.returned (some r))
        × ((http.issue_refund id' amount' tenant' (some k) s1).1.systems ≡ s1.systems)
  unfolding simulator_backend after
  issue_refund_repeats id id' k tenant tenant' amount amount' s s1 r foreign t t' g g' m m' h =
      let first =
        backends_agree w storage auth net c subject id "" amount tenant (some k) s t g m in
      let second =
        backends_agree w storage auth net c subject id' "" amount' tenant' (some k) s1 t' g' m' in
      let done = P.issue_refund w.money w.orders id amount tenant (some k) s.systems.payments in
      let issued =
        same_refund done.0 (http.issue_refund id amount tenant (some k) s).0 r first.7
          (ap (λ z. z.0) h) in
      let stored : done.1 ≡ s1.systems.payments =
        ap (λ z. z.payments) (sym first.8 ∙ ap (λ z. z.1.systems) h) in
      let again : P.issue_refund w.money w.orders id' amount' tenant' (some k) s1.systems.payments
          ≡ (P.refunded r, s1.systems.payments) =
        subst
          (λ p. P.issue_refund w.money w.orders id' amount' tenant' (some k) p ≡ (P.refunded r, p))
          stored
          (retry_returns_first w.money w.orders id amount tenant k s.systems.payments r foreign
            issued [] id' amount' tenant') in
      (
        from_same (http.issue_refund id' amount' tenant' (some k) s1).0 (some r) (
            subst
              (λ z.
                IsSame (refund_or_none z.0) (http.issue_refund id' amount' tenant' (some k) s1).0)
              again second.7),
        second.8 ∙ ap (λ z. record (s1.systems) { payments = z.1 }) again,
      )

  refund_tool-refuses :
      {V : Type 0} (py : Values V) (amount : V → Option A) (args : Dict V) (tenant : Option String)
      (k : String) (s : State A)
      → accepts ("order_id" ∷ "amount" ∷ []) args ≡ false
      → (refund_tool py amount http).handler args tenant (some k) s ≡ (raised "TypeError", s)
  unfolding refund_tool taking
  refund_tool-refuses py amount args tenant k s e = rw e refl

  refund_tool-no_number :
      {V : Type 0} (py : Values V) (amount : V → Option A) (args : Dict V) (tenant : Option String)
      (k : String) (s : State A)
      → accepts ("order_id" ∷ "amount" ∷ []) args ≡ true
      → amount_arg py amount http args ≡ none
      → (refund_tool py amount http).handler args tenant (some k) s
        ≡ (raised "could not convert to float", s)
  unfolding refund_tool taking refund_with
  refund_tool-no_number py amount args tenant k s e f = rw (e, f) refl

  refund_tool-runs :
      {V : Type 0} (py : Values V) (amount : V → Option A) (args : Dict V) (tenant : Option String)
      (k : String) (s : State A) (n : A)
      → accepts ("order_id" ∷ "amount" ∷ []) args ≡ true
      → amount_arg py amount http args ≡ some n
      → (refund_tool py amount http).handler args tenant (some k) s ≡ (
          let (x, s') =
            http.issue_refund
              (text_arg py amount http "order_id" args)
              n
              (get_or tenant "")
              (some k)
              s in
          (or_not_found refund "order" x, s'))
  unfolding refund_tool taking refund_with
  refund_tool-runs py amount args tenant k s n e f = rw (e, f) refl

  -- A run of the refund tool that returned a refund had an amount, and the backend's answer was that refund.
  refund_tool-inv :
      {V : Type 0} (py : Values V) (amount : V → Option A) (args : Dict V) (tenant : Option String)
      (k : String) (s s1 : State A) (r : Refund A)
      → (refund_tool py amount http).handler args tenant (some k) s ≡ (returned (refund r) none, s1)
      → (n : A) × (http.issue_refund
            (text_arg py amount http "order_id" args)
            n
            (get_or tenant "")
            (some k)
            s
          ≡ (Data.returned (some r), s1))
  refund_tool-inv py amount args tenant k s s1 r h =
      elim (Bool-cases (accepts ("order_id" ∷ "amount" ∷ []) args)) [
        | inr e ↦
            absurd
              (not_raised "TypeError" s (sym (refund_tool-refuses py amount args tenant k s e) ∙ h))
        | inl e ↦ elim (Option-cases (amount_arg py amount http args)) [
          | inl f ↦ absurd (
              not_raised "could not convert to float" s
                (sym (refund_tool-no_number py amount args tenant k s e f) ∙ h))
          | inr (n, f) ↦
              let got =
                http.issue_refund (text_arg py amount http "order_id" args) n (get_or tenant "")
                  (some k) s in
              let q : ◌≡◌ {A = Handled (Output A) × State A}
                  (or_not_found refund "order" got.0, got.1) (returned (refund r) none, s1) =
                sym (refund_tool-runs py amount args tenant k s n e f) ∙ h in
              (n, λ i. (returned-inv got.0 r (ap (λ z. z.0) q) i, (q i).1))
        ]
      ]
    where
      not_raised :
          (text : String) (u : State A)
          → ◌≡◌ {A = Handled (Output A) × State A} (raised text, u) (returned (refund r) none, s1)
          → ⊥
      not_raised text u p =
          let q : ◌≡◌ {A = Handled (Output A)} (raised text) (returned (refund r) none) =
            ap (λ z. z.0) p in
          ground (arith, q)

  -- An amount that arrived arrived as it was sent.
  abbrev pub IsExact : Type 0
  IsExact = (x y : A) → net.sent x ≡ some y → y ≡ x

  issue_refund-lost :
      (id : String) (amount : A) (tenant : String) (key : Option String) (s : State A)
      → net.is_segment id ≡ true
      → net.sent amount ≡ none
      → http.issue_refund id amount tenant key s ≡ (Data.raised "amount", s)
  unfolding http_backend
  issue_refund-lost id amount tenant key s g e = rw (g, e) refl

  issue_refund-sent :
      (id : String) (amount : A) (tenant : String) (key : Option String) (s s1 : State A)
      (r : Refund A)
      → IsExact
      → net.is_segment id ≡ true
      → http.issue_refund id amount tenant key s ≡ (Data.returned (some r), s1)
      → net.sent amount ≡ some amount
  issue_refund-sent id amount tenant key s s1 r exact g h = elim (Option-cases (net.sent amount)) [
    | inl e ↦
        let q : ◌≡◌ {A = Called (Option (Refund A))} (Data.raised "amount")
            (Data.returned (some r)) =
          ap (λ z. z.0) (sym (issue_refund-lost id amount tenant key s g e) ∙ h) in
        ground (arith, q)
    | inr (y, e) ↦ e ∙ ap some (exact amount y e)
  ]

  -- A refund tool that is called again with the idempotency key of a refund that it returned, with other
  -- arguments that it takes and for the same or another tenant that the sandbox takes the caller for,
  -- returns the same refund, and no further refund is stored. The backend is the HTTP one against the
  -- sandbox, and the key is none of the numbered ids that refunds without a key are kept under. The order
  -- ids make one segment of a path each, an amount that arrives at the sandbox arrives as it was
  -- sent, and that of the second call arrives.
  pub repeated_refund :
      {V : Type 0} (py : Values V) (amount : V → Option A) (args args' : Dict V)
      (tenant tenant' : Option String) (k : String) (s s1 : State A) (r : Refund A) (n : A)
      → IsExact
      → net.is_segment (text_arg py amount http "order_id" args) ≡ true
      → net.is_segment (text_arg py amount http "order_id" args') ≡ true
      → net.sent n ≡ some n
      → ((i : ℕ) → w.money.id_of i ≢ k)
      → IsTenant auth (authorization c subject) (get_or tenant "")
      → IsTenant auth (authorization c subject) (get_or tenant' "")
      → (refund_tool py amount http).handler args tenant (some k) s ≡ (returned (refund r) none, s1)
      → accepts ("order_id" ∷ "amount" ∷ []) args' ≡ true
      → amount_arg py amount http args' ≡ some n
      → (((refund_tool py amount http).handler args' tenant' (some k) s1).0
          ≡ returned (refund r) none)
        × (((refund_tool py amount http).handler args' tenant' (some k) s1).1.systems ≡ s1.systems)
  unfolding or_not_found
  repeated_refund py amount args args' tenant tenant' k s s1 r n exact seg seg' sent foreign t t' h
        e f =
      let (m, g) = refund_tool-inv py amount args tenant k s s1 r h in
      let (x, y) =
        issue_refund_repeats (text_arg py amount http "order_id" args)
          (text_arg py amount http "order_id" args') k (get_or tenant "") (get_or tenant' "") m n s
          s1 r foreign t t' seg seg'
          (issue_refund-sent (text_arg py amount http "order_id" args) m (get_or tenant "") (some k)
            s s1 r exact seg g)
          sent g in
      rw (refund_tool-runs py amount args' tenant' k s1 n e f)
        (ap (or_not_found refund "order") x, y)
