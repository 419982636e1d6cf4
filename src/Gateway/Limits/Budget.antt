-- ===== src/Gateway/Limits/Budget.antt =====
-- The daily token budget of `Limiter` (app/gateway/limits.py).
use agent_identity_platform.Common.{
  ℕ, ◌+◌, ◌≤◌, ◌<◌, ◌/◌, String, ◌≡◌, refl, ap, ◌∙◌, ◌≢◌, ◌⊎◌, inl, inr, ◌&&◌, true, false, Option,
  none, some, List, [], ◌∷◌, ◌==◌, arith, eq_iff, lookup, lookup-insert, lookup-insert_self,
  lookup-insert_ne, eqb, leb, if◌then◌else◌, Bool-cases,
}
use agent_identity_platform.Gateway.Limits.{
  Limiter, day, used_on, check_rate, check_budget, check, charge, used_today, daily_budget_reached,
}
use agent_identity_platform.Gateway.Limits.Rate.{Event, ask, spend, time, After, Ordered, run}

-- With a budget, a charge adds exactly its tokens to what the caller has used on that day.
pub used_today-charge :
    (c : String) (n now : ℕ) (l : Limiter)
    → 0 < l.tpd
    → used_today c now (charge c n now l) ≡ used_today c now l + n
unfolding charge used_today
used_today-charge c n now l h =
    ground (
      arith,
      lookup-insert_self c (now / day, used_on (now / day) (lookup c l.tokens) + n) l.tokens,
    )

pub used_today-charge_ne :
    (c d : String) (n now later : ℕ) (l : Limiter)
    → c ≢ d
    → used_today d later (charge c n now l) ≡ used_today d later l
unfolding charge used_today
used_today-charge_ne c d n now later l ne = ground (
  arith,
  lookup-insert_ne c d (now / day, used_on (now / day) (lookup c l.tokens) + n) l.tokens ne,
)

pub used_today-check :
    (c d : String) (now later : ℕ) (l : Limiter)
    → used_today d later (check c now l).1 ≡ used_today d later l
unfolding check check_rate used_today
used_today-check c d now later l = ground arith

-- With a budget, after a charge of at least one token a later day starts with nothing used.
pub used_today-new_day :
    (c : String) (n now later : ℕ) (l : Limiter)
    → 0 < l.tpd
    → 0 < n
    → now / day < later / day
    → used_today c later (charge c n now l) ≡ 0
unfolding charge used_today
used_today-new_day c n now later l h p k =
    ground (
      arith,
      lookup-insert_self c (now / day, used_on (now / day) (lookup c l.tokens) + n) l.tokens,
    )

-- The tokens charged to the caller on the day.
unfoldable pub spent_on : String → ℕ → List Event → ℕ
spent_on c today [] = 0
spent_on c today (ask d now ∷ es) = spent_on c today es
spent_on c today (spend d n now ∷ es) =
    let rest = spent_on c today es in if d == c && eqb (now / day) today then n + rest else rest

-- Every call is at that time or before.
abbrev pub Until : ℕ → List Event → Type 0
Until now [] = Unit
Until now (e ∷ es) = (time e ≤ now) × Until now es

abbrev last_day : Option (ℕ × ℕ) → ℕ
last_day none = 0
last_day (some (d, n)) = d

tpd-check : (c : String) (now : ℕ) (l : Limiter) → (check c now l).1.tpd ≡ l.tpd
unfolding check check_rate
tpd-check c now l = ground arith

tokens-check : (c : String) (now : ℕ) (l : Limiter) → (check c now l).1.tokens ≡ l.tokens
unfolding check check_rate
tokens-check c now l = ground arith

tpd-charge : (c : String) (n now : ℕ) (l : Limiter) → (charge c n now l).tpd ≡ l.tpd
unfolding charge
tpd-charge c n now l = ground arith

last_day-charge :
    (c d : String) (n now t : ℕ) (l : Limiter)
    → last_day (lookup c l.tokens) ≤ t / day
    → t ≤ now
    → last_day (lookup c (charge d n now l).tokens) ≤ now / day
unfolding charge
last_day-charge c d n now t l h k =
    ground
      (arith, lookup-insert d c (now / day, used_on (now / day) (lookup d l.tokens) + n) l.tokens)

-- An entry of an earlier day counts for nothing.
used_on_past : (today : ℕ) (o : Option (ℕ × ℕ)) → last_day o < today → used_on today o ≡ 0
unfolding used_on
used_on_past today none h = refl
used_on_past today (some (d, n)) h = ground (arith, h)

used_on-charge :
    (c d : String) (n time t now : ℕ) (l : Limiter)
    → 0 < l.tpd
    → last_day (lookup c l.tokens) ≤ t / day
    → t ≤ time
    → time ≤ now
    → used_on (now / day) (lookup c (charge d n time l).tokens)
      ≡ used_on (now / day) (lookup c l.tokens)
        + (if d == c && eqb (time / day) (now / day) then n else 0)
unfolding charge
used_on-charge c d n time t now l pos h k m = ground (
  arith,
  lookup-insert d c (time / day, used_on (time / day) (lookup d l.tokens) + n) l.tokens,
  eq_iff d c,
  used_on_past (now / day) (lookup c l.tokens),
)

tokens-run :
    (c : String) (t now : ℕ) (es : List Event) (l : Limiter)
    → 0 < l.tpd
    → last_day (lookup c l.tokens) ≤ t / day
    → After t es
    → Ordered es
    → Until now es
    → used_on (now / day) (lookup c (run es l).tokens)
      ≡ used_on (now / day) (lookup c l.tokens) + spent_on c (now / day) es
unfolding run spent_on
tokens-run c t now [] l pos h a o u = omega arith
tokens-run c t now (ask d x ∷ es) l pos h a o u =
    tokens-run c t now es (check d x l).1 (rw tpd-check pos) (rw tokens-check h) a.1 o.1 u.1
    ∙ ap (λ m. used_on (now / day) (lookup c m) + spent_on c (now / day) es) (tokens-check d x l)
tokens-run c t now (spend d n x ∷ es) l pos h a o u = ground (
  arith,
  tokens-run c x now es (charge d n x l) (rw tpd-charge pos) (last_day-charge c d n x t l h a.0) o.0
      o.1 u.1,
  used_on-charge c d n x t now l pos h a.0 u.0,
)

After-zero : (es : List Event) → After 0 es
After-zero [] = tt
After-zero (e ∷ es) = (omega arith, After-zero es)

tpd-run : (es : List Event) (l : Limiter) → (run es l).tpd ≡ l.tpd
unfolding run
tpd-run [] l = refl
tpd-run (ask c now ∷ es) l = tpd-run es (check c now l).1 ∙ tpd-check c now l
tpd-run (spend c n now ∷ es) l = tpd-run es (charge c n now l) ∙ tpd-charge c n now l

check-budget :
    (c : String) (now : ℕ) (l : Limiter)
    → 0 < l.tpd
    → (check_rate c now l).0 ≡ none
    → ((used_today c now l < l.tpd) × ((check c now l).0.allowed ≡ true))
      ⊎ ((l.tpd ≤ used_today c now l)
          × ((check c now l).0.allowed ≡ false)
          × ((check c now l).0.reason ≡ daily_budget_reached l.tpd))
unfolding check check_rate check_budget used_today
check-budget c now l pos r = elim (Bool-cases (leb l.tpd (used_today c now l))) [
  | inl full ↦ inr (ground (arith, full), ground (arith, full), ground (arith, full))
  | inr room ↦ inl (ground (arith, room), ground (arith, room))
]

used_today-run :
    (c : String) (now : ℕ) (es : List Event) (l : Limiter)
    → 0 < l.tpd
    → lookup c l.tokens ≡ none
    → Ordered es
    → Until now es
    → used_today c now (run es l) ≡ spent_on c (now / day) es
unfolding used_today used_on
used_today-run c now es l pos fresh o u =
    tokens-run c 0 now es l pos (rw fresh (omega arith)) (After-zero es) o u ∙ ground (arith, fresh)

-- After any series of requests and charges to a limiter with a daily budget that held nothing of the
-- caller, with a clock that does not run backwards, a request that the rate limit does not refuse is
-- let through if the tokens charged to the caller on the day of the request are fewer than the budget,
-- and is refused with the budget as the reason if not; and `used_today` gives those tokens.
pub allowed-budget :
    (c : String) (now : ℕ) (es : List Event) (l : Limiter)
    → 0 < l.tpd
    → lookup c l.tokens ≡ none
    → Ordered es
    → Until now es
    → (check_rate c now (run es l)).0 ≡ none
    → (used_today c now (run es l) ≡ spent_on c (now / day) es)
      × (((spent_on c (now / day) es < l.tpd) × ((check c now (run es l)).0.allowed ≡ true))
          ⊎ ((l.tpd ≤ spent_on c (now / day) es)
              × ((check c now (run es l)).0.allowed ≡ false)
              × ((check c now (run es l)).0.reason ≡ daily_budget_reached l.tpd)))
allowed-budget c now es l pos fresh o u r =
    let used = used_today-run c now es l pos fresh o u in
    let decision = check-budget c now (run es l) (rw tpd-run pos) r in
    (used, ground (arith, used, tpd-run es l, decision))
