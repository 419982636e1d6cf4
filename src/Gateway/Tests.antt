-- ===== src/Gateway/Tests.antt =====
-- Tests of the limiters of app/gateway/limits.py, and the theorems at concrete inputs.
use agent_identity_platform.Common.{
  ◌+◌, ◌/◌, eq_iff, false, ◌*◌, ◌≤◌, ◌<◌, ◌≡◌, refl, true, List, [], ◌∷◌, none, arith, ◌⊎◌,
}
use agent_identity_platform.Gateway.Limits.{
  Limiter, rate_limit_reached, daily_budget_reached, second, minute, day, drop_old,
  retry_after_rate, check_rate, check_budget, check, charge, used_today, used_on,
}
use agent_identity_platform.Gateway.Limits.Rate
use agent_identity_platform.Gateway.Limits.Rate.{
  admitted, hits, admitted_per_minute, retry_after_suffices,
}
use agent_identity_platform.Gateway.Limits.Budget.{spent_on, allowed-budget}
use agent_identity_platform.Gateway.Durable.{Limits, Tables}
use agent_identity_platform.Gateway.Durable.Rate as Durable_rate
use agent_identity_platform.Gateway.Durable.Rate.{admitted_in, pg_admitted_per_minute}

abbrev limiter : Limiter
limiter = record { rpm = 2; tpd = 100; requests = []; tokens = [] }

-- Two requests at once, one that is refused, a charge, and one after the window.
abbrev run : List Rate.Event
run =
    Rate.ask "a" 0
    ∷ Rate.ask "a" 5
    ∷ Rate.ask "b" 6
    ∷ Rate.ask "a" 7
    ∷ Rate.spend "a" 30 8
    ∷ Rate.ask "a" (61 * second)
    ∷ []

admitted-run : admitted "a" run limiter ≡ 0 ∷ 5 ∷ (61 * second) ∷ []
unfolding admitted check check_rate check_budget charge drop_old used_on
admitted-run = refl

admitted_per_minute_example : hits 0 (admitted "a" run limiter) ≤ 2
admitted_per_minute_example =
    admitted_per_minute 0 "a" run limiter (omega arith) (omega arith) (omega arith)

abbrev full : Limiter
full = record { rpm = 1; tpd = 0; requests = ("a", 0 ∷ []) ∷ []; tokens = [] }

full_refuses : (check "a" 5 full).0.reason ≡ rate_limit_reached 1
unfolding check check_rate drop_old
full_refuses = refl

full_waits : (check "a" 5 full).0.retry_after ≡ 60
unfolding check check_rate drop_old retry_after_rate
full_waits = refl

-- Another caller and a charge in between.
abbrev others : List Rate.Event
others = Rate.ask "b" 6 ∷ Rate.spend "a" 30 8 ∷ []

retry_after_suffices_example :
    (check_rate "a" (61 * second) (Rate.run others (check "a" 5 full).1)).0 ≡ none
unfolding check check_rate drop_old retry_after_rate
retry_after_suffices_example =
    retry_after_suffices "a" 5 (61 * second) full others (omega arith) (omega arith) refl
      ((λ e. ground (arith, eq_iff "b" "a")), (tt, tt)) (omega arith)

-- A charge of yesterday and one of today.
abbrev charges : List Rate.Event
charges = Rate.spend "a" 90 5 ∷ Rate.spend "a" 30 (day + 5) ∷ []

rate_allows : (check_rate "a" (day + 9) (Rate.run charges limiter)).0 ≡ none
unfolding Rate.run check_rate charge drop_old used_on
rate_allows = refl

allowed-budget_example :
    (used_today "a" (day + 9) (Rate.run charges limiter) ≡ spent_on "a" ((day + 9) / day) charges)
    × (((spent_on "a" ((day + 9) / day) charges < 100)
          × ((check "a" (day + 9) (Rate.run charges limiter)).0.allowed ≡ true))
        ⊎ ((100 ≤ spent_on "a" ((day + 9) / day) charges)
            × ((check "a" (day + 9) (Rate.run charges limiter)).0.allowed ≡ false)
            × ((check "a" (day + 9) (Rate.run charges limiter)).0.reason
                ≡ daily_budget_reached 100)))
allowed-budget_example =
    allowed-budget "a" (day + 9) charges limiter (omega arith) refl (omega arith) (omega arith)
      rate_allows

spent : spent_on "a" ((day + 9) / day) charges ≡ 30
unfolding spent_on
spent = refl

abbrev limits : Limits
limits = record { rpm = 2; tpd = 0 }

abbrev no_rows : Tables
no_rows = record { llm_rate = []; llm_daily = [] }

abbrev durable_run : List Durable_rate.Event
durable_run =
    Durable_rate.ask "a" 1
    ∷ Durable_rate.ask "a" 2
    ∷ Durable_rate.ask "a" 3
    ∷ Durable_rate.ask "a" minute
    ∷ []

pg_admitted_per_minute_example : admitted_in limits "a" 0 durable_run no_rows ≤ 2
pg_admitted_per_minute_example =
    pg_admitted_per_minute limits "a" 0 durable_run no_rows (omega arith) (omega arith)
