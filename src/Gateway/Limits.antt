-- ===== src/Gateway/Limits.antt =====
-- `Decision`, `Limiter` and `estimate_tokens` of app/gateway/limits.py. Times are whole microseconds
-- (`time.time()` is a float of seconds); the limits and the tokens charged are at least 0.
pub mod Window
pub mod Rate
pub mod Budget
use Prim.Native.String.{count}
use Prim.Native.Nat.{max}
use agent_identity_platform.Common.{
  ℕ, suc, ◌+◌, ◌-◌, ◌*◌, ◌/◌, String, Bool, true, false, ◌||◌, Option, none, some, List, [], ◌∷◌,
  ◌++◌, Dict, lookup, insert, length, get_or, ltb, leb, eqb, if◌then◌else◌,
}

abbrev pub second : ℕ
second = 1_000_000

abbrev pub minute : ℕ
minute = 60 * second

abbrev pub day : ℕ
day = 86_400 * second

-- The two reasons of a refusal, with the limit that they print.
pub data Reason : Type 0 where
  no_reason : Reason
  rate_limit_reached daily_budget_reached : ℕ → Reason

pub record Decision : Type 0 where
  pub allowed : Bool
  pub reason : Reason
  pub retry_after : ℕ

pub record Limiter : Type 0 where
  pub rpm : ℕ
  pub tpd : ℕ
  -- Caller to the times of its requests, oldest first.
  pub requests : Dict (List ℕ)
  -- Caller to the day and the tokens used on it.
  pub tokens : Dict (ℕ × ℕ)

abbrev pub allow : Decision
allow = record { allowed = true; reason = no_reason; retry_after = 0 }

-- `while window and window[0] < now - 60: window.popleft()`
unfoldable pub drop_old : ℕ → List ℕ → List ℕ
drop_old now [] = []
drop_old now (w ∷ ws) = let rest = drop_old now ws in if ltb (w + minute) now then rest else w ∷ ws

-- `max(1, int(60 - (now - window[0])) + 1)`; the loop has left `now <= window[0] + 60`.
unfoldable pub retry_after_rate : ℕ → List ℕ → ℕ
retry_after_rate now [] = 1
retry_after_rate now (w ∷ ws) = max 1 ((minute + w - now) / second + 1)

abbrev pub window_of : String → Limiter → List ℕ
window_of caller l = get_or (lookup caller l.requests) []

-- The block `if self._rpm:`: a refusal, or nothing and the request counted.
unfoldable pub check_rate : String → ℕ → Limiter → Option Decision × Limiter
check_rate caller now l =
    if eqb l.rpm 0
    then (none, l)
    else let window = drop_old now (window_of caller l) in
      if leb l.rpm (length window)
      then (
        some (record {
          allowed = false;
          reason = rate_limit_reached l.rpm;
          retry_after = retry_after_rate now window;
        }),
        record l { requests = insert caller window l.requests },
      )
      else (none, record l { requests = insert caller (window ++ now ∷ []) l.requests })

-- `used[1] if used[0] == day else 0`, where `used` defaults to `(day, 0)`.
unfoldable pub used_on : ℕ → Option (ℕ × ℕ) → ℕ
used_on today none = 0
used_on today (some (d, n)) = if eqb d today then n else 0

-- The block `if self._tpd:`.
unfoldable pub check_budget : String → ℕ → Limiter → Decision
unfolding used_on
check_budget caller now l =
    if eqb l.tpd 0
    then allow
    else if leb l.tpd (used_on (now / day) (lookup caller l.tokens))
    then record { allowed = false; reason = daily_budget_reached l.tpd; retry_after = 3600 }
    else allow

unfoldable pub check : String → ℕ → Limiter → Decision × Limiter
check caller now l =
    let (refusal, l') = check_rate caller now l in
    elim refusal [ some d ↦ (d, l') | none ↦ (check_budget caller now l', l') ]

unfoldable pub charge : String → ℕ → ℕ → Limiter → Limiter
unfolding used_on
charge caller spent now l =
    if eqb l.tpd 0 || eqb spent 0
    then l
    else let used = used_on (now / day) (lookup caller l.tokens) in
      record l { tokens = insert caller (now / day, used + spent) l.tokens }

unfoldable pub used_today : String → ℕ → Limiter → ℕ
unfolding used_on
used_today caller now l = used_on (now / day) (lookup caller l.tokens)

unfoldable pub estimate_tokens : String → ℕ
estimate_tokens text = max 1 (count text / 4)
