-- ===== src/Gateway/Limits/Window.antt =====
-- One call of `Limiter.check` (app/gateway/limits.py) seen from one caller's window.
use agent_identity_platform.Common.{
  ℕ, ◌≤◌, ◌<◌, String, ◌≡◌, ◌≢◌, inl, inr, true, List, [], ◌∷◌, ◌++◌, arith, lookup-insert_self,
  lookup-insert_ne, length, leb, Bool-cases, if◌then◌else◌,
}
use agent_identity_platform.Gateway.Limits.{Limiter, drop_old, window_of, check_rate, check, charge}

-- The window that a call leaves: old entries gone, and the time of the call added if there is room.
unfoldable pub next_window : ℕ → ℕ → List ℕ → List ℕ
next_window rpm now w =
    if leb rpm (length (drop_old now w)) then drop_old now w else drop_old now w ++ now ∷ []

module _ (caller : String) (now : ℕ) (l : Limiter) where
  pub rpm-check : (check caller now l).1.rpm ≡ l.rpm
  unfolding check check_rate
  rpm-check = ground arith

  pub window-check :
      0 < l.rpm
      → window_of caller (check caller now l).1 ≡ next_window l.rpm now (window_of caller l)
  unfolding check check_rate next_window
  window-check h = elim (Bool-cases (leb l.rpm (length (drop_old now (window_of caller l))))) [
    | inl full ↦
        ground (arith, lookup-insert_self caller (drop_old now (window_of caller l)) l.requests)
    | inr room ↦ ground (
      arith,
      lookup-insert_self caller (drop_old now (window_of caller l) ++ now ∷ []) l.requests,
    )
  ]

  -- A call counts for its caller alone.
  pub window-check_ne :
      (other : String) → caller ≢ other → window_of other (check caller now l).1 ≡ window_of other l
  unfolding check check_rate
  window-check_ne other ne =
      let w = drop_old now (window_of caller l) in
      ground (
        arith,
        lookup-insert_ne caller other w l.requests ne,
        lookup-insert_ne caller other (w ++ now ∷ []) l.requests ne,
      )

  -- Only a call with room in the window is allowed.
  pub allowed→room :
      0 < l.rpm
      → (check caller now l).0.allowed ≡ true
      → length (drop_old now (window_of caller l)) < l.rpm
  unfolding check check_rate
  allowed→room h e = ground arith

pub window-charge :
    (caller other : String) (n now : ℕ) (l : Limiter)
    → window_of other (charge caller n now l) ≡ window_of other l
unfolding charge
window-charge caller other n now l = ground arith

pub rpm-charge : (caller : String) (n now : ℕ) (l : Limiter) → (charge caller n now l).rpm ≡ l.rpm
unfolding charge
rpm-charge caller n now l = ground arith

pub length-drop_old : (now : ℕ) (w : List ℕ) → length (drop_old now w) ≤ length w
unfolding drop_old
length-drop_old now [] = omega arith
length-drop_old now (x ∷ w) = ground (arith, length-drop_old now w)
