-- ===== src/Gateway/Limits/Rate.antt =====
-- The rate limit of `Limiter` (app/gateway/limits.py) over a whole run: a sliding window.
use agent_identity_platform.Common.{
  ℕ, suc, ◌+◌, ◌*◌, ◌≤◌, ◌<◌, String, ◌≡◌, refl, ap, ◌∙◌, All, ◌≢◌, inl, inr, none,
  lookup-insert_self, ◌&&◌, List, [], ◌∷◌, ◌++◌, arith, length, length-append, ltb, leb, ◌==◌,
  eq_iff, Bool-cases, if◌then◌else◌,
}
use agent_identity_platform.Gateway.Limits.{
  Limiter, second, minute, drop_old, retry_after_rate, window_of, check_rate, check_budget, check,
  charge, rate_limit_reached,
}
use agent_identity_platform.Gateway.Limits.Window.{
  next_window, rpm-check, window-check, window-check_ne, allowed→room, window-charge, rpm-charge,
  length-drop_old,
}

-- What reaches the limiter: a request that asks, or the charge after an answer.
pub data Event : Type 0 where
  ask : String → ℕ → Event
  spend : String → ℕ → ℕ → Event

abbrev pub time : Event → ℕ
time (ask caller now) = now
time (spend caller n now) = now

abbrev pub After : ℕ → List Event → Type 0
After t [] = Unit
After t (e ∷ es) = (t ≤ time e) × After t es

-- The clock does not run backwards.
abbrev pub Ordered : List Event → Type 0
Ordered [] = Unit
Ordered (e ∷ es) = After (time e) es × Ordered es

-- The times at which the caller was let through.
unfoldable pub admitted : String → List Event → Limiter → List ℕ
admitted c [] l = []
admitted c (ask d now ∷ es) l =
    let rest = admitted c es (check d now l).1 in
    if d == c && (check d now l).0.allowed then now ∷ rest else rest
admitted c (spend d n now ∷ es) l = admitted c es (charge d n now l)

-- How many of the times lie in the minute that begins at `t`, both ends included.
unfoldable pub hits : ℕ → List ℕ → ℕ
hits t [] = 0
hits t (x ∷ xs) = let n = hits t xs in if leb t x && leb x (t + minute) then suc n else n

hits-append : (t : ℕ) (xs ys : List ℕ) → hits t (xs ++ ys) ≡ hits t xs + hits t ys
unfolding hits
hits-append t [] ys = omega arith
hits-append t (x ∷ xs) ys = ground (arith, hits-append t xs ys)

hits-le-length : (t : ℕ) (xs : List ℕ) → hits t xs ≤ length xs
unfolding hits
hits-le-length t [] = omega arith
hits-le-length t (x ∷ xs) = ground (arith, hits-le-length t xs)

hits-drop_old : (t now : ℕ) (w : List ℕ) → now ≤ t + minute → hits t (drop_old now w) ≡ hits t w
unfolding hits drop_old
hits-drop_old t now [] h = refl
hits-drop_old t now (x ∷ w) h = ground (arith, hits-drop_old t now w)

-- Requests after the minute do not count in it.
hits_late :
    (c : String) (t now : ℕ) (es : List Event) (l : Limiter)
    → t + minute < now
    → After now es
    → hits t (admitted c es l) ≡ 0
unfolding admitted hits
hits_late c t now [] l h a = refl
hits_late c t now (ask d x ∷ es) l h a = ground (arith, hits_late c t now es (check d x l).1 h a.1)
hits_late c t now (spend d n x ∷ es) l h a = hits_late c t now es (charge d n x l) h a.1

length-next_window :
    (rpm now : ℕ) (w : List ℕ) → length w ≤ rpm → length (next_window rpm now w) ≤ rpm
unfolding next_window
length-next_window rpm now w h =
    ground (arith, length-drop_old now w, length-append (drop_old now w) (now ∷ []))

module _ (t : ℕ) where
  -- An admitted request is in the window that its call leaves.
  hits-next_window :
      (rpm now : ℕ) (w : List ℕ) → now ≤ t + minute → hits t w ≤ hits t (next_window rpm now w)
  unfolding next_window
  hits-next_window rpm now w h =
      ground (arith, hits-drop_old t now w h, hits-append t (drop_old now w) (now ∷ []))

  hits-next_window_room :
      (rpm now : ℕ) (w : List ℕ)
      → now ≤ t + minute
      → length (drop_old now w) < rpm
      → hits t w + hits t (now ∷ []) ≡ hits t (next_window rpm now w)
  unfolding next_window
  hits-next_window_room rpm now w h r =
      ground (arith, hits-drop_old t now w h, hits-append t (drop_old now w) (now ∷ []))

  hits-cons : (x : ℕ) (xs : List ℕ) → hits t (x ∷ xs) ≡ hits t (x ∷ []) + hits t xs
  unfolding hits
  hits-cons x xs = ground arith

  hits-admitted_ask :
      (c d : String) (now : ℕ) (es : List Event) (l : Limiter)
      → hits t (admitted c (ask d now ∷ es) l)
        ≡ (if d == c && (check d now l).0.allowed then hits t (now ∷ []) else 0)
          + hits t (admitted c es (check d now l).1)
  unfolding admitted
  hits-admitted_ask c d now es l = ground (arith, hits-cons now (admitted c es (check d now l).1))

  -- What the window holds and what is still admitted make at most the limit together.
  own_ask :
      (c : String) (now : ℕ) (es : List Event) (l : Limiter)
      → 0 < l.rpm
      → now ≤ t + minute
      → hits t (window_of c (check c now l).1) + hits t (admitted c es (check c now l).1)
        ≤ (check c now l).1.rpm
      → hits t (window_of c l) + hits t (admitted c (ask c now ∷ es) l) ≤ l.rpm
  own_ask c now es l pos soon ih = ground (
    arith,
    ih,
    rpm-check c now l,
    window-check c now l pos,
    allowed→room c now l pos,
    hits-next_window l.rpm now (window_of c l) soon,
    hits-next_window_room l.rpm now (window_of c l) soon,
    hits-admitted_ask c c now es l,
    eq_iff c c,
  )

  others_ask :
      (c d : String) (now : ℕ) (es : List Event) (l : Limiter)
      → d ≢ c
      → hits t (window_of c (check d now l).1) + hits t (admitted c es (check d now l).1)
        ≤ (check d now l).1.rpm
      → hits t (window_of c l) + hits t (admitted c (ask d now ∷ es) l) ≤ l.rpm
  others_ask c d now es l ne ih = ground (
    arith,
    rpm-check d now l,
    window-check_ne d now l c ne,
    hits-admitted_ask c d now es l,
    eq_iff d c,
  )

  late :
      (c : String) (e : Event) (es : List Event) (l : Limiter)
      → t + minute < time e
      → length (window_of c l) ≤ l.rpm
      → After (time e) es
      → hits t (window_of c l) + hits t (admitted c (e ∷ es) l) ≤ l.rpm
  late c e es l h b a = omega (
    arith,
    hits_late c t (time e) (e ∷ es) l h (omega arith, a),
    hits-le-length t (window_of c l),
  )

  window_check_le :
      (c d : String) (now : ℕ) (l : Limiter)
      → 0 < l.rpm
      → length (window_of c l) ≤ l.rpm
      → length (window_of c (check d now l).1) ≤ l.rpm
  window_check_le c d now l pos b = elim (Bool-cases (d == c)) [
    | inl same ↦ ground (
      arith,
      (eq_iff d c).0 same,
      window-check d now l pos,
      length-next_window l.rpm now (window_of d l),
    )
    | inr other ↦ rw (window-check_ne d now l c (λ e. ground (arith, eq_iff d c))) b
  ]

  sliding :
      (c : String) (es : List Event) (l : Limiter)
      → 0 < l.rpm
      → length (window_of c l) ≤ l.rpm
      → Ordered es
      → hits t (window_of c l) + hits t (admitted c es l) ≤ l.rpm
  unfolding admitted hits
  sliding c [] l pos b o = omega (arith, hits-le-length t (window_of c l))
  sliding c (ask d now ∷ es) l pos b o = elim (Bool-cases (ltb (t + minute) now)) [
    | inl far ↦ late c (ask d now) es l (ground arith) b o.0
    | inr near ↦
        let ih =
          sliding c es (check d now l).1 (rw rpm-check pos)
            (rw rpm-check (window_check_le c d now l pos b)) o.1 in
        elim (Bool-cases (d == c)) [
          | inl same ↦
              let e : d ≡ c = (eq_iff d c).0 same in
              rw e (own_ask c now es l pos (ground arith) (rw e at ih))
          | inr other ↦ others_ask c d now es l (λ e. ground (arith, eq_iff d c)) ih
        ]
  ]
  sliding c (spend d n now ∷ es) l pos b o =
      let ih =
        sliding c es (charge d n now l) (rw rpm-charge pos) (rw (rpm-charge, window-charge) b)
          o.1 in
      omega (arith, ih, rpm-charge d n now l, ap (hits t) (window-charge d c n now l))

-- In every run that starts from a caller's window within the limit, if the clock does not run
-- backwards, at most `rpm` requests of that caller are admitted in any interval of sixty seconds.
pub admitted_per_minute :
    (t : ℕ) (c : String) (es : List Event) (l : Limiter)
    → 0 < l.rpm
    → length (window_of c l) ≤ l.rpm
    → Ordered es
    → hits t (admitted c es l) ≤ l.rpm
admitted_per_minute t c es l pos b o = omega (arith, sliding t c es l pos b o)

head_leaves :
    (now later w : ℕ) (ws : List ℕ)
    → now ≤ w + minute
    → now + retry_after_rate now (w ∷ ws) * second ≤ later
    → w + minute < later
unfolding retry_after_rate
head_leaves now later w ws h k = omega arith

drop_old_head : (now x : ℕ) (xs w : List ℕ) → drop_old now w ≡ x ∷ xs → now ≤ x + minute
unfolding drop_old
drop_old_head now x xs [] e = ground arith
drop_old_head now x xs (y ∷ w) e = ground (arith, drop_old_head now x xs w)

length-drop_old_head :
    (later x : ℕ) (xs : List ℕ) → x + minute < later → length (drop_old later (x ∷ xs)) ≤ length xs
unfolding drop_old
length-drop_old_head later x xs h = ground (arith, length-drop_old later xs)

room_later :
    (rpm now later : ℕ) (w : List ℕ)
    → 0 < rpm
    → length w ≤ rpm
    → rpm ≤ length (drop_old now w)
    → now + retry_after_rate now (drop_old now w) * second ≤ later
    → length (drop_old later (drop_old now w)) < rpm
room_later rpm now later w pos b full k = go (drop_old now w) refl
  where
    go : (v : List ℕ) → drop_old now w ≡ v → length (drop_old later (drop_old now w)) < rpm
    go [] e = absurd (omega (arith, ap length e))
    go (x ∷ xs) e = rw e (
        omega (
          arith,
          ap length e,
          length-drop_old now w,
          length-drop_old_head later x xs
              (head_leaves now later x xs (drop_old_head now x xs w e) (rw e at k)),
        ))

refused_window :
    (c : String) (now : ℕ) (l : Limiter)
    → 0 < l.rpm
    → (check c now l).0.reason ≡ rate_limit_reached l.rpm
    → (l.rpm ≤ length (drop_old now (window_of c l)))
      × ((check c now l).0.retry_after ≡ retry_after_rate now (drop_old now (window_of c l)))
      × (window_of c (check c now l).1 ≡ drop_old now (window_of c l))
unfolding check check_rate check_budget
refused_window c now l pos r =
    ground (arith, lookup-insert_self c (drop_old now (window_of c l)) l.requests)

no_refusal :
    (c : String) (now : ℕ) (l : Limiter)
    → length (drop_old now (window_of c l)) < l.rpm
    → (check_rate c now l).0 ≡ none
unfolding check_rate
no_refusal c now l h = ground arith

-- The limiter after those calls.
unfoldable pub run : List Event → Limiter → Limiter
run [] l = l
run (ask c now ∷ es) l = run es (check c now l).1
run (spend c n now ∷ es) l = run es (charge c n now l)

-- No request of the caller.
abbrev pub IsOther : String → Event → Type 0
IsOther c (ask d now) = d ≢ c
IsOther c (spend d n now) = Unit

rpm-run : (es : List Event) (l : Limiter) → (run es l).rpm ≡ l.rpm
unfolding run
rpm-run [] l = refl
rpm-run (ask c now ∷ es) l = rpm-run es (check c now l).1 ∙ rpm-check c now l
rpm-run (spend c n now ∷ es) l = rpm-run es (charge c n now l) ∙ rpm-charge c n now l

window-run_other :
    (c : String) (es : List Event) (l : Limiter)
    → All (IsOther c) es
    → window_of c (run es l) ≡ window_of c l
unfolding run
window-run_other c [] l h = refl
window-run_other c (ask d now ∷ es) l (ne, hs) =
    window-run_other c es (check d now l).1 hs ∙ window-check_ne d now l c ne
window-run_other c (spend d n now ∷ es) l (_, hs) =
    window-run_other c es (charge d n now l) hs ∙ window-charge d c n now l

-- A caller whose window is within the limit, that was refused for its rate and asks again once
-- `retry_after` seconds have passed is not refused for its rate, whatever requests of others and
-- charges came in between; a request of its own did not.
pub retry_after_suffices :
    (c : String) (now later : ℕ) (l : Limiter) (es : List Event)
    → 0 < l.rpm
    → length (window_of c l) ≤ l.rpm
    → (check c now l).0.reason ≡ rate_limit_reached l.rpm
    → All (IsOther c) es
    → now + (check c now l).0.retry_after * second ≤ later
    → (check_rate c later (run es (check c now l).1)).0 ≡ none
retry_after_suffices c now later l es pos b r others k =
    let (full, after, w) = refused_window c now l pos r in
    let room = room_later l.rpm now later (window_of c l) pos b full (rw after at k) in
    let l' = (check c now l).1 in
    no_refusal c later (run es l')
      (rw (window-run_other c es l' others, w, rpm-run es l', rpm-check) room)
