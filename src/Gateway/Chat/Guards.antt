-- ===== src/Gateway/Chat/Guards.antt =====
-- What a call that leaves for the model provider has passed (app/gateway/app.py).
use mathlib.Core.Path.{subst}
use Prim.Native.String.{◌++◌ as ◌⧺◌}
use agent_identity_platform.Common.{
  length, ℕ, ◌/◌, String, Bool, ◌≡◌, refl, ◌⊎◌, inl, inr, true, false, Option, none, some, List, [],
  ◌∷◌, ◌++◌, ◌==◌, arith, In, get_or, Bool-cases,
}
use agent_identity_platform.Common.Http.{fail, answer}
use agent_identity_platform.Gateway.Limits.{check, second}
use agent_identity_platform.Tools.Workload.{Svid, invalid, subject}
use agent_identity_platform.Tools.Revocation.{is_revoked}
use agent_identity_platform.Gateway.Chat.{
  Gateway, ChatRequest, State, Effect, sent, call, limited, revoked_refused, noted, with_call,
  forward_to, admit, caller_id, chat_as, chat, forward, generated_answer, completed_answer,
  Generated, unreachable, generated, Completed, failed, completed, model_of, prompt_of, wants_json,
  format_of, key_header,
}

In-snoc : {A : Type 0} (a x : A) (xs : List A) → In a (xs ++ x ∷ []) → In a xs ⊎ (a ≡ x)
In-snoc a x [] (inl e) = inr e
In-snoc a x [] (inr h) = absurd h
In-snoc a x (y ∷ xs) (inl e) = inl (inl e)
In-snoc a x (y ∷ xs) (inr h) = elim (In-snoc a x xs h) [ inl i ↦ inl (inr i) | inr e ↦ inr e ]

module _ {M R : Type 0} (g : Gateway M R) (now : ℕ) (fetch : Option (List String)) where
  -- The token's workload, not revoked and within its limits.
  pub record IsAdmitted (authorization : Option String) (s : State) (caller : String) : Type 0 where
    pub token : (g.bare (get_or authorization "") == "") ≡ false
    pub known : g.decode (g.bare (get_or authorization "")) ≡ subject (some caller)
    pub current : (is_revoked g.denylist (now / second) fetch caller s.cache).0 ≡ false
    pub allowed : (check caller now s.limiter).0.allowed ≡ true

  generated_answer-log :
      (caller prompt : String) (later : ℕ) (got : Generated) (s : State)
      → (generated_answer g now fetch caller prompt later got s).1.log ≡ s.log
  unfolding generated_answer
  generated_answer-log caller prompt later (unreachable text) s = refl
  generated_answer-log caller prompt later (generated response thinking) s = refl

  completed_answer-log :
      (caller : String) (messages : List M) (later : ℕ) (got : Completed R) (s : State)
      → (completed_answer g now fetch caller messages later got s).1.log ≡ s.log
  unfolding completed_answer
  completed_answer-log caller messages later (failed text) s = refl
  completed_answer-log caller messages later (completed body usage) s = refl

  not_call : (a b c d e : String) (n : ℕ) → ◌≡◌ {A = Effect} (sent a b) (call c d n e) → ⊥
  not_call a b c d e n p = ground (arith, p)

  not_limited : (a b c : String) → ◌≡◌ {A = Effect} (sent a b) (limited c) → ⊥
  not_limited a b c p = ground (arith, p)

  not_refused : (a b c : String) → ◌≡◌ {A = Effect} (sent a b) (revoked_refused c) → ⊥
  not_refused a b c p = ground (arith, p)

  with_call-sent :
      (caller : String) (req : ChatRequest M) (c m : String) (s : State)
      → In (sent c m) (with_call g now fetch caller req s).log
      → In (sent c m) s.log ⊎ (c ≡ caller)
  unfolding noted with_call
  with_call-sent caller req c m s h =
      let model = model_of g now fetch req in
      let called = call g.provider model (length req.messages) caller in
      elim (In-snoc (sent c m) (sent caller model) (s.log ++ called ∷ []) h) [
        | inr e ↦ inr (ground (arith, e))
        | inl i ↦ elim (In-snoc (sent c m) called s.log i) [
          | inl j ↦ inl j
          | inr e ↦ absurd (not_call c m g.provider model caller (length req.messages) e)
        ]
      ]

  forward_to-sent :
      (ollama unnamed : Bool) (caller : String) (req : ChatRequest M) (later : ℕ) (c m : String)
      (s : State)
      → In (sent c m) (forward_to g now fetch ollama unnamed caller req later s).1.log
      → In (sent c m) s.log ⊎ (c ≡ caller)
  unfolding forward_to
  forward_to-sent true unnamed caller req later c m s h =
      let prompt = prompt_of g now fetch req.messages in
      let got = g.generate (model_of g now fetch req) prompt (wants_json g now fetch req) in
      with_call-sent caller req c m s (
        subst (In (sent c m))
          (generated_answer-log caller prompt later got (with_call g now fetch caller req s)) h)
  forward_to-sent false true caller req later c m s h = inl h
  forward_to-sent false false caller req later c m s h =
      let got =
        g.complete (key_header g now fetch) (model_of g now fetch req) req.messages
          (format_of g now fetch req) in
      with_call-sent caller req c m s (
        subst (In (sent c m))
          (completed_answer-log caller req.messages later got (with_call g now fetch caller req s))
          h)

  -- The checks after the caller is known.
  chat_as-sent :
      (caller : String) (req : ChatRequest M) (later : ℕ) (c m : String) (s : State)
      → In (sent c m) (chat_as g now fetch req later (answer caller, s)).1.log
      → In (sent c m) s.log ⊎ ((c ≡ caller) × ((check caller now s.limiter).0.allowed ≡ true))
  unfolding chat_as forward noted
  chat_as-sent caller req later c m s = elim (Bool-cases (check caller now s.limiter).0.allowed) [
    | inr e ↦
        rw (e, chat_as)
          (λ h. elim (In-snoc (sent c m) (limited caller) s.log h) [
            | inl j ↦ inl j
            | inr f ↦ absurd (not_limited c m caller f)
          ])
    | inl e ↦
        rw (e, chat_as)
          (λ h.
            elim (forward_to-sent (g.provider == "ollama") (model_of g now fetch req == "") caller
              req later c m (record s { limiter = (check caller now s.limiter).1 }) h) [
                | inl j ↦ inl j
                | inr f ↦ inr (f, refl)
              ])
  ]

  -- What the token must decode to, and what must hold of the workload.
  abbrev Passes : Svid → State → String → Type 0
  Passes d s c =
      (d ≡ subject (some c))
      × ((is_revoked g.denylist (now / second) fetch c s.cache).0 ≡ false)
      × ((check c now s.limiter).0.allowed ≡ true)

  known-sent :
      (id : String) (req : ChatRequest M) (later : ℕ) (c m : String) (s : State)
      → In
          (sent c m)
          (chat_as g now fetch req later (admit g now fetch (subject (some id)) s)).1.log
      → In (sent c m) s.log ⊎ Passes (subject (some id)) s c
  unfolding admit chat_as
  known-sent id req later c m s =
      elim (Bool-cases (is_revoked g.denylist (now / second) fetch id s.cache).0) [
        | inl e ↦
            rw (e, admit)
              (λ h. elim (In-snoc (sent c m) (revoked_refused id) s.log (refused_log h)) [
                | inl j ↦ inl j
                | inr f ↦ absurd (not_refused c m id f)
              ])
        | inr e ↦
            rw (e, admit)
              (λ h.
                elim (chat_as-sent id req later c m
                  (record s { cache = (is_revoked g.denylist (now / second) fetch id s.cache).1 })
                  h) [ inl j ↦ inl j | inr (f, a) ↦ inr (rw f (refl, e, a)) ])
      ]
    where
      refused_log :
          In
            (sent c m)
            (chat_as g now fetch req later (
              fail 403 (id ⧺ " has been revoked"),
              noted
                  (revoked_refused id)
                  (record s { cache = (is_revoked g.denylist (now / second) fetch id s.cache).1 }),
            )).1.log
          → In (sent c m) (s.log ++ revoked_refused id ∷ [])
      refused_log h = h

  admit-sent :
      (d : Svid) (req : ChatRequest M) (later : ℕ) (c m : String) (s : State)
      → In (sent c m) (chat_as g now fetch req later (admit g now fetch d s)).1.log
      → In (sent c m) s.log ⊎ Passes d s c
  unfolding admit chat_as
  admit-sent (invalid text) req later c m s h = inl h
  admit-sent (subject none) req later c m s h = inl h
  admit-sent (subject (some id)) req later c m s h = known-sent id req later c m s h

  -- Each call that leaves for the model provider in a request is made for the workload of the request's
  -- token: the token decodes to it, it is not revoked by the denylist that the gateway knows, and the
  -- limiter lets it through.
  pub chat_is_guarded :
      (req : ChatRequest M) (authorization : Option String) (later : ℕ) (c m : String) (s : State)
      → In (sent c m) (chat g now fetch req authorization later s).1.log
      → In (sent c m) s.log ⊎ IsAdmitted authorization s c
  unfolding chat caller_id
  chat_is_guarded req authorization later c m s =
      elim (Bool-cases (g.bare (get_or authorization "") == "")) [
        | inl e ↦ rw (e, chat, caller_id, chat_as) (λ h. inl h)
        | inr e ↦
            rw (e, chat, caller_id)
              (λ h.
                elim (admit-sent (g.decode (g.bare (get_or authorization ""))) req later c m s h) [
                  | inl j ↦ inl j
                  | inr (k, r, a) ↦ inr (record { token = e; known = k; current = r; allowed = a })
                ])
      ]
