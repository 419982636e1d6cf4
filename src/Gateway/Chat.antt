-- ===== src/Gateway/Chat.antt =====
-- app/gateway/app.py: one request to the model gateway. The environment, the decoding of the caller's
-- token and the provider are parameters; times are whole microseconds.
pub mod Guards
mod Tests
use Prim.Native.String.{◌++◌ as ◌⧺◌}
use agent_identity_platform.Common.{
  ℕ, ◌+◌, ◌/◌, String, Bool, true, false, ◌||◌, ◌&&◌, Option, none, some, List, [], ◌∷◌, ◌++◌, ◌==◌,
  not, get_or, contains, length, if◌then◌else◌,
}
use agent_identity_platform.Common.Http.{Response, fail, answer}
use agent_identity_platform.Gateway.Limits.{
  Limiter, Decision, Reason, check, charge, estimate_tokens, no_reason, rate_limit_reached,
  daily_budget_reached, second,
}
use agent_identity_platform.Tools.Workload.{Svid, invalid, subject}
use agent_identity_platform.Tools.Revocation.{Setup, Cache, is_revoked}

pub record ChatRequest (M : Type 0) : Type 0 where
  pub model : Option String
  pub messages : List M
  -- The "type" of `response_format`.
  pub response_format : Option String

-- The provider's answer: an HTTP error or an exception, or the two texts of Ollama, or the body of a hosted
-- provider with its reported usage.
pub data Generated : Type 0 where
  unreachable : String → Generated
  generated : Option String → String → Generated

pub data Completed (R : Type 0) : Type 0 where
  failed : String → Completed R
  completed : R → Option ℕ → Completed R

-- The configuration, the decoding and the providers. `content` is the text of a message, `choice` the
-- answer that holds a text.
pub record Gateway (M R : Type 0) : Type 0 where
  pub provider : String
  pub ollama_model : String
  pub llm_model : String
  pub strip_response_format : Bool
  pub api_key : String
  pub bare : String → String
  pub decode : String → Svid
  pub denylist : Setup
  pub content : M → String
  pub choice : String → R
  pub generate : String → String → Bool → Generated
  pub complete : Option String → String → List M → Option String → Completed R
  pub printed : ℕ → String

-- The audit lines, and the call that leaves for the provider, in order.
pub data Effect : Type 0 where
  revoked_refused limited : String → Effect
  call : String → String → ℕ → String → Effect
  sent : String → String → Effect

pub record State : Type 0 where
  pub limiter : Limiter
  pub cache : Cache
  pub log : List Effect

unfoldable pub reason_text : (ℕ → String) → Reason → String
reason_text printed no_reason = ""
reason_text printed (rate_limit_reached n) =
    "rate limit reached (" ⧺ printed n ⧺ " requests/minute)"
reason_text printed (daily_budget_reached n) =
    "daily token budget reached (" ⧺ printed n ⧺ " tokens)"

-- `a or b`, of texts.
unfoldable pub or_text : Option String → String → String
or_text a b = if get_or a "" == "" then b else get_or a ""

unfoldable pub noted : Effect → State → State
noted e s = record s { log = s.log ++ e ∷ [] }

module _ {M R : Type 0} (g : Gateway M R) (now : ℕ) (fetch : Option (List String)) where
  -- `caller_id` from the decoded token on.
  unfoldable pub admit : Svid → State → Response String × State
  unfolding noted
  admit (invalid text) s = (fail 403 ("invalid workload token: " ⧺ text), s)
  admit (subject none) s = (fail 403 "workload token has no subject", s)
  admit (subject (some id)) s =
      let (hit, cache) = is_revoked g.denylist (now / second) fetch id s.cache in
      let s' : State = record s { cache = cache } in
      if hit
      then (fail 403 (id ⧺ " has been revoked"), noted (revoked_refused id) s')
      else (answer id, s')

  unfoldable pub caller_id : Option String → State → Response String × State
  unfolding admit
  caller_id authorization s =
      let token = g.bare (get_or authorization "") in
      if token == "" then (fail 401 "missing workload token", s) else admit (g.decode token) s

  unfoldable pub wants_json : ChatRequest M → Bool
  wants_json req = get_or req.response_format "" == "json_object"

  -- The model that runs.
  unfoldable pub model_of : ChatRequest M → String
  unfolding or_text
  model_of req = or_text req.model (if g.provider == "ollama" then g.ollama_model else g.llm_model)

  -- `"\n".join(...)` of the messages' texts.
  unfoldable pub prompt_of : List M → String
  prompt_of [] = ""
  prompt_of (m ∷ []) = g.content m
  prompt_of (m ∷ n ∷ ms) = g.content m ⧺ "\n" ⧺ prompt_of (n ∷ ms)

  unfoldable pub estimated : List M → ℕ
  estimated [] = 0
  estimated (m ∷ ms) = estimate_tokens (g.content m) + estimated ms

  -- The answer of Ollama, and the charge at the time that it came.
  unfoldable pub generated_answer : String → String → ℕ → Generated → State → Response R × State
  unfolding or_text
  generated_answer caller prompt later (unreachable text) s = (fail 500 text, s)
  generated_answer caller prompt later (generated response thinking) s =
      let content = or_text response thinking in
      (
        answer (g.choice content),
        record s {
          limiter =
              charge caller (estimate_tokens prompt + estimate_tokens content) later s.limiter;
        },
      )

  unfoldable pub completed_answer : String → List M → ℕ → Completed R → State → Response R × State
  unfolding estimated
  completed_answer caller messages later (failed text) s = (fail 500 text, s)
  completed_answer caller messages later (completed body usage) s = (
    answer body,
    record s { limiter = charge caller (get_or usage (estimated messages)) later s.limiter },
  )

  unfoldable pub key_header : Option String
  key_header = if g.api_key == "" then none else some ("Bearer " ⧺ g.api_key)

  unfoldable pub format_of : ChatRequest M → Option String
  format_of req = if g.strip_response_format then none else req.response_format

  -- The audit of a call that is sent.
  unfoldable pub with_call : String → ChatRequest M → State → State
  unfolding noted model_of
  with_call caller req s =
      noted (sent caller (model_of req))
        (noted (call g.provider (model_of req) (length req.messages) caller) s)

  -- From the provider on, by the tests whether it is Ollama and whether no model is named: a hosted one
  -- without a model is a 500, and every other call is sent.
  unfoldable pub forward_to : Bool → Bool → String → ChatRequest M → ℕ → State → Response R × State
  unfolding with_call prompt_of wants_json generated_answer completed_answer key_header format_of
  forward_to true unnamed caller req later s =
      generated_answer caller (prompt_of req.messages) later
        (g.generate (model_of req) (prompt_of req.messages) (wants_json req))
        (with_call caller req s)
  forward_to false true caller req later s = (fail 500 "no model configured: set LLM_MODEL", s)
  forward_to false false caller req later s =
      completed_answer caller req.messages later
        (g.complete key_header (model_of req) req.messages (format_of req)) (with_call caller req s)

  unfoldable pub forward : String → ChatRequest M → ℕ → State → Response R × State
  unfolding forward_to
  forward caller req later s =
      forward_to (g.provider == "ollama") (model_of req == "") caller req later s

  -- `chat` once the caller is known.
  unfoldable pub chat_as : ChatRequest M → ℕ → Response String × State → Response R × State
  unfolding noted reason_text forward
  chat_as req later (fail code detail, s) = (fail code detail, s)
  chat_as req later (answer caller, s) =
      let (decision, limiter) = check caller now s.limiter in
      let s' : State = record s { limiter = limiter } in
      if not decision.allowed
      then (fail 429 (reason_text g.printed decision.reason), noted (limited caller) s')
      else forward caller req later s'

  unfoldable pub chat : ChatRequest M → Option String → ℕ → State → Response R × State
  unfolding caller_id chat_as
  chat req authorization later s = chat_as req later (caller_id authorization s)
