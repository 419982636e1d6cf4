-- ===== src/Gateway/Chat/Tests.antt =====
-- Requests to the gateway at concrete inputs (app/gateway/app.py).
use agent_identity_platform.Common.{
  String, ◌≡◌, refl, ◌⊎◌, inl, inr, false, none, some, [], ◌∷◌, In,
}
use agent_identity_platform.Common.Http.{fail}
use agent_identity_platform.Gateway.Limits.{check, check_rate, check_budget, used_on, drop_old}
use agent_identity_platform.Tools.Workload.{subject}
use agent_identity_platform.Tools.Revocation.{empty_cache, is_revoked}
use agent_identity_platform.Gateway.Chat.{
  Gateway, ChatRequest, State, sent, generated, completed, chat, caller_id, admit, chat_as, forward,
  forward_to, with_call, noted, model_of, generated_answer, or_text,
}
use agent_identity_platform.Gateway.Chat.Guards.{IsAdmitted, chat_is_guarded}

abbrev gateway : Gateway String String
gateway = record {
  provider = "ollama";
  ollama_model = "llama3.2:3b";
  llm_model = "";
  strip_response_format = false;
  api_key = "";
  bare = λ s. s;
  decode = λ s. subject (some s);
  denylist = record { source = some ("mole" ∷ []); url = ""; fail_closed = false };
  content = λ m. m;
  choice = λ s. s;
  generate = λ model prompt json. generated (some "hello") "";
  complete = λ key model messages format. completed "hello" none;
  printed = λ n. "n";
}

abbrev request : ChatRequest String
request = record { model = none; messages = "hi" ∷ []; response_format = none }

abbrev idle : State
idle = record {
  limiter = record { rpm = 1; tpd = 100; requests = []; tokens = [] };
  cache = empty_cache;
  log = [];
}

revoked : (chat gateway 5 none request (some "mole") 6 idle).0 ≡ fail 403 "mole has been revoked"
unfolding chat caller_id admit chat_as is_revoked
revoked = refl

is_sent : In (sent "agent" "llama3.2:3b") (chat gateway 5 none request (some "agent") 6 idle).1.log
unfolding chat caller_id admit chat_as is_revoked forward forward_to with_call noted model_of
    generated_answer check check_rate check_budget drop_old used_on or_text
is_sent = inr (inl refl)

chat_is_guarded_example :
    In (sent "agent" "llama3.2:3b") [] ⊎ IsAdmitted gateway 5 none (some "agent") idle "agent"
chat_is_guarded_example =
    chat_is_guarded gateway 5 none request (some "agent") 6 "agent" "llama3.2:3b" idle is_sent
