-- ===== src/Api/Users/Tests.antt =====
-- Requests that change accounts at concrete inputs (app/api/admin.py, app/api/auth.py).
use agent_identity_platform.Common.{
  ℕ, String, refl, ◌⊎◌, inl, inr, true, false, none, some, List, [], ◌∷◌, ◌==◌, In, if◌then◌else◌,
}
use agent_identity_platform.Simulators.Data.{returned}
use agent_identity_platform.Tools.Tokens
use agent_identity_platform.Tools.Workload
use agent_identity_platform.Api.Authz.{Auth, require_roles, holds_any, current_delegation}
use agent_identity_platform.Api.Users.{
  Account, role_assigned, made, Provider, State, Settings, gated, noted, then_on, assign_all,
  with_roles, created_by_admin, stripped, or_default, create_user, grant_role, enrolled,
  enroll_when, enroll, Request, creates, grants, enrolls, require_admin, serve, serve_all,
}
use agent_identity_platform.Api.Users.Permitted.{IsPermitted, serve_all-IsPermitted}

abbrev same : String → String
same s = s

-- One token, of the administrator pat.
abbrev auth : Auth
auth = record {
  settings = record { audience = "api"; trusted_workload = none };
  decode = λ token audience.
      if token == "pat-token"
      then Tokens.decoded (record {
        preferred_username = some "pat";
        sub = none;
        act_sub = none;
        azp = none;
        realm_roles = "platform_admin" ∷ [];
        roles = [];
        tenant = some "acme";
      })
      else Tokens.invalid_token "unknown";
  bare = same;
  token_text = λ why. "rejected";
  identity = record {
    audience = "";
    allowed = [];
    denylist = record { source = none; url = ""; fail_closed = false };
    bare = same;
    decode = λ token audience. Workload.subject (some token);
  };
  workload_text = λ why. "revoked";
}

-- A provider that accepts everything.
abbrev provider : Provider ℕ
provider = record {
  create = λ account w. (made "u-1", w);
  assign = λ id role w. (returned tt, w);
  remove = λ id role w. (returned tt, w);
  enable = λ id enabled w. (returned tt, w);
  reset = λ id password w. (returned tt, w);
  delete = λ id w. (returned tt, w);
  roles_of = λ id w. returned [];
}

abbrev settings : Settings
settings = record { signup_enabled = true; default_tenant = "acme"; strip = same; len = λ s. 8 }

abbrev bella : Account
bella = record {
  username = "bella";
  email = "b@example.com";
  password = "secret-word";
  first_name = "";
  last_name = "";
  tenant = "";
}

abbrev quiet : State ℕ
quiet = record { world = 0; log = [] }

-- The role billing, which the policy knows, cannot be granted, and is dropped from a new account's.
abbrev requests : List Request
requests =
    grants (some "pat-token") "u-1" "billing"
    ∷ creates (some "pat-token") bella ("billing" ∷ "manager" ∷ [])
    ∷ enrolls bella
    ∷ []

is_assigned :
    In (role_assigned "u-1" "manager") (serve_all auth provider settings requests quiet).log
unfolding serve_all serve gated require_admin require_roles holds_any current_delegation
    Tokens.verify grant_role create_user created_by_admin stripped or_default assign_all then_on
    with_roles enroll enroll_when enrolled noted
is_assigned = inr (inl refl)

serve_all-IsPermitted_example :
    In (role_assigned "u-1" "manager") []
    ⊎ ((r : Request) × In r requests × IsPermitted auth settings r (role_assigned "u-1" "manager"))
serve_all-IsPermitted_example =
    serve_all-IsPermitted auth provider settings requests quiet (role_assigned "u-1" "manager")
      is_assigned
