-- ===== src/Api/Users.antt =====
-- app/api/admin.py and the enrollment of app/api/auth.py. The identity provider is a state machine over W,
-- with the exceptions of app/api/identity.py; `strip` is a parameter, and a body is the fields that the
-- route reads, an absent or null text "". The log holds the calls that changed accounts and the audit
-- lines, newest first.
pub mod Grants
pub mod Permitted
mod Tests
use Prim.Native.String.{◌++◌ as ◌⧺◌}
use agent_identity_platform.Common.{
  ℕ, String, Bool, true, false, ◌||◌, Option, none, some, List, [], ◌∷◌, ◌==◌, not, contains,
  select, ltb, eqb, if◌then◌else◌,
}
use agent_identity_platform.Common.Http.{Response, fail, answer}
use agent_identity_platform.Agent.Graph.{join}
use agent_identity_platform.Simulators.Data.{Called, raised, returned}
use agent_identity_platform.Tools.Tokens.{Delegation}
use agent_identity_platform.Api.Authz.{Auth, require_roles}

abbrev pub assignable_roles : List String
assignable_roles = "support_rep" ∷ "manager" ∷ "privacy" ∷ "platform_admin" ∷ []

pub record Account : Type 0 where
  pub username : String
  pub email : String
  pub password : String
  pub first_name : String
  pub last_name : String
  pub tenant : String

-- `create_user`: ValueError, HTTPStatusError with its status, or the id.
pub data Created : Type 0 where
  taken : String → Created
  refused : ℕ → Created
  made : String → Created

pub data Act : Type 0 where
  account_created : Account → Act
  role_assigned role_removed : String → String → Act
  enabled_set : String → Bool → Act
  password_set account_deleted : String → Act
  audited : String → String → Act

pub record Provider (W : Type 0) : Type 0 where
  pub create : Account → W → Created × W
  pub assign : String → String → W → Called (Unit {0}) × W
  pub remove : String → String → W → Called (Unit {0}) × W
  pub enable : String → Bool → W → Called (Unit {0}) × W
  pub reset : String → String → W → Called (Unit {0}) × W
  pub delete : String → W → Called (Unit {0}) × W
  pub roles_of : String → W → Called (List String)

pub record State (W : Type 0) : Type 0 where
  pub world : W
  pub log : List Act

-- The configuration: SIGNUP_ENABLED, DEFAULT_TENANT, and the length of a password.
pub record Settings : Type 0 where
  pub signup_enabled : Bool
  pub default_tenant : String
  pub strip : String → String
  pub len : String → ℕ

unfoldable pub or_default : String → String → String
or_default s d = if s == "" then d else s

-- The gate of the router's dependency, before a handler.
unfoldable pub gated :
    {R S : Type 0} → Response Delegation → (Delegation → S → Response R × S) → S → Response R × S
gated (fail code detail) run s = (fail code detail, s)
gated (answer who) run s = run who s

module _ {W : Type 0} (p : Provider W) (settings : Settings) where
  -- A call that changes an account, noted when it succeeded, and the audit line after it.
  unfoldable pub noted :
      {R : Type 0} → Act → Act → Response R → Called (Unit {0}) × W → State W → Response R × State W
  noted act line reply (raised text, w) s = (fail 500 text, record s { world = w })
  noted act line reply (returned u, w) s = (reply, record { world = w; log = line ∷ act ∷ s.log })

  -- What follows a call that did not raise.
  unfoldable pub then_on :
      Called (Unit {0}) × W
      → State W
      → (W → Called (Unit {0}) × State W)
      → Called (Unit {0}) × State W
  then_on (raised text, w) s rest = (raised text, record s { world = w })
  then_on (returned u, w) s rest = rest w

  -- The loop over the roles; an exception leaves it, and then there is no audit line.
  unfoldable pub assign_all : String → List String → State W → Called (Unit {0}) × State W
  unfolding then_on
  assign_all id [] s = (returned tt, s)
  assign_all id (r ∷ roles) s =
      then_on (p.assign id r s.world) s
        (λ w. assign_all id roles (record { world = w; log = role_assigned id r ∷ s.log }))

  -- What `create_user` answers after the loop.
  unfoldable pub with_roles :
      Delegation
      → String
      → List String
      → Called (Unit {0}) × State W
      → Response (String × List String) × State W
  with_roles who id roles (raised text, s) = (fail 500 text, s)
  with_roles who id roles (returned u, s) =
      (answer (id, roles), record s { log = audited "user.created" who.user ∷ s.log })

  unfoldable pub created_by_admin :
      Delegation
      → Account
      → List String
      → Created × W
      → State W
      → Response (String × List String) × State W
  unfolding assign_all with_roles
  created_by_admin who account roles (taken text, w) s = (fail 409 text, record s { world = w })
  created_by_admin who account roles (refused code, w) s =
      (fail 500 "HTTPStatusError", record s { world = w })
  created_by_admin who account roles (made id, w) s =
      with_roles who id roles
        (assign_all id roles (record { world = w; log = account_created account ∷ s.log }))

  -- The account of a body, for a tenant.
  unfoldable pub stripped : Account → String → Account
  stripped body tenant = record {
    username = settings.strip body.username;
    email = settings.strip body.email;
    password = body.password;
    first_name = settings.strip body.first_name;
    last_name = settings.strip body.last_name;
    tenant = tenant;
  }

  unfoldable pub create_user :
      Account → List String → Delegation → State W → Response (String × List String) × State W
  unfolding created_by_admin stripped or_default
  create_user body roles who s =
      let account =
        stripped body (or_default (settings.strip body.tenant) settings.default_tenant) in
      if account.username == "" || account.password == ""
      then (fail 400 "username and password are required", s)
      else created_by_admin who account (select (λ r. contains r assignable_roles) roles)
          (p.create account s.world) s

  unfoldable pub as_response : Called (List String) → Response (List String)
  as_response (raised text) = fail 500 text
  as_response (returned roles) = answer roles

  unfoldable pub grant_role :
      String → String → Delegation → State W → Response (List String) × State W
  unfolding noted as_response
  grant_role id role who s =
      let r = settings.strip role in
      if not (contains r assignable_roles)
      then (fail 400 ("role must be one of: " ⧺ join assignable_roles), s)
      else noted (role_assigned id r) (audited "user.role_granted" who.user)
          (as_response (p.roles_of id (p.assign id r s.world).1)) (p.assign id r s.world) s

  unfoldable pub revoke_role :
      String → String → Delegation → State W → Response (List String) × State W
  unfolding noted as_response
  revoke_role id role who s =
      if not (contains role assignable_roles)
      then (fail 400 "unknown role", s)
      else noted (role_removed id role) (audited "user.role_revoked" who.user)
          (as_response (p.roles_of id (p.remove id role s.world).1)) (p.remove id role s.world) s

  unfoldable pub set_enabled : String → Bool → Delegation → State W → Response Bool × State W
  unfolding noted
  set_enabled id enabled who s =
      noted (enabled_set id enabled)
        (audited (if enabled then "user.enabled" else "user.disabled") who.user) (answer enabled)
        (p.enable id enabled s.world) s

  unfoldable pub reset_password : String → String → Delegation → State W → Response Bool × State W
  unfolding noted
  reset_password id password who s =
      if ltb (settings.len password) 8
      then (fail 400 "password must be at least 8 characters", s)
      else noted (password_set id) (audited "user.password_reset" who.user) (answer true)
          (p.reset id password s.world) s

  unfoldable pub delete_user : String → Delegation → State W → Response Bool × State W
  unfolding noted
  delete_user id who s =
      noted (account_deleted id) (audited "user.deleted" who.user) (answer true)
        (p.delete id s.world) s

  unfoldable pub enrolled : Account → Created × W → State W → Response String × State W
  enrolled account (taken text, w) s = (fail 409 text, record s { world = w })
  enrolled account (refused code, w) s = (
    if eqb code 400
        then fail 400 "password does not meet the realm policy (min 8)"
        else fail 502 "enrollment failed",
    record s { world = w },
  )
  enrolled account (made id, w) s = (
    answer id,
    record {
      world = w;
      log = audited "user.enrolled" account.username ∷ account_created account ∷ s.log;
    },
  )

  -- `enroll`, by the tests whether it is open and whether a field is missing.
  unfoldable pub enroll_when : Bool → Bool → Account → State W → Response String × State W
  unfolding enrolled stripped
  enroll_when false lacking body s = (fail 403 "self-service signup is disabled; ask an admin", s)
  enroll_when true true body s = (fail 400 "username, email and password are required", s)
  enroll_when true false body s =
      let account = stripped body settings.default_tenant in
      enrolled account (p.create account s.world) s

  unfoldable pub enroll : Account → State W → Response String × State W
  unfolding enroll_when
  enroll body s =
      let account = stripped body settings.default_tenant in
      enroll_when settings.signup_enabled
        (account.username == "" || account.email == "" || account.password == "") body s

-- The requests that change accounts, those of the admin routes with the header Authorization.
pub data Request : Type 0 where
  creates : Option String → Account → List String → Request
  grants revokes : Option String → String → String → Request
  enables : Option String → String → Bool → Request
  resets : Option String → String → String → Request
  deletes : Option String → String → Request
  enrolls : Account → Request

module _ {W : Type 0} (auth : Auth) (p : Provider W) (settings : Settings) where
  unfoldable pub require_admin : Option String → Response Delegation
  require_admin header = require_roles auth ("platform_admin" ∷ []) header

  unfoldable pub serve : Request → State W → State W
  unfolding gated require_admin create_user grant_role revoke_role set_enabled reset_password
      delete_user enroll
  serve (creates header body roles) s =
      (gated (require_admin header) (create_user p settings body roles) s).1
  serve (grants header id role) s =
      (gated (require_admin header) (grant_role p settings id role) s).1
  serve (revokes header id role) s =
      (gated (require_admin header) (revoke_role p settings id role) s).1
  serve (enables header id enabled) s =
      (gated (require_admin header) (set_enabled p settings id enabled) s).1
  serve (resets header id password) s =
      (gated (require_admin header) (reset_password p settings id password) s).1
  serve (deletes header id) s = (gated (require_admin header) (delete_user p settings id) s).1
  serve (enrolls body) s = (enroll p settings body s).1

  unfoldable pub serve_all : List Request → State W → State W
  serve_all [] s = s
  serve_all (r ∷ rs) s = serve r (serve_all rs s)
