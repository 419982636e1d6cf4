-- ===== src/Api/Users/Permitted.antt =====
-- Which request can have caused which change of an account (app/api/admin.py, app/api/auth.py).
use agent_identity_platform.Common.{
  String, Bool, ◌≡◌, refl, ◌⊎◌, inl, inr, true, false, Option, List, [], ◌∷◌, ◌==◌, ◌||◌, In,
  contains, Bool-cases, ltb, if◌then◌else◌,
}
use agent_identity_platform.Common.Http.{answer}
use agent_identity_platform.Tools.Tokens.{Delegation}
use agent_identity_platform.Api.Authz.{Auth, current_delegation}
use agent_identity_platform.Api.Main.Grants.{require_one_role}
use agent_identity_platform.Api.Users.{
  Account, Act, account_created, role_assigned, role_removed, enabled_set, password_set,
  account_deleted, audited, Provider, State, Settings, assignable_roles, stripped, create_user,
  grant_role, as_response, revoke_role, set_enabled, reset_password, delete_user, enroll_when,
  enroll, Request, creates, grants, revokes, enables, resets, deletes, enrolls, require_admin,
  serve, serve_all,
}
use agent_identity_platform.Api.Users.Grants.{
  Adds, gated-Adds, noted-Adds, create_user-Adds, enrolled-Adds,
}

-- The header is a token that verifies, of an administrator.
abbrev pub IsAdmin : Auth → Option String → Type 0
IsAdmin auth header =
    (who : Delegation) × (current_delegation auth header ≡ answer who)
    × (contains "platform_admin" who.roles ≡ true)

-- The request is one of an administrator.
abbrev pub IsByAdmin : Auth → Request → Type 0
IsByAdmin auth (creates header body roles) = IsAdmin auth header
IsByAdmin auth (grants header id role) = IsAdmin auth header
IsByAdmin auth (revokes header id role) = IsAdmin auth header
IsByAdmin auth (enables header id enabled) = IsAdmin auth header
IsByAdmin auth (resets header id password) = IsAdmin auth header
IsByAdmin auth (deletes header id) = IsAdmin auth header
IsByAdmin auth (enrolls body) = ⊥

-- An enrollment, while it is open, of an account of the configured tenant.
abbrev pub IsEnrollment : Settings → Request → Account → Type 0
IsEnrollment settings (enrolls body) account =
    (settings.signup_enabled ≡ true) × (account.tenant ≡ settings.default_tenant)
IsEnrollment settings _ account = ⊥

abbrev pub IsPermitted : Auth → Settings → Request → Act → Type 0
IsPermitted auth settings r (account_created account) =
    IsByAdmin auth r ⊎ IsEnrollment settings r account
IsPermitted auth settings r (role_assigned id role) =
    (contains role assignable_roles ≡ true) × IsByAdmin auth r
IsPermitted auth settings r (role_removed id role) =
    (contains role assignable_roles ≡ true) × IsByAdmin auth r
IsPermitted auth settings r (enabled_set id enabled) = IsByAdmin auth r
IsPermitted auth settings r (password_set id) = IsByAdmin auth r
IsPermitted auth settings r (account_deleted id) = IsByAdmin auth r
IsPermitted auth settings r (audited event who) = Unit

module _ {W : Type 0} (auth : Auth) (p : Provider W) (settings : Settings) where
  require_admin-IsAdmin :
      (header : Option String) (who : Delegation)
      → require_admin auth p settings header ≡ answer who
      → IsAdmin auth header
  unfolding require_admin
  require_admin-IsAdmin header who e =
      let (token, held) = require_one_role auth "platform_admin" header who e in (who, token, held)

  grant_role-Adds :
      (P : Act → Type 0) (id role : String) (who : Delegation) (s : State W)
      → ((r : String) → contains r assignable_roles ≡ true → P (role_assigned id r))
      → P (audited "user.role_granted" who.user)
      → Adds P s (grant_role p settings id role who s).1
  unfolding grant_role
  grant_role-Adds P id role who s h l act =
      let r = settings.strip role in
      let done = p.assign id r s.world in
      elim (Bool-cases (contains r assignable_roles)) [
        | inr e ↦ rw (e, grant_role) (λ i. inl i)
        | inl e ↦
            rw (e, grant_role)
              (noted-Adds p settings P (role_assigned id r) (audited "user.role_granted" who.user)
                (as_response p settings (p.roles_of id done.1)) done s (h r e) l act)
      ]

  revoke_role-Adds :
      (P : Act → Type 0) (id role : String) (who : Delegation) (s : State W)
      → (contains role assignable_roles ≡ true → P (role_removed id role))
      → P (audited "user.role_revoked" who.user)
      → Adds P s (revoke_role p settings id role who s).1
  unfolding revoke_role
  revoke_role-Adds P id role who s h l act =
      let done = p.remove id role s.world in
      elim (Bool-cases (contains role assignable_roles)) [
        | inr e ↦ rw (e, revoke_role) (λ i. inl i)
        | inl e ↦
            rw (e, revoke_role)
              (noted-Adds p settings P (role_removed id role) (audited "user.role_revoked" who.user)
                (as_response p settings (p.roles_of id done.1)) done s (h e) l act)
      ]

  reset_password-Adds :
      (P : Act → Type 0) (id password : String) (who : Delegation) (s : State W)
      → P (password_set id)
      → P (audited "user.password_reset" who.user)
      → Adds P s (reset_password p settings id password who s).1
  unfolding reset_password
  reset_password-Adds P id password who s h l act =
      elim (Bool-cases (ltb (settings.len password) 8)) [
        | inl e ↦ rw (e, reset_password) (λ i. inl i)
        | inr e ↦
            rw (e, reset_password)
              (noted-Adds p settings P (password_set id) (audited "user.password_reset" who.user)
                (answer true) (p.reset id password s.world) s h l act)
      ]

  enroll_when-Adds :
      (is_open lacking : Bool) (body : Account) (s : State W)
      → settings.signup_enabled ≡ is_open
      → Adds
          (IsPermitted auth settings (enrolls body))
          s
          (enroll_when p settings is_open lacking body s).1
  unfolding enroll_when stripped
  enroll_when-Adds false lacking body s e act i = inl i
  enroll_when-Adds true true body s e act i = inl i
  enroll_when-Adds true false body s e act i =
      let account = stripped p settings body settings.default_tenant in
      enrolled-Adds p settings (IsPermitted auth settings (enrolls body)) account
        (p.create account s.world) s (inr (e, refl)) tt act i

  enroll-Adds :
      (body : Account) (s : State W)
      → Adds (IsPermitted auth settings (enrolls body)) s (enroll p settings body s).1
  unfolding enroll
  enroll-Adds body s act =
      let account = stripped p settings body settings.default_tenant in
      enroll_when-Adds settings.signup_enabled
        (account.username == "" || account.email == "" || account.password == "") body s refl act

  serve-Adds :
      (r : Request) (s : State W) → Adds (IsPermitted auth settings r) s (serve auth p settings r s)
  unfolding serve set_enabled delete_user
  serve-Adds (creates header body roles) s =
      gated-Adds (IsPermitted auth settings (creates header body roles))
        (require_admin auth p settings header) (create_user p settings body roles) s
        (λ who e.
          create_user-Adds p settings (IsPermitted auth settings (creates header body roles)) body
            roles who s (λ account. inl (require_admin-IsAdmin header who e))
            (λ id x h. (h, require_admin-IsAdmin header who e)) tt)
  serve-Adds (grants header id role) s =
      gated-Adds (IsPermitted auth settings (grants header id role))
        (require_admin auth p settings header) (grant_role p settings id role) s
        (λ who e.
          grant_role-Adds (IsPermitted auth settings (grants header id role)) id role who s
            (λ x h. (h, require_admin-IsAdmin header who e)) tt)
  serve-Adds (revokes header id role) s =
      gated-Adds (IsPermitted auth settings (revokes header id role))
        (require_admin auth p settings header) (revoke_role p settings id role) s
        (λ who e.
          revoke_role-Adds (IsPermitted auth settings (revokes header id role)) id role who s
            (λ h. (h, require_admin-IsAdmin header who e)) tt)
  serve-Adds (enables header id enabled) s =
      gated-Adds (IsPermitted auth settings (enables header id enabled))
        (require_admin auth p settings header) (set_enabled p settings id enabled) s
        (λ who e.
          noted-Adds p settings (IsPermitted auth settings (enables header id enabled))
            (enabled_set id enabled)
            (audited (if enabled then "user.enabled" else "user.disabled") who.user)
            (answer enabled) (p.enable id enabled s.world) s (require_admin-IsAdmin header who e)
            tt)
  serve-Adds (resets header id password) s =
      gated-Adds (IsPermitted auth settings (resets header id password))
        (require_admin auth p settings header) (reset_password p settings id password) s
        (λ who e.
          reset_password-Adds (IsPermitted auth settings (resets header id password)) id password
            who s (require_admin-IsAdmin header who e) tt)
  serve-Adds (deletes header id) s =
      gated-Adds (IsPermitted auth settings (deletes header id))
        (require_admin auth p settings header) (delete_user p settings id) s
        (λ who e.
          noted-Adds p settings (IsPermitted auth settings (deletes header id)) (account_deleted id)
            (audited "user.deleted" who.user) (answer true) (p.delete id s.world) s
            (require_admin-IsAdmin header who e) tt)
  serve-Adds (enrolls body) s = enroll-Adds body s

  -- Whatever requests are answered, each change of an account that was made in answering them was made for
  -- one of them that permits it: only an administrator's request assigns or removes a role, and only a role
  -- of the assignable ones; only an administrator's request enables, disables or deletes an account or
  -- sets its password; and an account is created by an administrator's request, or by an enrollment
  -- while that is open, and then in the configured tenant.
  pub serve_all-IsPermitted :
      (requests : List Request) (s : State W) (act : Act)
      → In act (serve_all auth p settings requests s).log
      → In act s.log ⊎ ((r : Request) × In r requests × IsPermitted auth settings r act)
  unfolding serve_all
  serve_all-IsPermitted [] s act i = inl i
  serve_all-IsPermitted (r ∷ rs) s act i =
      elim (serve-Adds r (serve_all auth p settings rs s) act i) [
        | inr h ↦ inr (r, inl refl, h)
        | inl j ↦ elim (serve_all-IsPermitted rs s act j) [
          | inl k ↦ inl k
          | inr (q, m, h) ↦ inr (q, inr m, h)
        ]
      ]
