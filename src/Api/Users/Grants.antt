-- ===== src/Api/Users/Grants.antt =====
-- Who can have changed an account, and which roles were given (app/api/admin.py, app/api/auth.py).
use mathlib.Core.Path.{subst}
use agent_identity_platform.Common.{
  String, ◌≡◌, refl, sym, ◌⊎◌, inl, inr, true, List, [], ◌∷◌, ◌==◌, ◌||◌, In, contains, select,
  select→In, Bool-cases,
}
use agent_identity_platform.Common.Http.{Response, fail, answer}
use agent_identity_platform.Simulators.Data.{Called, raised, returned}
use agent_identity_platform.Tools.Tokens.{Delegation}
use agent_identity_platform.Api.Users.{
  Account, Act, account_created, role_assigned, audited, Created, taken, refused, made, Provider,
  State, Settings, assignable_roles, gated, noted, then_on, assign_all, with_roles,
  created_by_admin, stripped, or_default, create_user, enrolled,
}

-- The acts between two states are all of a kind.
abbrev pub Adds : {W : Type 0} → (Act → Type 0) → State W → State W → Type 0
Adds P s t = (act : Act) → In act t.log → In act s.log ⊎ P act

pub gated-Adds :
    {R W : Type 0} (P : Act → Type 0) (m : Response Delegation)
    (run : Delegation → State W → Response R × State W) (s : State W)
    → ((who : Delegation) → m ≡ answer who → Adds P s (run who s).1)
    → Adds P s (gated m run s).1
unfolding gated
gated-Adds P (fail code detail) run s h act i = inl i
gated-Adds P (answer who) run s h act i = h who refl act i

module _ {W : Type 0} (p : Provider W) (settings : Settings) where
  pub noted-Adds :
      {R : Type 0} (P : Act → Type 0) (act line : Act) (reply : Response R)
      (o : Called (Unit {0}) × W) (s : State W)
      → P act
      → P line
      → Adds P s (noted p settings act line reply o s).1
  unfolding noted
  noted-Adds P act line reply (raised text, w) s a l x i = inl i
  noted-Adds P act line reply (returned u, w) s a l x (inl e) = inr (subst P (sym e) l)
  noted-Adds P act line reply (returned u, w) s a l x (inr (inl e)) = inr (subst P (sym e) a)
  noted-Adds P act line reply (returned u, w) s a l x (inr (inr i)) = inl i

  assign_all-Adds :
      (P : Act → Type 0) (id : String) (roles : List String) (s : State W)
      → ((r : String) → In r roles → P (role_assigned id r))
      → Adds P s (assign_all p settings id roles s).1
  unfolding assign_all then_on
  assign_all-Adds P id [] s h act = λ i. inl i
  assign_all-Adds P id (r ∷ roles) s h act = by_call (p.assign id r s.world) (λ w.
      assign_all-Adds P id roles (record { world = w; log = role_assigned id r ∷ s.log })
        (λ x j. h x (inr j)) act)
    where
      by_call :
          (o : Called (Unit {0}) × W)
          → ((w : W)
              → In act
                  (assign_all p settings id roles
                    (record { world = w; log = role_assigned id r ∷ s.log })).1.log
              → In act (role_assigned id r ∷ s.log) ⊎ P act)
          → In act
              (then_on p settings o s (λ w.
                assign_all p settings id roles
                  (record { world = w; log = role_assigned id r ∷ s.log }))).1.log
          → In act s.log ⊎ P act
      by_call (raised text, w) rest i = inl i
      by_call (returned u, w) rest i = elim (rest w i) [
        | inl (inl e) ↦ inr (subst P (sym e) (h r (inl refl)))
        | inl (inr j) ↦ inl j
        | inr x ↦ inr x
      ]

  with_roles-log :
      (who : Delegation) (id : String) (roles : List String) (r : Called (Unit {0}) × State W)
      (act : Act)
      → In act (with_roles p settings who id roles r).1.log
      → In act r.1.log ⊎ (act ≡ audited "user.created" who.user)
  unfolding with_roles
  with_roles-log who id roles (raised text, s) act i = inl i
  with_roles-log who id roles (returned u, s) act (inl e) = inr e
  with_roles-log who id roles (returned u, s) act (inr i) = inl i

  created_by_admin-Adds :
      (P : Act → Type 0) (who : Delegation) (account : Account) (roles : List String)
      (o : Created × W) (s : State W)
      → P (account_created account)
      → ((id r : String) → In r roles → P (role_assigned id r))
      → P (audited "user.created" who.user)
      → Adds P s (created_by_admin p settings who account roles o s).1
  unfolding created_by_admin
  created_by_admin-Adds P who account roles (taken text, w) s a h l act i = inl i
  created_by_admin-Adds P who account roles (refused code, w) s a h l act i = inl i
  created_by_admin-Adds P who account roles (made id, w) s a h l act i =
      let s' : State W = record { world = w; log = account_created account ∷ s.log } in
      elim (with_roles-log who id roles (assign_all p settings id roles s') act i) [
        | inr e ↦ inr (subst P (sym e) l)
        | inl j ↦ elim (assign_all-Adds P id roles s' (h id) act j) [
          | inl (inl e) ↦ inr (subst P (sym e) a)
          | inl (inr k) ↦ inl k
          | inr x ↦ inr x
        ]
      ]

  pub create_user-Adds :
      (P : Act → Type 0) (body : Account) (roles : List String) (who : Delegation) (s : State W)
      → ((account : Account) → P (account_created account))
      → ((id r : String) → contains r assignable_roles ≡ true → P (role_assigned id r))
      → P (audited "user.created" who.user)
      → Adds P s (create_user p settings body roles who s).1
  unfolding create_user
  create_user-Adds P body roles who s a h l act =
      let account =
        stripped p settings body
          (or_default (settings.strip body.tenant) settings.default_tenant) in
      let allowed = select (λ r. contains r assignable_roles) roles in
      elim (Bool-cases (account.username == "" || account.password == "")) [
        | inl e ↦ rw (e, create_user) (λ i. inl i)
        | inr e ↦
            rw (e, create_user)
              (created_by_admin-Adds P who account allowed (p.create account s.world) s (a account)
                (λ id r j. h id r (select→In (λ x. contains x assignable_roles) r roles j).1) l act)
      ]

  pub enrolled-Adds :
      (P : Act → Type 0) (account : Account) (o : Created × W) (s : State W)
      → P (account_created account)
      → P (audited "user.enrolled" account.username)
      → Adds P s (enrolled p settings account o s).1
  unfolding enrolled
  enrolled-Adds P account (taken text, w) s a l act i = inl i
  enrolled-Adds P account (refused code, w) s a l act i = inl i
  enrolled-Adds P account (made id, w) s a l act (inl e) = inr (subst P (sym e) l)
  enrolled-Adds P account (made id, w) s a l act (inr (inl e)) = inr (subst P (sym e) a)
  enrolled-Adds P account (made id, w) s a l act (inr (inr i)) = inl i
