-- ===== src/Tools/Enforcement/Scope.antt =====
-- What the policy server is asked (app/tools/enforcement.py, sdk/agentnhi/policy.py).
use agent_identity_platform.Common.{String, ◌≡◌, Option, none, some, [], ◌∷◌, Dict, lookup}
use agent_identity_platform.Common.Values.{Values}
use agent_identity_platform.Tools.Tokens
use agent_identity_platform.Tools.Tokens.{Delegation}
use agent_identity_platform.Tools.Policy
use agent_identity_platform.Tools.Enforcement

-- No key stands twice.
abbrev pub IsUnique : {V : Type 0} → Dict V → Type 0
IsUnique [] = Unit
IsUnique ((k, v) ∷ d) = (lookup k d ≡ none) × IsUnique d

module _ {V R W : Type 0} (py : Values V) (e : Enforcement.Enforcer V R W) where
  -- The document for the policy server.
  abbrev asked : Delegation → String → Dict V → Dict V
  asked who name args =
      Policy.input_doc py.text who.workload who.user name (Enforcement.context_of py e who args)

  -- The value of the identity's tenant.
  abbrev tenant_value : Option String → V
  tenant_value none = py.null
  tenant_value (some t) = py.text t

  -- The document holds the identity.
  abbrev pub IsAbout : Delegation → String → Dict V → Type 0
  IsAbout who name doc =
      (lookup "agent" doc ≡ some (py.text who.workload))
      × (lookup "user" doc ≡ some (py.text who.user))
      × (lookup "tool" doc ≡ some (py.text name))
      × (lookup "roles" doc ≡ some (e.texts who.roles))
      × (lookup "tenant" doc ≡ some (tenant_value who.tenant))

  -- The tool declares no argument of a name that policy reads for the identity.
  abbrev pub IsUnreserved : Enforcement.Tool V R W → Type 0
  IsUnreserved tool =
      (lookup "agent" tool.properties ≡ none)
      × (lookup "user" tool.properties ≡ none)
      × (lookup "tool" tool.properties ≡ none)
      × (lookup "roles" tool.properties ≡ none)
      × (lookup "tenant" tool.properties ≡ none)
