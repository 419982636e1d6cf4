-- ===== src/Tools/Tokens.antt =====
-- sdk/agentnhi/tokens.py: a delegation from a verified token. The decoding of a token with its signature,
-- issuer and audience is a parameter, the JWT library's.
use agent_identity_platform.Common.{
  String, Bool, true, Option, none, some, List, [], ◌∷◌, ◌==◌, not, get_or, is_some, if◌then◌else◌,
}

-- The claims that are read. A key of a nested object that is absent is absent here.
pub record Claims : Type 0 where
  pub preferred_username : Option String
  pub sub : Option String
  pub act_sub : Option String
  pub azp : Option String
  pub realm_roles : List String
  pub roles : List String
  pub tenant : Option String

pub record Delegation : Type 0 where
  pub user : String
  pub workload : String
  pub audience : String
  pub roles : List String
  pub tenant : Option String

-- The settings that `verify` reads.
pub record Settings : Type 0 where
  pub audience : String
  pub trusted_workload : Option String

-- `jwt.decode` raises InvalidAudienceError, another PyJWTError, or returns.
pub data Decoded : Type 0 where
  invalid_audience : Decoded
  invalid_token : String → Decoded
  decoded : Claims → Decoded

-- The four ways to raise TokenRejected.
pub data TokenRejected : Type 0 where
  no_audience : TokenRejected
  wrong_audience : String → TokenRejected
  bad_token : String → TokenRejected
  wrong_workload : Option String → String → TokenRejected

pub data Verified : Type 0 where
  rejected : TokenRejected → Verified
  verified : Delegation → Verified

-- `a or b`, for a text that may be absent.
unfoldable pub or_text : Option String → String → String
or_text none d = d
or_text (some s) d = if s == "" then d else s

-- `a or b`, for lists.
unfoldable pub or_list : List String → List String → List String
or_list [] d = d
or_list (x ∷ xs) d = x ∷ xs

unfoldable pub from_claims : Claims → String → Delegation
unfolding or_text or_list
from_claims claims audience = record {
  user = or_text claims.preferred_username (or_text claims.sub "?");
  workload = or_text claims.act_sub (or_text claims.azp "?");
  audience = audience;
  roles = or_list claims.realm_roles claims.roles;
  tenant = claims.tenant;
}

-- `claims.get("azp") != azp`
unfoldable pub differs : Option String → String → Bool
differs none s = true
differs (some a) s = not (a == s)

module _ (decode : String → String → Decoded) where
  -- The check of `azp` after the token is decoded.
  unfoldable pub accept : Option String → String → Claims → Verified
  unfolding differs from_claims
  accept none audience claims = verified (from_claims claims audience)
  accept (some azp) audience claims =
      if differs claims.azp azp
      then rejected (wrong_workload claims.azp azp)
      else verified (from_claims claims audience)

  -- `verify` with the settings' audience and workload where none are expected.
  unfoldable pub verify : Settings → String → Option String → Option String → Verified
  unfolding accept
  verify settings token expected_audience expected_azp =
      let audience = get_or expected_audience settings.audience in
      let azp = if is_some expected_azp then expected_azp else settings.trusted_workload in
      if audience == "" then rejected no_audience else elim (decode token audience) [
        | invalid_audience ↦ rejected (wrong_audience audience)
        | invalid_token text ↦ rejected (bad_token text)
        | decoded claims ↦ accept azp audience claims
      ]
