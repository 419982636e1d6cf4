-- ===== src/Tools/Workload.antt =====
-- app/common/workload.py: which workload calls, from its JWT-SVID. The decoding of a token and the removal of
-- its "Bearer " prefix and blanks are parameters.
use agent_identity_platform.Common.{
  ℕ, String, Bool, not, Option, none, some, List, ◌==◌, contains, if◌then◌else◌,
}
use agent_identity_platform.Tools.Revocation.{Setup, Cache, is_revoked}

-- `jwt.decode` raises a PyJWTError, or gives the claim `sub`; a falsy one is none.
pub data Svid : Type 0 where
  invalid : String → Svid
  subject : Option String → Svid

pub data WorkloadRejected : Type 0 where
  missing_token no_audience no_subject : WorkloadRejected
  invalid_token : String → WorkloadRejected
  revoked not_allowed : String → WorkloadRejected

pub data Checked : Type 0 where
  refused : WorkloadRejected → Checked
  known : String → Checked

-- What the environment configures, with the library's decoding: `audience` and `allowed_callers` after
-- their defaults.
pub record Identity : Type 0 where
  pub audience : String
  pub allowed : List String
  pub denylist : Setup
  pub bare : String → String
  pub decode : String → String → Svid

module _ (identity : Identity) (now : ℕ) (fetch : Option (List String)) where
  unfoldable pub enabled : Bool
  enabled = not (identity.audience == "")

  -- The part of `verify` on the decoded token.
  unfoldable pub admit : Svid → Cache → Checked × Cache
  admit (invalid text) c = (refused (invalid_token text), c)
  admit (subject none) c = (refused no_subject, c)
  admit (subject (some id)) c =
      let (hit, next) = is_revoked identity.denylist now fetch id c in
      (if hit then refused (revoked id) else known id, next)

  unfoldable pub verify : Option String → Cache → Checked × Cache
  unfolding admit
  verify none c = (refused missing_token, c)
  verify (some token) c =
      if token == ""
      then (refused missing_token, c)
      else if identity.audience == ""
      then (refused no_audience, c)
      else admit (identity.decode (identity.bare token) identity.audience) c

  unfoldable pub allow_listed : Checked → Checked
  allow_listed (refused why) = refused why
  allow_listed (known id) =
      if contains id identity.allowed then known id else refused (not_allowed id)

  unfoldable pub check : Option String → Cache → Checked × Cache
  unfolding verify allow_listed
  check token c = let (found, next) = verify token c in (allow_listed found, next)
