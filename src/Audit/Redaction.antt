-- ===== src/Audit/Redaction.antt =====
-- sdk/agentnhi/audit.py: an audit record without secrets and personal data. The regular expressions and
-- `strip().lower()` are parameters; other values than texts, dictionaries and lists are those of A.
pub mod Clean
use agent_identity_platform.Common.{
  String, Bool, true, false, ◌||◌, Option, none, some, List, [], ◌∷◌, ◌==◌, contains, if◌then◌else◌,
}

-- `_PII_KEYS`
abbrev pub pii_keys : List String
pii_keys =
    "name" ∷ "full_name" ∷ "first_name" ∷ "last_name" ∷ "customer_name" ∷ "username" ∷ "email"
    ∷ "email_address" ∷ "phone" ∷ "phone_number" ∷ "ssn" ∷ "tax_id" ∷ "address" ∷ "street" ∷ "city"
    ∷ "postal_code" ∷ "zip" ∷ "dob" ∷ "date_of_birth" ∷ "card" ∷ "card_number" ∷ "pan" ∷ "cvv"
    ∷ "cvc" ∷ "iban" ∷ "account_number" ∷ "routing_number" ∷ []

abbrev pub redacted : String
redacted = "[REDACTED]"

abbrev pub redacted_pii : String
redacted_pii = "[REDACTED:pii]"

mutual
  pub data Value (A : Type 0) : Type 0 where
    str : String → Value A
    dict : Fields A → Value A
    items : Items A → Value A
    other : A → Value A

  pub data Fields (A : Type 0) : Type 0 where
    end : Fields A
    field : String → Value A → Fields A → Fields A

  pub data Items (A : Type 0) : Type 0 where
    nil : Items A
    cons : Value A → Items A → Items A

-- The searches and substitutions, and the registered extra keys.
pub record Patterns : Type 0 where
  -- `_SECRET_KEY_RE.search(key)`
  pub secret : String → Bool
  -- `key.strip().lower()`
  pub folded : String → String
  -- `_JWT_RE.sub(...)` and `_BEARER_RE.sub(...)`
  pub mask_jwt : String → String
  pub mask_bearer : String → String
  pub extra_keys : List String

unfoldable pub is_pii_key : Patterns → String → Bool
is_pii_key p key = contains (p.folded key) pii_keys || contains (p.folded key) p.extra_keys

unfoldable pub redact_string : Patterns → String → String
redact_string p value = p.mask_bearer (p.mask_jwt value)

-- The two tests on a key, before what the value gives.
unfoldable pub under_key : {A : Type 0} → Patterns → String → Value A → Value A
unfolding is_pii_key
under_key p key v =
    if p.secret key then str redacted else if is_pii_key p key then str redacted_pii else v

-- `redact` without a key.
unfoldable mutual
  unfolding under_key redact_string

  pub redact : {A : Type 0} → Patterns → Value A → Value A
  redact p (str s) = str (redact_string p s)
  redact p (dict fs) = dict (redact_fields p fs)
  redact p (items xs) = items (redact_items p xs)
  redact p (other a) = other a

  pub redact_fields : {A : Type 0} → Patterns → Fields A → Fields A
  redact_fields p end = end
  redact_fields p (field k v fs) = field k (under_key p k (redact p v)) (redact_fields p fs)

  pub redact_items : {A : Type 0} → Patterns → Items A → Items A
  redact_items p nil = nil
  redact_items p (cons v xs) = cons (redact p v) (redact_items p xs)

-- `d[k] = v`
unfoldable pub set_field : {A : Type 0} → String → Value A → Fields A → Fields A
set_field k v end = field k v end
set_field k v (field j w fs) =
    let rest = set_field k v fs in if j == k then field j v fs else field j w rest

-- `record.update(fields)`
unfoldable pub update : {A : Type 0} → Fields A → Fields A → Fields A
unfolding set_field
update d end = d
update d (field k v fs) = update (set_field k v d) fs

-- `audit`, the time an argument: the record that is emitted and returned.
unfoldable pub audit : {A : Type 0} → Patterns → A → String → Fields A → Fields A
unfolding redact_fields update
audit p ts event fields =
    update (field "ts" (other ts) (field "event" (str event) end)) (redact_fields p fields)
