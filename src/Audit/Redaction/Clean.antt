-- ===== src/Audit/Redaction/Clean.antt =====
-- What an emitted audit record may hold (sdk/agentnhi/audit.py).
use mathlib.Core.Path.{subst}
use agent_identity_platform.Common.{
  String, ◌≡◌, refl, sym, ap, ◌∙◌, inl, inr, true, false, ◌==◌, arith, eq_iff, Bool-cases,
}
use agent_identity_platform.Audit.Redaction.{
  Value, str, dict, items, other, Fields, end, field, Items, nil, cons, Patterns, is_pii_key,
  redact_string, under_key, redact, redact_fields, redact_items, set_field, update, audit, redacted,
  redacted_pii,
}

-- Under the name of a credential stands one marker, under that of personal data the other.
abbrev pub IsMarked : {A : Type 0} → Patterns → String → Value A → Type 0
IsMarked p k v =
    (p.secret k ≡ true → v ≡ str redacted)
    × (p.secret k ≡ false → is_pii_key p k ≡ true → v ≡ str redacted_pii)

-- Neither substitution finds anything in the text.
abbrev pub IsMasked : Patterns → String → Type 0
IsMasked p s = (p.mask_jwt s ≡ s) × (p.mask_bearer s ≡ s)

-- At every depth the fields are marked, and no text has anything for the substitutions.
abbrev mutual
  pub IsClean : {A : Type 0} → Patterns → Value A → Type 0
  IsClean p (str s) = IsMasked p s
  IsClean p (dict fs) = IsCleanFields p fs
  IsClean p (items xs) = IsCleanItems p xs
  IsClean p (other a) = Unit

  pub IsCleanFields : {A : Type 0} → Patterns → Fields A → Type 0
  IsCleanFields p end = Unit
  IsCleanFields p (field k v fs) = (IsMarked p k v × IsClean p v) × IsCleanFields p fs

  pub IsCleanItems : {A : Type 0} → Patterns → Items A → Type 0
  IsCleanItems p nil = Unit
  IsCleanItems p (cons v xs) = IsClean p v × IsCleanItems p xs

-- Neither substitution leaves anything for itself, the second one leaves nothing for the first, and both
-- leave the markers alone.
pub record IsMasking (p : Patterns) : Type 0 where
  pub jwt : (s : String) → p.mask_jwt (p.mask_bearer (p.mask_jwt s)) ≡ p.mask_bearer (p.mask_jwt s)
  pub bearer : (s : String) → p.mask_bearer (p.mask_bearer s) ≡ p.mask_bearer s
  pub marker : IsMasked p redacted
  pub pii_marker : IsMasked p redacted_pii

under_key-IsMarked :
    {A : Type 0} (p : Patterns) (k : String) (v : Value A) → IsMarked p k (under_key p k v)
unfolding under_key
under_key-IsMarked p k v = (λ e. rw e refl, λ e f. rw (e, f) refl)

under_key-IsClean :
    {A : Type 0} (p : Patterns) (k : String) (v : Value A)
    → IsMasking p
    → IsClean p v
    → IsClean p (under_key p k v)
unfolding under_key
under_key-IsClean p k v m h = elim (Bool-cases (p.secret k)) [
  | inl e ↦ rw e (m.marker)
  | inr e ↦ elim (Bool-cases (is_pii_key p k)) [
    | inl f ↦ rw (e, f) (m.pii_marker)
    | inr f ↦ rw (e, f) h
  ]
]

mutual
  unfolding redact redact_fields redact_items redact_string

  redact-IsClean : {A : Type 0} (p : Patterns) (v : Value A) → IsMasking p → IsClean p (redact p v)
  redact-IsClean p (str s) m = (m.jwt s, m.bearer (p.mask_jwt s))
  redact-IsClean p (dict fs) m = redact_fields-IsClean p fs m
  redact-IsClean p (items xs) m = redact_items-IsClean p xs m
  redact-IsClean p (other a) m = tt

  redact_fields-IsClean :
      {A : Type 0} (p : Patterns) (fs : Fields A)
      → IsMasking p
      → IsCleanFields p (redact_fields p fs)
  redact_fields-IsClean p end m = tt
  redact_fields-IsClean p (field k v fs) m = (
    (
      under_key-IsMarked p k (redact p v),
      under_key-IsClean p k (redact p v) m (redact-IsClean p v m),
    ),
    redact_fields-IsClean p fs m,
  )

  redact_items-IsClean :
      {A : Type 0} (p : Patterns) (xs : Items A) → IsMasking p → IsCleanItems p (redact_items p xs)
  redact_items-IsClean p nil m = tt
  redact_items-IsClean p (cons v xs) m = (redact-IsClean p v m, redact_items-IsClean p xs m)

set_field-IsClean :
    {A : Type 0} (p : Patterns) (k : String) (v : Value A) (fs : Fields A)
    → IsMarked p k v × IsClean p v
    → IsCleanFields p fs
    → IsCleanFields p (set_field k v fs)
unfolding set_field
set_field-IsClean p k v end h hs = (h, tt)
set_field-IsClean p k v (field j w fs) h (g, hs) = elim (Bool-cases (j == k)) [
  | inl e ↦ rw e ((subst (λ i. IsMarked p i v) (sym ((eq_iff j k).0 e)) h.0, h.1), hs)
  | inr e ↦ rw e (g, set_field-IsClean p k v fs h hs)
]

update-IsClean :
    {A : Type 0} (p : Patterns) (d fs : Fields A)
    → IsCleanFields p d
    → IsCleanFields p fs
    → IsCleanFields p (update d fs)
unfolding update
update-IsClean p d end h hs = h
update-IsClean p d (field k v fs) h (g, hs) =
    update-IsClean p (set_field k v d) fs (set_field-IsClean p k v d g h) hs

under_key_marked :
    {A : Type 0} (p : Patterns) (k : String) (v : Value A) → IsMarked p k v → under_key p k v ≡ v
unfolding under_key
under_key_marked p k v (h, g) = elim (Bool-cases (p.secret k)) [
  | inl e ↦ rw e (sym (h e))
  | inr e ↦ elim (Bool-cases (is_pii_key p k)) [
    | inl f ↦ rw (e, f) (sym (g e f))
    | inr f ↦ rw (e, f) refl
  ]
]

mutual
  unfolding redact redact_fields redact_items redact_string

  redact_clean : {A : Type 0} (p : Patterns) (v : Value A) → IsClean p v → redact p v ≡ v
  redact_clean p (str s) h = ap str (ap p.mask_bearer h.0 ∙ h.1)
  redact_clean p (dict fs) h = ap dict (redact_fields_clean p fs h)
  redact_clean p (items xs) h = ap items (redact_items_clean p xs h)
  redact_clean p (other a) h = refl

  redact_fields_clean :
      {A : Type 0} (p : Patterns) (fs : Fields A) → IsCleanFields p fs → redact_fields p fs ≡ fs
  redact_fields_clean p end h = refl
  redact_fields_clean p (field k v fs) (h, hs) =
      ap (λ w. field k (under_key p k w) (redact_fields p fs)) (redact_clean p v h.1)
      ∙ ap (λ w. field k w (redact_fields p fs)) (under_key_marked p k v h.0)
      ∙ ap (field k v) (redact_fields_clean p fs hs)

  redact_items_clean :
      {A : Type 0} (p : Patterns) (xs : Items A) → IsCleanItems p xs → redact_items p xs ≡ xs
  redact_items_clean p nil h = refl
  redact_items_clean p (cons v xs) (h, hs) =
      ap (λ w. cons w (redact_items p xs)) (redact_clean p v h)
      ∙ ap (cons v) (redact_items_clean p xs hs)

-- An emitted record, whatever the fields of the call, has only the marker of a credential under a name
-- that looks like one and only the marker of personal data under another name of such data, at any depth of
-- dictionaries and lists, and no text in it that either substitution would still change; and redacting it
-- again changes nothing. The substitutions are such that a masked text and the markers have nothing for
-- either of them, the event's name is such a text too, and the names `ts` and `event` are neither those
-- of a credential nor of personal data.
pub audit-IsClean :
    {A : Type 0} (p : Patterns) (ts : A) (event : String) (fields : Fields A)
    → IsMasking p
    → IsMasked p event
    → p.secret "ts" ≡ false
    → p.secret "event" ≡ false
    → is_pii_key p "ts" ≡ false
    → is_pii_key p "event" ≡ false
    → IsCleanFields p (audit p ts event fields)
      × (redact_fields p (audit p ts event fields) ≡ audit p ts event fields)
unfolding audit
audit-IsClean p ts event fields m e t s pt ps =
    let start : IsCleanFields p (field "ts" (other ts) (field "event" (str event) end)) = (
      ((λ h. ground (arith, h, t), λ h g. ground (arith, g, pt)), tt),
      (((λ h. ground (arith, h, s), λ h g. ground (arith, g, ps)), e), tt),
    ) in
    let clean =
      update-IsClean p (field "ts" (other ts) (field "event" (str event) end))
        (redact_fields p fields) start (redact_fields-IsClean p fields m) in
    (clean, redact_fields_clean p (audit p ts event fields) clean)
