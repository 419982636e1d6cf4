-- ===== src/Approvals/Binding.antt =====
-- What the comparison of arguments in `verify` (app/approvals/store.py) means: two dictionaries pass
-- it when they hold the same keys with equal values, whatever the order.
use agent_identity_platform.Common.{
  ◌≤◌, ◌<◌, String, ◌≡◌, refl, sym, ◌∙◌, inl, inr, Bool, true, Option, none, some, [], ◌∷◌, ◌↔◌,
  arith, eq_iff, Dict, lookup, erase, lookup-erase, length, ◌==◌, Option-cases, Bool-cases,
}
use agent_identity_platform.Approvals.Args.{normalize, is_within, dict_eq, dict_eq-normalize}

module _ {V : Type 0} where
  -- No key occurs twice, as in every Python dictionary.
  abbrev pub Distinct : Dict V → Type 0
  Distinct [] = Unit
  Distinct ((k, v) ∷ d) = (lookup k d ≡ none) × Distinct d

  -- Both keys are missing, or both are there with values that compare equal.
  abbrev pub Agrees : (V → V → Bool) → Option V → Option V → Type 0
  Agrees eqv none none = Unit
  Agrees eqv (some v) (some w) = eqv v w ≡ true
  Agrees eqv _ _ = ⊥

  length-erase_le : (k : String) (b : Dict V) → length (erase k b) ≤ length b
  length-erase_le k [] = omega arith
  length-erase_le k ((j, w) ∷ b) = ground (arith, length-erase_le k b)

  length-erase_lt :
      (k : String) (w : V) (b : Dict V) → lookup k b ≡ some w → length (erase k b) < length b
  length-erase_lt k w [] e = ground arith
  length-erase_lt k w ((j, x) ∷ b) e = ground (arith, length-erase_lt k w b, length-erase_le k b)

  is_within-erase :
      (eqv : V → V → Bool) (k : String) (a b : Dict V)
      → lookup k a ≡ none
      → is_within eqv a b ≡ true
      → is_within eqv a (erase k b) ≡ true
  unfolding is_within
  is_within-erase eqv k [] b n h = refl
  is_within-erase eqv k ((j, v) ∷ a) b n h =
      ground (arith, lookup-erase k j b, eq_iff j k, eq_iff k j, is_within-erase eqv k a b)

  is_within-head :
      (eqv : V → V → Bool) (k : String) (v : V) (a b : Dict V)
      → is_within eqv ((k, v) ∷ a) b ≡ true
      → (w : V) × (lookup k b ≡ some w) × (eqv v w ≡ true) × (is_within eqv a b ≡ true)
  unfolding is_within
  is_within-head eqv k v a b h = elim (Option-cases (lookup k b)) [
    | inl e ↦ ground arith
    | inr (w, e) ↦ (w, e, ground arith, ground arith)
  ]

  length-le_of_within :
      (eqv : V → V → Bool) (a b : Dict V)
      → Distinct a
      → is_within eqv a b ≡ true
      → length a ≤ length b
  length-le_of_within eqv [] b d h = omega arith
  length-le_of_within eqv ((k, v) ∷ a) b d h =
      let (w, e, _, t) = is_within-head eqv k v a b h in
      omega (
        arith,
        length-erase_lt k w b e,
        length-le_of_within eqv a (erase k b) d.1 (is_within-erase eqv k a b d.0 t),
      )

  -- A key that only the second dictionary holds would make it longer.
  missing_both :
      (eqv : V → V → Bool) (k : String) (a b : Dict V)
      → Distinct a
      → is_within eqv a b ≡ true
      → length a ≡ length b
      → lookup k a ≡ none
      → lookup k b ≡ none
  missing_both eqv k a b d h l n = elim (Option-cases (lookup k b)) [
    | inl e ↦ e
    | inr (w, e) ↦ absurd (
        omega (
          arith,
          length-erase_lt k w b e,
          length-le_of_within eqv a (erase k b) d (is_within-erase eqv k a b n h),
        ))
  ]

  within→value :
      (eqv : V → V → Bool) (k : String) (v : V) (a b : Dict V)
      → is_within eqv a b ≡ true
      → lookup k a ≡ some v
      → (w : V) × (lookup k b ≡ some w) × (eqv v w ≡ true)
  within→value eqv k v [] b h e = ground arith
  within→value eqv k v ((j, x) ∷ a) b h e =
      let (w, f, q, t) = is_within-head eqv j x a b h in
      elim (Bool-cases (j == k)) [
        | inl same ↦ (w, ground (arith, eq_iff j k), ground arith)
        | inr other ↦ within→value eqv k v a b t (ground arith)
      ]

  dict_eq_parts :
      (eqv : V → V → Bool) (a b : Dict V)
      → dict_eq eqv a b ≡ true
      → (length a ≡ length b) × (is_within eqv a b ≡ true)
  unfolding dict_eq
  dict_eq_parts eqv a b h = ground arith

  Agrees-of_eq :
      (eqv : V → V → Bool) (a b : Dict V)
      → Distinct a
      → dict_eq eqv a b ≡ true
      → (k : String) → Agrees eqv (lookup k a) (lookup k b)
  Agrees-of_eq eqv a b d h k =
      let (l, w) = dict_eq_parts eqv a b h in
      elim (Option-cases (lookup k a)) [
        | inl e ↦ rw (e, missing_both eqv k a b d w l e) tt
        | inr (v, e) ↦ let (x, f, q) = within→value eqv k v a b w e in rw (e, f) q
      ]

  Agrees-some :
      (eqv : V → V → Bool) (v : V) (o : Option V)
      → Agrees eqv (some v) o
      → (w : V) × (o ≡ some w) × (eqv v w ≡ true)
  Agrees-some eqv v none h = absurd h
  Agrees-some eqv v (some w) h = (w, refl, h)

  Agrees-right :
      (eqv : V → V → Bool) (v : V) (o : Option V)
      → Agrees eqv o (some v)
      → (w : V) × (o ≡ some w) × (Bool.true ≡ true)
  Agrees-right eqv v none h = absurd h
  Agrees-right eqv v (some w) h = (w, refl, refl)

  -- A value for every entry is enough.
  within_of_values :
      (eqv : V → V → Bool) (a b : Dict V)
      → Distinct a
      → ((k : String) (v : V)
          → lookup k a ≡ some v
          → (w : V) × (lookup k b ≡ some w) × (eqv v w ≡ true))
      → is_within eqv a b ≡ true
  unfolding is_within
  within_of_values eqv [] b d h = refl
  within_of_values eqv ((j, v) ∷ a) b d h =
      let (w, e, q) = h j v (ground (arith, eq_iff j j)) in
      let rest : is_within eqv a b ≡ true =
        within_of_values eqv a b d.1 (λ k x f. h k x (ground (arith, eq_iff j k))) in
      ground arith

  eq_of_Agrees :
      (eqv : V → V → Bool) (a b : Dict V)
      → Distinct a
      → Distinct b
      → ((k : String) → Agrees eqv (lookup k a) (lookup k b))
      → dict_eq eqv a b ≡ true
  unfolding dict_eq
  eq_of_Agrees eqv a b da db h =
      let there : is_within eqv a b ≡ true =
        within_of_values eqv a b da (λ k v e. Agrees-some eqv v (lookup k b) (rw e at (h k))) in
      let back : is_within (λ v w. true) b a ≡ true =
        within_of_values (λ v w. true) b a db
          (λ k v e. Agrees-right eqv v (lookup k a) (rw e at (h k))) in
      ground
        (arith, length-le_of_within eqv a b da there, length-le_of_within (λ v w. true) b a db back)

  -- The comparison of `verify` between stored and claimed arguments, both without repeated keys,
  -- succeeds exactly if at every key either both have no value or both have values that compare equal.
  pub dict_eq-Agrees :
      (eqv : V → V → Bool) (a b : Dict V)
      → Distinct a
      → Distinct b
      → (dict_eq eqv a (normalize b) ≡ true) ↔ ((k : String) → Agrees eqv (lookup k a) (lookup k b))
  dict_eq-Agrees eqv a b da db = (
    λ h. Agrees-of_eq eqv a b da (sym (dict_eq-normalize eqv a b) ∙ h),
    λ h. dict_eq-normalize eqv a b ∙ eq_of_Agrees eqv a b da db h,
  )
