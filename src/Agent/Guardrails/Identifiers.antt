-- ===== src/Agent/Guardrails/Identifiers.antt =====
-- No identifier that the model could not have seen gets through `resolve_identifiers`
-- (app/agent/guardrails.py).
use mathlib.Core.Path.{subst}
use agent_identity_platform.Common.{
  String, ◌≡◌, ◌≢◌, refl, sym, ◌⊎◌, inl, inr, true, false, Option, none, some, List, [], ◌∷◌, arith,
  ◌==◌, eq_iff, Dict, lookup, lookup-erase, contains, In, Bool-cases, Option-cases, if◌then◌else◌,
  eq_refl, lookup-insert_self, lookup-insert_ne, ne→==,
}
use agent_identity_platform.Common.Values.{Values, blank}
use agent_identity_platform.Agent.Guardrails.{
  Schema, is_invented, replaced, resolve, resolve_identifiers, identifier_args,
}

module _ {V : Type 0} (py : Values V) (seen : List String) (from_task : Dict V) where
  -- A value is blank, was seen, or is the task's own under the name.
  abbrev pub IsKnown : String → Option V → Type 0
  IsKnown name none = Unit
  IsKnown name (some v) =
      (blank py v ≡ true) ⊎ ((contains (py.str v) seen ≡ true) ⊎ (lookup name from_task ≡ some v))

  replaced-IsKnown :
      (name : String) (kept : Dict V) → IsKnown name (lookup name (replaced py from_task name kept))
  unfolding replaced
  replaced-IsKnown name kept = elim (Option-cases (lookup name from_task)) [
    | inl e ↦ rw (e, replaced, lookup-erase name name kept, eq_refl name) tt
    | inr (v, e) ↦ elim (Bool-cases (blank py v)) [
      | inl b ↦ rw (e, replaced, b, lookup-erase name name kept, eq_refl name) tt
      | inr b ↦ rw (e, replaced, b, lookup-insert_self name v kept) (inr (inr e))
    ]
  ]

  kept-IsKnown :
      (name : String) (kept : Dict V)
      → is_invented py seen kept name ≡ false
      → IsKnown name (lookup name kept)
  unfolding is_invented
  kept-IsKnown name kept h = ground arith

  replaced_ne :
      (name other : String) (kept : Dict V)
      → name ≢ other
      → lookup other (replaced py from_task name kept) ≡ lookup other kept
  unfolding replaced
  replaced_ne name other kept ne = elim (Option-cases (lookup name from_task)) [
    | inl e ↦ rw (e, replaced, lookup-erase name other kept, ne→== name other ne) refl
    | inr (v, e) ↦ elim (Bool-cases (blank py v)) [
      | inl b ↦ rw (e, replaced, b, lookup-erase name other kept, ne→== name other ne) refl
      | inr b ↦ rw (e, replaced, b) (lookup-insert_ne name other v kept ne)
    ]
  ]

  -- One turn of the loop.
  abbrev turn : String → Dict V → Dict V
  turn name kept = if is_invented py seen kept name then replaced py from_task name kept else kept

  turn_self : (name : String) (kept : Dict V) → IsKnown name (lookup name (turn name kept))
  turn_self name kept = ground (arith, replaced-IsKnown name kept, kept-IsKnown name kept)

  turn_other :
      (name other : String) (kept : Dict V)
      → name ≢ other
      → lookup other (turn name kept) ≡ lookup other kept
  turn_other name other kept ne = ground (arith, replaced_ne name other kept ne)

  turn_keeps :
      (name other : String) (kept : Dict V)
      → IsKnown other (lookup other kept)
      → IsKnown other (lookup other (turn name kept))
  turn_keeps name other kept h = elim (Bool-cases (name == other)) [
    | inl e ↦
        subst (λ o. IsKnown o (lookup o (turn name kept))) ((eq_iff name other).0 e)
          (turn_self name kept)
    | inr e ↦
        subst (λ o. IsKnown other o)
          (sym (turn_other name other kept (λ p. ground (arith, eq_iff name other)))) h
  ]

  -- A value that is known stays known: the loop changes no other name's value, and the name's own
  -- only to the task's.
  resolve_keeps :
      (name : String) (names : List String) (kept : Dict V)
      → IsKnown name (lookup name kept)
      → IsKnown name (lookup name (resolve py seen from_task names kept).0)
  unfolding resolve
  resolve_keeps name [] kept h = h
  resolve_keeps name (n ∷ names) kept h =
      resolve_keeps name names (turn n kept) (turn_keeps n name kept h)

  resolve-IsKnown :
      (name : String) (names : List String) (kept : Dict V)
      → In name names
      → IsKnown name (lookup name (resolve py seen from_task names kept).0)
  unfolding resolve
  resolve-IsKnown name [] kept h = absurd h
  resolve-IsKnown name (n ∷ names) kept (inl e) =
      resolve_keeps name names (turn n kept)
        (subst (λ m. IsKnown name (lookup name (turn m kept))) e (turn_self name kept))
  resolve-IsKnown name (n ∷ names) kept (inr h) = resolve-IsKnown name names (turn n kept) h

  -- Every required identifier argument that comes out of `resolve_identifiers` is blank, or was shown
  -- to the model, or is the value that the task itself gives under that name.
  pub resolve_identifiers-IsKnown :
      (tool : Schema) (args : Dict V) (name : String)
      → In name (identifier_args tool)
      → IsKnown name (lookup name (resolve_identifiers py tool args seen from_task).0)
  unfolding resolve_identifiers
  resolve_identifiers-IsKnown tool args name h = resolve-IsKnown name (identifier_args tool) args h
