-- ===== src/Acl/Abilities/Scope.antt =====
-- src/modules/acl/abilities/record-scope.ts: the list filter against CASL's checks of single records.
-- `holds` is whether a record's column has a value, `matches` CASL's matching of conditions, `allowed`
-- its decision by rules in the order of `rulesFor`.
use kuybi.Acl.Abilities.{
  Value, add_set, RecordScope, record_scope, Conditions, any_of, Rule, is_exact, all_records,
}
use kuybi.Prelude.{
  none, some, String, Bool, true, ◌≡◌, List, all, any, ◌⊎◌, ◌∷◌, inr, Bool-cases, if◌then◌else◌,
  inl, arith, refl, not, Option-cases, ◌&&◌, ltb, length, [],
}

module _ {R : Type 0} (holds : String × Value → R → Bool) where
  -- the records that the filter selects
  abbrev pub in_scope : RecordScope → R → Bool
  in_scope all_records r = true
  in_scope (any_of sets) r = any (λ c. all (λ pair. holds pair r) c) sets

  in_add :
      (c : Conditions) (scope : RecordScope) (r : R)
      → in_scope (add_set c scope) r ≡ true
      → (all (λ pair. holds pair r) c ≡ true) ⊎ (in_scope scope r ≡ true)
  unfolding add_set
  in_add c all_records r h = inr refl
  in_add c (any_of sets) r h = elim (Bool-cases (all (λ pair. holds pair r) c)) [
    | inl e ↦ inl e
    | inr e ↦ inr (ground (arith, h, e))
  ]

  -- Where CASL lets the first rule without conditions, or whose conditions match, decide, and where
  -- conditions that are plain pairs match a record that has all their values: every record that the
  -- list filter selects is one that CASL allows, whatever the rules.
  pub scope_allowed :
      (matches : Conditions → R → Bool) (allowed : List Rule → R → Bool) (columns : List String)
      (rules : List Rule) (r : R)
      → ((c : Conditions) (x : R)
          → is_exact columns c ≡ true
          → all (λ pair. holds pair x) c ≡ true
          → matches c x ≡ true)
      → ((rule : Rule) (rest : List Rule) (x : R)
          → allowed (rule ∷ rest) x ≡ (
              if elim rule.conditions [ none ↦ true | some c ↦ matches c x ]
              then not rule.inverted
              else allowed rest x))
      → in_scope (record_scope columns rules) r ≡ true
      → allowed rules r ≡ true
  unfolding record_scope
  scope_allowed matches allowed columns [] r m d h = absurd (ground (arith, h))
  scope_allowed matches allowed columns (rule ∷ rules) r m d h = elim (Bool-cases rule.inverted) [
    | inl v ↦ absurd (ground (arith, v, h))
    | inr v ↦ elim (Option-cases rule.conditions) [
      | inl n ↦ ground (arith, v, n, d rule rules r)
      | inr (c, e) ↦ elim (Bool-cases (is_exact columns c && ltb 0 (length c))) [
        | inl x ↦ elim (in_add c (record_scope columns rules) r (ground (arith, v, e, x, h))) [
          | inl y ↦ ground (arith, v, e, d rule rules r, m c r (ground (arith, x)) y)
          | inr y ↦
              ground
                (arith, v, e, d rule rules r, scope_allowed matches allowed columns rules r m d y)
        ]
        | inr x ↦ ground (
          arith,
          v,
          e,
          d rule rules r,
          scope_allowed matches allowed columns rules r m d (ground (arith, v, e, x, h)),
        )
      ]
    ]
  ]
