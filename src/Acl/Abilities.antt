-- ===== src/Acl/Abilities.antt =====
-- src/modules/acl/abilities/ability.factory.ts and record-scope.ts: the rules that a user's permissions
-- make, and the list filter that they give. What CASL decides from rules is an argument of the theorem;
-- `permissions` gives a role's permissions where they are loaded.
pub mod Scope
use kuybi.Acl.{Role, User, is_super_admin, live_roles}
use kuybi.Prelude.{
  string_eq, none, List, String, ◌∷◌, Bool, Option, ltb, ℕ, true, false, if◌then◌else◌, some, any,
  ◌==◌, [], length, ◌&&◌, ◌++◌, not,
}

pub data Value : Type 0 where
  text nested : String → Value
  number : ℕ → Value
  flag : Bool → Value
  null : Value

abbrev pub Conditions : Type 0
Conditions = List (String × Value)

pub record Permission : Type 0 where
  pub action : String
  pub subject : String
  pub conditions : Option Conditions
  pub fields : List String
  pub inverted : Bool

pub record Rule : Type 0 where
  pub action : String
  pub subject : String
  pub conditions : Option Conditions
  pub inverted : Bool

pub data RecordScope : Type 0 where
  all_records : RecordScope
  any_of : List Conditions → RecordScope

unfoldable pub interpolate : String → Value → Value
interpolate user_id (text s) = if s == "${userId}" then text user_id else text s
interpolate user_id (nested s) = nested s
interpolate user_id (number n) = number n
interpolate user_id (flag b) = flag b
interpolate user_id null = null

unfoldable pub interpolate_conditions : String → Conditions → Conditions
interpolate_conditions user_id [] = []
interpolate_conditions user_id ((k, v) ∷ rest) =
    (k, interpolate user_id v) ∷ interpolate_conditions user_id rest

-- empty conditions mean "unrestricted"
unfoldable pub rule_conditions : String → Option Conditions → Option Conditions
rule_conditions user_id none = none
rule_conditions user_id (some []) = none
rule_conditions user_id (some (c ∷ cs)) = some (interpolate_conditions user_id (c ∷ cs))

abbrev pub is_field_limited : Permission → Bool
is_field_limited p = ltb 0 (length p.fields)

unfoldable pub permission_rules : String → List Permission → List Rule
permission_rules user_id [] = []
permission_rules user_id (p ∷ ps) =
    let rest = permission_rules user_id ps in
    let rule : Rule = record {
      action = p.action;
      subject = p.subject;
      conditions = rule_conditions user_id p.conditions;
      inverted = p.inverted;
    } in
    if is_field_limited p && not p.inverted then rest else rule ∷ rest

unfoldable pub role_rules : (Role → Option (List Permission)) → String → List Role → List Rule
role_rules permissions user_id [] = []
role_rules permissions user_id (role ∷ roles) =
    let rest = role_rules permissions user_id roles in
    elim (permissions role) [ none ↦ rest | some ps ↦ permission_rules user_id ps ++ rest ]

abbrev pub manage_all : Rule
manage_all = record { action = "manage"; subject = "all"; conditions = none; inverted = false }

-- the rules that `createForUser` gives to CASL
unfoldable pub create_for_user : (Role → Option (List Permission)) → ℕ → Option User → List Rule
create_for_user permissions now none = []
create_for_user permissions now (some user) =
    if is_super_admin now user
    then manage_all ∷ []
    else role_rules permissions user.id (live_roles now user)

unfoldable pub is_scope_value : Value → Bool
is_scope_value (nested s) = false
is_scope_value _ = true

unfoldable pub is_exact : List String → Conditions → Bool
is_exact columns [] = true
is_exact columns ((k, v) ∷ rest) =
    any (λ c. c == k) columns && is_scope_value v && is_exact columns rest

unfoldable pub add_set : Conditions → RecordScope → RecordScope
add_set c all_records = all_records
add_set c (any_of sets) = any_of (c ∷ sets)

-- over the rules that `rulesFor` gives, highest priority first
unfoldable pub record_scope : List String → List Rule → RecordScope
record_scope columns [] = any_of []
record_scope columns (rule ∷ rules) =
    let rest = record_scope columns rules in
    if rule.inverted then any_of [] else elim rule.conditions [
      | none ↦ all_records
      | some c ↦ if is_exact columns c && ltb 0 (length c) then add_set c rest else rest
    ]
