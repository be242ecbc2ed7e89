-- ===== src/Acl/Tests.antt =====
-- An administrator, an editor and the roles that they may give.
use kuybi.Prelude.Table.{find, modify, select}
use kuybi.Acl.Roles.System.{
  RoleOp, IsStanding, updates, run_ops, run_ops-IsStanding, removes, revokes,
}
use kuybi.Acl.Roles.{RoleRow, UpdateRole, find_role_row, delete_permission}
use kuybi.Acl.Abilities.Scope.{scope_allowed, in_scope}
use kuybi.Acl.Abilities.{
  number, text, nested, flag, null, Rule, Value, text, record_scope, is_exact, is_scope_value,
  nested, add_set,
}
use kuybi.Acl.Activation.{body_decides_rank}
use kuybi.Prelude.Method.{ok}
use kuybi.Acl.Hierarchy.{assign_keeps_rank}
use kuybi.Prelude.{
  string_eq, ℕ, false, true, ◌≡◌, ◌<◌, Option, some, none, ◌∷◌, refl, if◌then◌else◌, [], nat_beq,
  suc, String, List, Bool, any, all, not, ◌==◌, ◌&&◌, arith,
}
use kuybi.Acl.{
  User, is_super_admin, can_activate, is_live_role, assign_role, Role, rank, assignment,
  can_manage_user, assign_found, has_role, rank_target, manageable_user, live_roles,
  add_assignments, target_role_id, set_live, integer, set_role, get_highest_priority_role, absent,
  reduce_roles, higher, set_active, is_past, is_current,
}

abbrev super_role : Role
super_role = record {
  id = 1;
  name = "super-admin";
  priority = 100;
  is_active = true;
  deleted_at = none;
}

abbrev editor_role : Role
editor_role = record super_role { id = 2; name = "editor"; priority = 50 }

abbrev author_role : Role
author_role = record super_role { id = 3; name = "author"; priority = 10 }

abbrev editor : User
editor = record { id = "u1"; primary_role = some editor_role; user_roles = [] }

abbrev author : User
author = record { id = "u2"; primary_role = some author_role; user_roles = [] }

-- an author who once was a super-admin
abbrev retired : User
retired = record author { user_roles = assignment super_role false none ∷ [] }

abbrev reviewer_role : Role
reviewer_role = record super_role { id = 4; name = "reviewer"; priority = 20 }

abbrev find_role : ℕ → Option Role
find_role n =
    if nat_beq n 3 then some author_role else (if nat_beq n 4 then some reviewer_role else none)

editor_not_super : is_super_admin 100 editor ≡ false
unfolding is_super_admin has_role live_roles add_assignments set_live set_role is_live_role
editor_not_super = refl

author_not_super : is_super_admin 100 author ≡ false
unfolding is_super_admin has_role live_roles add_assignments set_live set_role is_live_role
author_not_super = refl

editor_outranks : can_manage_user 100 editor author ≡ true
unfolding can_manage_user is_super_admin has_role live_roles add_assignments set_live set_role
    is_live_role rank get_highest_priority_role reduce_roles higher
editor_outranks = refl

editor_outranks_retired : can_manage_user 100 editor retired ≡ true
unfolding can_manage_user is_super_admin has_role live_roles add_assignments set_live set_role
    is_live_role rank get_highest_priority_role reduce_roles higher is_current
editor_outranks_retired = refl

may_assign : can_activate 100 find_role (some editor) (integer 4) ≡ ok true
unfolding can_activate rank_target is_super_admin has_role live_roles add_assignments set_live
    set_role is_live_role rank get_highest_priority_role reduce_roles higher
may_assign = refl

may_assign_author : can_activate 100 find_role (some editor) (integer (suc 2)) ≡ ok true
unfolding can_activate rank_target is_super_admin has_role live_roles add_assignments set_live
    set_role is_live_role rank get_highest_priority_role reduce_roles higher
may_assign_author = refl

abbrev promoted : User
promoted = record author { user_roles = assignment reviewer_role true (some 500) ∷ [] }

assigned_reviewer :
    assign_role 100 editor (some author) (some reviewer_role) none (some 500) ≡ ok promoted
unfolding assign_role assign_found manageable_user can_manage_user is_super_admin has_role
    live_roles add_assignments set_live set_role is_live_role rank get_highest_priority_role
    reduce_roles higher is_past
assigned_reviewer = refl

assign_keeps_rank_example :
    (rank 100 promoted < rank 100 editor) × (is_super_admin 100 promoted ≡ false)
assign_keeps_rank_example =
    assign_keeps_rank 100 find_role editor author promoted reviewer_role none (some 500)
      editor_not_super author_not_super refl may_assign assigned_reviewer

super_is_live : is_live_role super_role ≡ true
unfolding is_live_role
super_is_live = refl

body_decides_rank_example :
    let user = record retired { user_roles = assignment super_role true none ∷ [] } in
    (can_activate 100 find_role (some editor) (target_role_id (integer (suc 2)) (integer 1) absent)
      ≡ ok true)
    × (set_active 100 editor (some retired) 1 true ≡ ok user)
    × (has_role 100 "super-admin" user ≡ true)
body_decides_rank_example =
    body_decides_rank 100 2 find_role editor retired super_role editor_not_super may_assign_author
      editor_outranks_retired refl super_is_live

-- an author of stories: published ones and their own, as records of columns
abbrev Row : Type 0
Row = List (String × Value)

abbrev same_value : Value → Value → Bool
same_value (text s) (text t) = s == t
same_value (nested s) v = false
same_value (number m) (number n) = nat_beq m n
same_value (flag true) (flag b) = b
same_value (flag false) (flag b) = not b
same_value null null = true
same_value _ _ = false

abbrev row_holds : String × Value → Row → Bool
row_holds (k, v) row = any (λ c. c.0 == k && same_value v c.1) row

abbrev row_matches : List (String × Value) → Row → Bool
row_matches c row = all (λ pair. row_holds pair row) c

abbrev row_allowed : List Rule → Row → Bool
row_allowed [] row = false
row_allowed (rule ∷ rules) row =
    let rest = row_allowed rules row in
    if elim rule.conditions [ none ↦ true | some c ↦ row_matches c row ]
    then not rule.inverted
    else rest

abbrev own_stories : Rule
own_stories = record {
  action = "read";
  subject = "Story";
  conditions = some (("userId", text "u2") ∷ []);
  inverted = false;
}

abbrev story_row : Row
story_row = ("userId", text "u2") ∷ ("status", text "DRAFT") ∷ []

in_own_scope :
    in_scope row_holds (record_scope ("userId" ∷ "status" ∷ []) (own_stories ∷ [])) story_row ≡ true
unfolding record_scope is_exact is_scope_value add_set
in_own_scope = refl

scope_allowed_example : row_allowed (own_stories ∷ []) story_row ≡ true
scope_allowed_example =
    scope_allowed row_holds row_matches row_allowed ("userId" ∷ "status" ∷ []) (own_stories ∷ [])
      story_row (λ c x e h. h) (λ rule rest x. refl) in_own_scope

-- the rows of two roles; the first is a system role
abbrev admin_row : RoleRow
admin_row = record {
  id = 1;
  name = "admin";
  description = none;
  is_system = true;
  is_active = true;
  priority = 90;
  permissions = 7 ∷ [];
  deleted_at = none;
}

abbrev role_rows : List RoleRow
role_rows = record admin_row { id = 2; name = "guest"; is_system = false } ∷ admin_row ∷ []

abbrev rename : UpdateRole
rename = record {
  name = some "root";
  description = none;
  is_system = none;
  is_active = some false;
  priority = none;
}

abbrev role_ops : List RoleOp
role_ops = updates 1 rename ∷ updates 2 rename ∷ removes 5 1 ∷ revokes 1 (7 ∷ []) ∷ removes 5 2 ∷ []

admin-IsStanding : IsStanding 1 1 "admin" role_rows
unfolding find_role_row find
admin-IsStanding = record {
  role = admin_row;
  found = refl;
  named = refl;
  system = refl;
  live = refl;
  granted = omega arith;
}

-- deleting a permission can leave a system role with none
emptied :
    find_role_row 1 (delete_permission 7 role_rows) ≡ some (record admin_row { permissions = [] })
unfolding delete_permission find_role_row find modify select
emptied = refl

run_ops-IsStanding_example : IsStanding 1 1 "admin" (run_ops role_ops role_rows)
run_ops-IsStanding_example =
    run_ops-IsStanding 1 1 "admin" role_ops role_rows (omega arith)
      (refl, (refl, (tt, (tt, (tt, tt))))) admin-IsStanding
