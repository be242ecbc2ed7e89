-- ===== src/Acl.antt =====
-- src/modules/acl: roles, live roles and the hierarchy guard; src/modules/users: the role methods of
-- `User` and `UserRolesService`. A principal carries its primary role and its assignments with their
-- roles, as the repository loads them. `now` is the clock's reading; priorities are at least 0.
pub mod Ranks
pub mod Hierarchy
pub mod Activation
pub mod Abilities
pub mod Roles
mod Tests
use kuybi.Prelude.Table.{modify, remove}
use kuybi.Prelude.Method.{Result, ok, err}
use kuybi.Prelude.{
  Bool, ℕ, suc, List, String, Option, none, any, zero, some, ◌&&◌, nat_beq, false, ◌∷◌,
  if◌then◌else◌, [], ◌==◌, is_none, ltb, leb, true, ◌++◌, string_eq, get_or_else,
}

pub record Role : Type 0 where
  pub id : ℕ
  pub name : String
  pub priority : ℕ
  pub is_active : Bool
  pub deleted_at : Option ℕ

pub record UserRole : Type 0 where
  pub role_id : ℕ
  pub role : Option Role
  pub is_active : Bool
  pub expires_at : Option ℕ

pub record User : Type 0 where
  pub id : String
  pub primary_role : Option Role
  pub user_roles : List UserRole

-- the errors of the guards and of the service
pub data AclError : Type 0 where
  authentication_required access_denied super_admin_role role_outranks user_outranks : AclError
  user_not_found role_not_found already_assigned expired_date assignment_not_found : AclError

abbrev pub super_admin : String
super_admin = "super-admin"

unfoldable pub is_live_role : Role → Bool
is_live_role role = role.is_active && is_none role.deleted_at

-- `Map.set`: an id that is there keeps its place
unfoldable pub set_role : Role → List Role → List Role
set_role role [] = role ∷ []
set_role role (r ∷ rs) =
    let rest = set_role role rs in if nat_beq r.id role.id then role ∷ rs else r ∷ rest

unfoldable pub set_live : Option Role → List Role → List Role
set_live none roles = roles
set_live (some role) roles = if is_live_role role then set_role role roles else roles

unfoldable pub is_current : ℕ → UserRole → Bool
is_current now a = a.is_active && elim a.expires_at [ none ↦ true | some t ↦ ltb now t ]

unfoldable pub add_assignments : ℕ → List UserRole → List Role → List Role
add_assignments now [] roles = roles
add_assignments now (a ∷ rest) roles =
    add_assignments now rest (if is_current now a then set_live a.role roles else roles)

unfoldable pub live_roles : ℕ → User → List Role
live_roles now user = add_assignments now user.user_roles (set_live user.primary_role [])

unfoldable pub higher : Option Role → Role → Option Role
higher none role = some role
higher (some highest) role = if ltb highest.priority role.priority then some role else some highest

unfoldable pub reduce_roles : Option Role → List Role → Option Role
reduce_roles highest [] = highest
reduce_roles highest (role ∷ roles) = reduce_roles (higher highest role) roles

unfoldable pub get_highest_priority_role : ℕ → User → Option Role
get_highest_priority_role now user = reduce_roles none (live_roles now user)

-- `getHighestPriorityRole()?.priority || 0`
unfoldable pub rank : ℕ → User → ℕ
rank now user = elim (get_highest_priority_role now user) [ none ↦ 0 | some role ↦ role.priority ]

unfoldable pub has_role : ℕ → String → User → Bool
has_role now name user = any (λ role. role.name == name) (live_roles now user)

unfoldable pub is_super_admin : ℕ → User → Bool
is_super_admin now user = has_role now super_admin user

unfoldable pub can_manage_user : ℕ → User → User → Bool
can_manage_user now caller target =
    if is_super_admin now caller then true else ltb (rank now target) (rank now caller)

-- A role id in a request: `Number(…)` of it is an integer, or is not.
pub data RoleParam : Type 0 where
  absent not_integer : RoleParam
  integer : ℕ → RoleParam

-- `a || b`, for the body's number: 0 is falsy. The route's parameters are non-empty strings.
unfoldable pub target_role_id : RoleParam → RoleParam → RoleParam → RoleParam
target_role_id absent absent id = id
target_role_id absent role_id id = role_id
target_role_id (integer zero) absent id = id
target_role_id (integer zero) role_id id = role_id
target_role_id (integer (suc n)) role_id id = integer (suc n)
target_role_id not_integer role_id id = not_integer

unfoldable pub rank_target : ℕ → User → Option Role → Result AclError Bool
rank_target now user none = ok true
rank_target now user (some role) =
    if role.name == super_admin
    then err super_admin_role
    else (if leb (rank now user) role.priority then err role_outranks else ok true)

-- `RoleHierarchyGuard.canActivate`; `find_by_id` is the fresh read of a role.
unfoldable pub can_activate : ℕ → (ℕ → Option Role) → Option User → RoleParam → Result AclError Bool
can_activate now find_by_id none target = err authentication_required
can_activate now find_by_id (some user) target =
    if is_super_admin now user then ok true else elim target [
      | absent ↦ ok true
      | not_integer ↦ ok true
      | integer id ↦ rank_target now user (find_by_id id)
    ]

unfoldable pub super_admin_guard : ℕ → Option User → Result AclError Bool
super_admin_guard now none = err authentication_required
super_admin_guard now (some user) = if is_super_admin now user then ok true else err access_denied

unfoldable pub manageable_user : ℕ → User → Option User → Result AclError User
manageable_user now caller none = err user_not_found
manageable_user now caller (some user) =
    if can_manage_user now caller user then ok user else err user_outranks

abbrev pub is_of_role : ℕ → UserRole → Bool
is_of_role role_id a = nat_beq a.role_id role_id

abbrev pub assignment : Role → Bool → Option ℕ → UserRole
assignment role is_active expires_at = record {
  role_id = role.id;
  role = some role;
  is_active = is_active;
  expires_at = expires_at;
}

unfoldable pub is_past : ℕ → Option ℕ → Bool
is_past now none = false
is_past now (some t) = leb t now

-- the checks behind `manageableUser`, for a role that is found
unfoldable pub assign_found : ℕ → Role → Option Bool → Option ℕ → User → Result AclError User
assign_found now role is_active expires_at user =
    if any (is_of_role role.id) user.user_roles
    then err already_assigned
    else (if is_past now expires_at
        then err expired_date
        else ok (record user {
          user_roles =
              user.user_roles ++ assignment role (get_or_else is_active true) expires_at ∷ [];
        }))

unfoldable pub assign_role :
    ℕ → User → Option User → Option Role → Option Bool → Option ℕ → Result AclError User
assign_role now caller target role is_active expires_at = elim (manageable_user now caller target) [
  | err e ↦ err e
  | ok user ↦ elim role [
    | none ↦ err role_not_found
    | some r ↦ assign_found now r is_active expires_at user
  ]
]

unfoldable pub revoke_role : ℕ → User → Option User → ℕ → Result AclError User
revoke_role now caller target role_id = elim (manageable_user now caller target) [
  | err e ↦ err e
  | ok user ↦
      if any (is_of_role role_id) user.user_roles
      then ok (record user { user_roles = remove (is_of_role role_id) user.user_roles })
      else err assignment_not_found
]

abbrev pub with_active : Bool → UserRole → UserRole
with_active b a = record a { is_active = b }

-- `activateRole` and `deactivateRole`
unfoldable pub set_active : ℕ → User → Option User → ℕ → Bool → Result AclError User
set_active now caller target role_id b = elim (manageable_user now caller target) [
  | err e ↦ err e
  | ok user ↦
      if any (is_of_role role_id) user.user_roles
      then ok
          (record user { user_roles = modify (is_of_role role_id) (with_active b) user.user_roles })
      else err assignment_not_found
]
