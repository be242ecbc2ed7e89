-- ===== src/Acl/Roles.antt =====
-- src/modules/acl/services/roles.service.ts over src/modules/acl/repositories/role.repository.ts: the
-- changes of roles and of their permissions; src/modules/acl/services/permissions.service.ts: what
-- deleting a permission does to them. A row carries the ids of its permissions. Names are unique
-- over all rows, deleted ones too; a write against that fails in the database. `found` are the
-- permissions that `findByIds` gives. The events that are published are left out.
pub mod Endings
pub mod System
use kuybi.Prelude.Method.{Result, err, ok}
use kuybi.Prelude.Table.{find, select, modify, count}
use kuybi.Prelude.{
  String, List, Option, get_or_else, Bool, ℕ, some, ◌++◌, none, ◌==◌, nat_beq, false, ◌&&◌, ◌∷◌,
  string_eq, true, if◌then◌else◌, not, is_none, all, ◌||◌, any, ltb, is_some, [], length,
}

pub record RoleRow : Type 0 where
  pub id : ℕ
  pub name : String
  pub description : Option String
  pub is_system : Bool
  pub is_active : Bool
  pub priority : ℕ
  pub permissions : List ℕ
  pub deleted_at : Option ℕ

pub record CreateRole : Type 0 where
  pub name : String
  pub description : Option String
  pub is_system : Option Bool
  pub is_active : Option Bool
  pub priority : Option ℕ

pub record UpdateRole : Type 0 where
  pub name : Option String
  pub description : Option String
  pub is_system : Option Bool
  pub is_active : Option Bool
  pub priority : Option ℕ

pub data RoleError : Type 0 where
  no_role name_exists system_name system_flag system_role : RoleError
  invalid_permissions all_permissions database_error internal_error : RoleError

abbrev pub has_id : ℕ → RoleRow → Bool
has_id id r = nat_beq r.id id

abbrev pub live_id : ℕ → RoleRow → Bool
live_id id r = nat_beq r.id id && is_none r.deleted_at

abbrev pub has_name : String → RoleRow → Bool
has_name name r = r.name == name

abbrev pub live_name : String → RoleRow → Bool
live_name name r = r.name == name && is_none r.deleted_at

-- two rows with one name
unfoldable pub repeats_name : List RoleRow → Bool
repeats_name [] = false
repeats_name (r ∷ rs) = let rest = repeats_name rs in ltb 0 (count (has_name r.name) rs) || rest

unfoldable pub find_role_row : ℕ → List RoleRow → Option RoleRow
find_role_row id = find (has_id id)

unfoldable pub find_by_name : String → List RoleRow → Option RoleRow
find_by_name name = find (live_name name)

unfoldable pub find_with_permissions : ℕ → List RoleRow → Option RoleRow
find_with_permissions id = find (live_id id)

unfoldable pub create : ℕ → CreateRole → List RoleRow → List RoleRow × Result RoleError RoleRow
create id dto rows =
    let r : RoleRow = record {
      id = id;
      name = dto.name;
      description = dto.description;
      is_system = get_or_else dto.is_system false;
      is_active = get_or_else dto.is_active true;
      priority = get_or_else dto.priority 50;
      permissions = [];
      deleted_at = none;
    } in
    if is_some (find_by_name dto.name rows)
    then (rows, err name_exists)
    else (if repeats_name (r ∷ rows) then (rows, err database_error) else (r ∷ rows, ok r))

-- the new name of a role, if it is given and another one
unfoldable pub new_name : UpdateRole → RoleRow → Option String
new_name dto r = elim dto.name [
  | none ↦ none
  | some name ↦ if name == "" || name == r.name then none else some name
]

-- what the checks of an update throw
unfoldable pub update_refusal : UpdateRole → RoleRow → List RoleRow → Option RoleError
update_refusal dto r rows =
    let taken = elim (new_name dto r) as (λ x. Option RoleError) [
      | none ↦ none
      | some name ↦ if is_some (find_by_name name rows) then some name_exists else none
    ] in
    if r.is_system && is_some (new_name dto r)
    then some system_name
    else (if r.is_system && not (get_or_else dto.is_system true) then some system_flag else taken)

abbrev pub updated_row : UpdateRole → RoleRow → RoleRow
updated_row dto r = record r {
  name = get_or_else dto.name r.name;
  description = elim dto.description as (λ x. Option String) [
    | none ↦ r.description
    | some text ↦ some text
  ];
  is_system = get_or_else dto.is_system r.is_system;
  is_active = get_or_else dto.is_active r.is_active;
  priority = get_or_else dto.priority r.priority;
}

unfoldable pub update : ℕ → UpdateRole → List RoleRow → List RoleRow × Result RoleError RoleRow
update id dto rows = elim (find_role_row id rows) [
  | none ↦ (rows, err no_role)
  | some r ↦
      let rows' = modify (has_id id) (updated_row dto) rows in
      elim (update_refusal dto r rows) [
        | some e ↦ (rows, err e)
        | none ↦
            if repeats_name rows'
            then (rows, err database_error)
            else (rows', elim (find_role_row id rows') [ none ↦ err no_role | some u ↦ ok u ])
      ]
]

-- `softDelete`
abbrev pub deleted_row : ℕ → RoleRow → RoleRow
deleted_row now r = record r { deleted_at = some now; is_active = false }

unfoldable pub remove_role : ℕ → ℕ → List RoleRow → List RoleRow × Result RoleError Unit
remove_role now id rows = elim (find_role_row id rows) [
  | none ↦ (rows, err no_role)
  | some r ↦
      if r.is_system
      then (rows, err system_role)
      else (if ltb 0 (count (live_id id) rows)
          then (modify (live_id id) (deleted_row now) rows, ok tt)
          else (rows, err no_role))
]

abbrev pub granted_row : List ℕ → RoleRow → RoleRow
granted_row ids r = record r {
  permissions = r.permissions ++ select (λ p. not (any (λ q. nat_beq q p) r.permissions)) ids;
}

unfoldable pub assign_permissions :
    (List ℕ → List ℕ) → ℕ → List ℕ → List RoleRow → List RoleRow × Result RoleError RoleRow
assign_permissions found id ids rows =
    let rows' = modify (live_id id) (granted_row ids) rows in
    if is_none (find_role_row id rows)
    then (rows, err no_role)
    else (if not (nat_beq (length (found ids)) (length ids))
        then (rows, err invalid_permissions)
        else elim (find_with_permissions id rows') [
          | none ↦ (rows, err internal_error)
          | some r ↦ (rows', ok r)
        ])

abbrev pub revoked_row : List ℕ → RoleRow → RoleRow
revoked_row ids r = record r {
  permissions = select (λ p. not (any (λ q. nat_beq q p) ids)) r.permissions;
}

-- `PermissionsService.remove`: the cascade takes the permission from every role. One that does not
-- exist is on no role.
unfoldable pub delete_permission : ℕ → List RoleRow → List RoleRow
delete_permission id = modify (λ r. true) (revoked_row (id ∷ []))

unfoldable pub remove_permissions :
    ℕ → List ℕ → List RoleRow → List RoleRow × Result RoleError RoleRow
remove_permissions id ids rows =
    let rows' = modify (has_id id) (revoked_row ids) rows in
    elim (find_with_permissions id rows) [
      | none ↦ (rows, err no_role)
      | some r ↦
          if r.is_system && all (λ p. any (λ q. nat_beq q p) ids) r.permissions
          then (rows, err all_permissions)
          else (rows', elim (find_with_permissions id rows') [ none ↦ err no_role | some u ↦ ok u ])
    ]
