-- ===== src/Acl/Roles/System.antt =====
-- src/modules/acl/services/roles.service.ts: what system roles keep.
use kuybi.Acl.Roles.Endings.{
  remove-ends, find-and, update-ends, grant-ends, revoke-ends, some_left, new_ids,
}
use mathlib.Core.Path.{subst}
use kuybi.Prelude.Table.{find, modify, find-modify_found, find_sound}
use kuybi.Acl.Roles.{
  CreateRole, RoleRow, find_role_row, create, UpdateRole, update, remove_role, assign_permissions,
  remove_permissions, has_id, update_refusal, new_name, find_with_permissions, live_id, updated_row,
  granted_row, deleted_row, revoked_row, delete_permission,
}
use kuybi.Prelude.{
  String, List, ℕ, nat_beq, ◌≡◌, ◌∷◌, some, Bool, [], false, true, not, arith, none, get_or_else,
  ◌==◌, string_eq, length, Bool-cases, inl, inr, sym, ap, ◌∙◌, Option-cases, eq_iff, refl,
  length-append, All, ◌≤◌,
}

-- one change after another
pub data RoleOp : Type 0 where
  creates : ℕ → CreateRole → RoleOp
  updates : ℕ → UpdateRole → RoleOp
  removes : ℕ → ℕ → RoleOp
  grants : (List ℕ → List ℕ) → ℕ → List ℕ → RoleOp
  revokes : ℕ → List ℕ → RoleOp
  deletes_permission : ℕ → RoleOp

unfoldable pub run_op : RoleOp → List RoleRow → List RoleRow
run_op (creates id dto) rows = (create id dto rows).0
run_op (updates id dto) rows = (update id dto rows).0
run_op (removes now id) rows = (remove_role now id rows).0
run_op (grants found id ids) rows = (assign_permissions found id ids rows).0
run_op (revokes id ids) rows = (remove_permissions id ids rows).0
run_op (deletes_permission p) rows = delete_permission p rows

unfoldable pub run_ops : List RoleOp → List RoleRow → List RoleRow
run_ops [] rows = rows
run_ops (op ∷ ops) rows = run_ops ops (run_op op rows)

-- new ids are new, and a name that is sent is not empty; a permission is deleted only where no role
-- has to keep one
abbrev pub IsSent : ℕ → ℕ → RoleOp → Type 0
IsSent least id (creates new dto) = nat_beq new id ≡ false
IsSent least id (updates i dto) = not (get_or_else dto.name "a" == "") ≡ true
IsSent least id (removes now i) = Unit {0}
IsSent least id (grants found i ids) = Unit {0}
IsSent least id (revokes i ids) = Unit {0}
IsSent least id (deletes_permission p) = least ≡ 0

-- a system role that is there, with its name and at least so many permissions
pub record IsStanding (least id : ℕ) (name : String) (rows : List RoleRow) : Type 0 where
  pub role : RoleRow
  pub found : find_role_row id rows ≡ some role
  pub named : role.name ≡ name
  pub system : role.is_system ≡ true
  pub live : role.deleted_at ≡ none
  pub granted : least ≤ length role.permissions

module _ (least id : ℕ) (name : String) (rows : List RoleRow)
    (s : IsStanding least id name rows) where
  -- a statement that keeps what a standing role has
  modified-IsStanding :
      (p : RoleRow → Bool) (f : RoleRow → RoleRow)
      → ((r : RoleRow) → (f r).id ≡ r.id)
      → (p s.role ≡ true
          → ((f s.role).name ≡ name)
            × ((f s.role).is_system ≡ true)
            × ((f s.role).deleted_at ≡ none)
            × (least ≤ length (f s.role).permissions))
      → IsStanding least id name (modify p f rows)
  unfolding find_role_row
  modified-IsStanding p f same kept =
      let at =
        find-modify_found (has_id id) p f rows {a = s.role} (λ x e. ground (arith, same x))
          s.found in
      elim (Bool-cases (p s.role)) [
        | inl e ↦
            let (a, b, c, d) = kept e in
            record {
              role = f s.role;
              found = ground (arith, at, e);
              named = a;
              system = b;
              live = c;
              granted = d;
            }
        | inr e ↦ record {
          role = s.role;
          found = ground (arith, at, e);
          named = s.named;
          system = s.system;
          live = s.live;
          granted = s.granted;
        }
      ]

  create-IsStanding :
      (new : ℕ) (dto : CreateRole)
      → nat_beq new id ≡ false
      → IsStanding least id name (create new dto rows).0
  unfolding create find_role_row find
  create-IsStanding new dto other = record {
    role = s.role;
    found = ground (arith, s.found, other);
    named = s.named;
    system = s.system;
    live = s.live;
    granted = s.granted;
  }

  found_same : (i : ℕ) → nat_beq s.role.id i ≡ true → find_role_row i rows ≡ some s.role
  unfolding find_role_row
  found_same i e =
      let at = find_sound (has_id id) rows s.found in
      let eq : id ≡ i = ground (arith, e, at) in ap (λ z. find (has_id z) rows) (sym eq) ∙ s.found

  live_found : (i : ℕ) → nat_beq s.role.id i ≡ true → find_with_permissions i rows ≡ some s.role
  unfolding find_with_permissions find_role_row
  live_found i e = find-and i rows (found_same i e) s.live

  -- What an update that is not refused keeps of a system role.
  update-keeps :
      (i : ℕ) (dto : UpdateRole)
      → not (get_or_else dto.name "a" == "") ≡ true
      → update_refusal dto s.role rows ≡ none
      → ((updated_row dto s.role).name ≡ name)
        × ((updated_row dto s.role).is_system ≡ true)
        × ((updated_row dto s.role).deleted_at ≡ none)
        × (least ≤ length (updated_row dto s.role).permissions)
  unfolding update_refusal new_name
  update-keeps i dto sent passed = (
    elim (Option-cases dto.name) [
      | inl e ↦ ground (arith, e, s.named)
      | inr (n, e) ↦ elim (Bool-cases (n == s.role.name)) [
        | inl same ↦
            let eq : n ≡ s.role.name = ground (arith, same, eq_iff n s.role.name) in
            ground (arith, e, eq, s.named)
        | inr other ↦ absurd (ground (arith, e, other, sent, passed, s.system))
      ]
    ],
    elim (Option-cases dto.is_system) [
      | inl e ↦ ground (arith, e, s.system)
      | inr (b, e) ↦ ground (arith, e, s.system, passed)
    ],
    s.live,
    s.granted,
  )

  update-IsStanding :
      (i : ℕ) (dto : UpdateRole)
      → not (get_or_else dto.name "a" == "") ≡ true
      → IsStanding least id name (update i dto rows).0
  update-IsStanding i dto sent = elim (update-ends i dto rows) [
    | inl e ↦ subst (IsStanding least id name) (sym e) s
    | inr (r, f, passed, e) ↦ subst (IsStanding least id name) (sym e) (
        modified-IsStanding (has_id i) (updated_row dto) (λ x. refl)
          (λ h.
            let eq : some r ≡ some s.role = sym f ∙ found_same i h in
            update-keeps i dto sent (ground (arith, eq, passed))))
  ]

  remove-IsStanding : (now i : ℕ) → IsStanding least id name (remove_role now i rows).0
  remove-IsStanding now i = elim (remove-ends now i rows) [
    | inl e ↦ subst (IsStanding least id name) (sym e) s
    | inr (r, f, passed, e) ↦ subst (IsStanding least id name) (sym e) (
        modified-IsStanding (live_id i) (deleted_row now) (λ x. refl)
          (λ h.
            let eq : some r ≡ some s.role = sym f ∙ found_same i (ground (arith, h)) in
            absurd (ground (arith, eq, passed, s.system))))
  ]

  grant-IsStanding :
      (found : List ℕ → List ℕ) (i : ℕ) (ids : List ℕ)
      → IsStanding least id name (assign_permissions found i ids rows).0
  grant-IsStanding found i ids = elim (grant-ends found i ids rows) [
    | inl e ↦ subst (IsStanding least id name) (sym e) s
    | inr e ↦ subst (IsStanding least id name) (sym e) (
        modified-IsStanding (live_id i) (granted_row ids) (λ x. refl)
          (λ h. (
            s.named,
            s.system,
            s.live,
            omega (arith, s.granted, length-append s.role.permissions (new_ids s.role ids)),
          )))
  ]

  revoke-IsStanding :
      least ≤ 1
      → (i : ℕ) (ids : List ℕ) → IsStanding least id name (remove_permissions i ids rows).0
  revoke-IsStanding one i ids = elim (revoke-ends i ids rows) [
    | inl e ↦ subst (IsStanding least id name) (sym e) s
    | inr (r, f, passed, e) ↦ subst (IsStanding least id name) (sym e) (
        modified-IsStanding (has_id i) (revoked_row ids) (λ x. refl)
          (λ h.
            let eq : some r ≡ some s.role = sym f ∙ live_found i h in
            (
              s.named,
              s.system,
              s.live,
              omega (
                arith,
                one,
                some_left ids s.role.permissions (ground (arith, eq, passed, s.system)),
              ),
            )))
  ]

  delete_permission-IsStanding :
      (p : ℕ) → least ≡ 0 → IsStanding least id name (delete_permission p rows)
  unfolding delete_permission
  delete_permission-IsStanding p none_kept =
      modified-IsStanding (λ r. true) (revoked_row (p ∷ [])) (λ x. refl)
        (λ h. (s.named, s.system, s.live, omega (arith, none_kept)))

run_op-IsStanding :
    (least id : ℕ) (name : String) (op : RoleOp) (rows : List RoleRow)
    → least ≤ 1
    → IsSent least id op
    → IsStanding least id name rows
    → IsStanding least id name (run_op op rows)
unfolding run_op
run_op-IsStanding least id name (creates new dto) rows one sent s =
    create-IsStanding least id name rows s new dto sent
run_op-IsStanding least id name (updates i dto) rows one sent s =
    update-IsStanding least id name rows s i dto sent
run_op-IsStanding least id name (removes now i) rows one sent s =
    remove-IsStanding least id name rows s now i
run_op-IsStanding least id name (grants found i ids) rows one sent s =
    grant-IsStanding least id name rows s found i ids
run_op-IsStanding least id name (revokes i ids) rows one sent s =
    revoke-IsStanding least id name rows s one i ids
run_op-IsStanding least id name (deletes_permission p) rows one sent s =
    delete_permission-IsStanding least id name rows s p sent

-- A system role keeps its name and its flag and is not deleted by any changes, one after another: roles
-- created (with other ids), updated (with names that are not empty), removed, permissions granted, taken
-- away and deleted. If it has a permission at first (`least` 1) and no permission is deleted, it has one
-- afterwards; where permissions are deleted (`least` 0) that is left open.
pub run_ops-IsStanding :
    (least id : ℕ) (name : String) (ops : List RoleOp) (rows : List RoleRow)
    → least ≤ 1
    → All (IsSent least id) ops
    → IsStanding least id name rows
    → IsStanding least id name (run_ops ops rows)
unfolding run_ops
run_ops-IsStanding least id name [] rows one sent s = s
run_ops-IsStanding least id name (op ∷ ops) rows one (sent, rest) s =
    run_ops-IsStanding least id name ops (run_op op rows) one rest
      (run_op-IsStanding least id name op rows one sent s)
