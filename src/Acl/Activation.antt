-- ===== src/Acl/Activation.antt =====
-- src/modules/users/controllers/user-roles.controller.ts: activation goes through the hierarchy guard
-- and then through `activateRole` with the route's `roleId`.
use kuybi.Prelude.Method.{ok}
use kuybi.Prelude.Table.{modify}
use kuybi.Prelude.{
  List, any, ◌==◌, ◌≡◌, true, arith, eq_iff, ℕ, ◌∷◌, Option, Bool-cases, nat_beq, inl, inr, false,
  string_eq, some, [], suc, none,
}
use kuybi.Acl.{
  target_role_id, set_role, Role, set_active, manageable_user, has_role, live_roles,
  add_assignments, set_live, is_current, User, is_super_admin, can_activate, integer,
  can_manage_user, assignment, is_live_role, absent,
}

set_role-has :
    (role : Role) (rs : List Role) → any (λ r. r.name == role.name) (set_role role rs) ≡ true
unfolding set_role
set_role-has role [] = ground (arith, eq_iff role.name role.name)
set_role-has role (r ∷ rs) = elim (Bool-cases (nat_beq r.id role.id)) [
  | inl e ↦ ground (arith, e, eq_iff role.name role.name)
  | inr e ↦ ground (arith, e, set_role-has role rs)
]

-- A caller who is no super-admin sends an activation of one role with a body that names another role,
-- with a positive id, which the guard lets them change. The user named in the route ranks below the
-- caller and has as assignment only a switched-off one, without expiry, of the route's live role,
-- whatever its rank. Then the guard lets the request through, the activation succeeds, and the user
-- has the route's role as a live role.
pub body_decides_rank :
    (now n : ℕ) (find_role : ℕ → Option Role) (caller target : User) (high : Role)
    → is_super_admin now caller ≡ false
    → can_activate now find_role (some caller) (integer (suc n)) ≡ ok true
    → can_manage_user now caller target ≡ true
    → target.user_roles ≡ assignment high false none ∷ []
    → is_live_role high ≡ true
    → let user = record target { user_roles = assignment high true none ∷ [] } in
      (can_activate now find_role
          (some caller)
          (target_role_id (integer (suc n)) (integer high.id) absent)
        ≡ ok true)
      × (set_active now caller (some target) high.id true ≡ ok user)
      × (has_role now high.name user ≡ true)
unfolding target_role_id set_active manageable_user has_role live_roles add_assignments set_live
    is_current modify
body_decides_rank now n find_role caller target high sc g m only l = (
  g,
  ground (arith, m, only),
  ground (arith, l, set_role-has high (set_live target.primary_role [])),
)
