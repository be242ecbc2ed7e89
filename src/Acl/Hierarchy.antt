-- ===== src/Acl/Hierarchy.antt =====
-- src/modules/users/services/user-roles.service.ts and src/modules/acl/guards/role-hierarchy.guard.ts:
-- what a caller can do to whom.
use mathlib.Core.Path.{subst}
use kuybi.Prelude.Method.{ok}
use kuybi.Acl.Ranks.{IsBelow, set_live-All, rank_bounds, rank_below}
use kuybi.Prelude.{
  String, ℕ, List, All, ◌++◌, Bool, any, ◌≡◌, ◌≢◌, Option, ◌∷◌, ◌==◌, false, [], arith, true,
  if◌then◌else◌, some, eq_iff, Bool-cases, string_eq, refl, inl, ◌<◌, inr, ◌≤◌, get_or_else, sym,
  All-map,
}
use kuybi.Acl.{
  can_manage_user, can_activate, live_roles, add_assignments, rank_target, Role, assign_role, User,
  UserRole, is_super_admin, assign_found, manageable_user, assignment, is_current, integer,
  set_live, rank, has_role, super_admin,
}

live-append :
    (now : ℕ) (xs : List UserRole) (a : UserRole) (roles : List Role)
    → add_assignments now (xs ++ a ∷ []) roles ≡ (
        if is_current now a
        then set_live a.role (add_assignments now xs roles)
        else add_assignments now xs roles)
unfolding add_assignments
live-append now [] a roles = ground arith
live-append now (b ∷ xs) a roles =
    live-append now xs a (if is_current now b then set_live b.role roles else roles)

no_name :
    (name : String) (rs : List Role)
    → any (λ role. role.name == name) rs ≡ false
    → All (λ r. r.name ≢ name) rs
no_name name [] h = tt
no_name name (r ∷ rs) h =
    (ground (arith, h, eq_iff r.name name), no_name name rs (ground (arith, h)))

name_any :
    (name : String) (rs : List Role)
    → All (λ r. r.name ≢ name) rs
    → any (λ role. role.name == name) rs ≡ false
name_any name [] h = refl
name_any name (r ∷ rs) (h, t) = ground (arith, h, eq_iff r.name name, name_any name rs t)

-- Of two users who are not super-admins, at most one can manage the other, and no one themself.
pub manage_asymmetric :
    (now : ℕ) (a b : User)
    → is_super_admin now a ≡ false
    → is_super_admin now b ≡ false
    → can_manage_user now a b ≡ true
    → (can_manage_user now b a ≡ false) × (can_manage_user now a a ≡ false)
unfolding can_manage_user
manage_asymmetric now a b sa sb h = (ground (arith, sa, sb, h), ground (arith, sa, sb, h))

assigned-IsBelow :
    (now p : ℕ) (user : User) (role : Role) (b : Bool) (t : Option ℕ)
    → All (IsBelow p) (live_roles now user)
    → IsBelow p role
    → All
        (IsBelow p)
        (live_roles now (record user { user_roles = user.user_roles ++ assignment role b t ∷ [] }))
unfolding live_roles
assigned-IsBelow now p user role b t h k =
    let before = add_assignments now user.user_roles (set_live user.primary_role []) in
    elim (Bool-cases (is_current now (assignment role b t))) [
      | inl e ↦ ground (
        arith,
        e,
        live-append now user.user_roles (assignment role b t) (set_live user.primary_role []),
        set_live-All (IsBelow p) (some role) before (λ r same l. ground (arith, same, k)) h,
      )
      | inr e ↦ ground (
        arith,
        e,
        h,
        live-append now user.user_roles (assignment role b t) (set_live user.primary_role []),
      )
    ]

guard-IsBelow :
    (now : ℕ) (find_role : ℕ → Option Role) (caller : User) (role : Role)
    → is_super_admin now caller ≡ false
    → find_role role.id ≡ some role
    → can_activate now find_role (some caller) (integer role.id) ≡ ok true
    → IsBelow (rank now caller) role
unfolding can_activate rank_target
guard-IsBelow now find_role caller role sc f g =
    (ground (arith, sc, f, g), ground (arith, sc, f, g, eq_iff role.name super_admin))

assigned :
    (now : ℕ) (caller target user : User) (role : Role) (is_active : Option Bool)
    (expires_at : Option ℕ)
    → is_super_admin now caller ≡ false
    → assign_role now caller (some target) (some role) is_active expires_at ≡ ok user
    → (rank now target < rank now caller)
      × (user ≡ record target {
        user_roles =
            target.user_roles ++ assignment role (get_or_else is_active true) expires_at ∷ [];
      })
unfolding assign_role assign_found manageable_user can_manage_user
assigned now caller target user role is_active expires_at sc a =
    (ground (arith, sc, a), ground (arith, sc, a))

both-IsBelow :
    (p n : ℕ) (rs : List Role)
    → n < p
    → All (λ r. r.priority ≤ n) rs
    → All (λ r. r.name ≢ super_admin) rs
    → All (IsBelow p) rs
both-IsBelow p n [] l t u = tt
both-IsBelow p n (r ∷ rs) l (h, t) (k, u) = ((omega (arith, l, h), k), both-IsBelow p n rs l t u)

target-IsBelow :
    (now p : ℕ) (target : User)
    → rank now target < p
    → is_super_admin now target ≡ false
    → All (IsBelow p) (live_roles now target)
unfolding is_super_admin has_role
target-IsBelow now p target l st =
    both-IsBelow p (rank now target) (live_roles now target) l (rank_bounds now target)
      (no_name super_admin (live_roles now target) st)

names_safe :
    (now : ℕ) (user : User)
    → All (λ r. r.name ≢ super_admin) (live_roles now user)
    → is_super_admin now user ≡ false
unfolding is_super_admin has_role
names_safe now user h = name_any super_admin (live_roles now user) h

-- A role that the hierarchy guard lets a caller who is no super-admin assign, given to a user whom
-- they may manage and who is no super-admin: after a successful assignment that user still ranks
-- below the caller, and is still no super-admin.
pub assign_keeps_rank :
    (now : ℕ) (find_role : ℕ → Option Role) (caller target user : User) (role : Role)
    (is_active : Option Bool) (expires_at : Option ℕ)
    → is_super_admin now caller ≡ false
    → is_super_admin now target ≡ false
    → find_role role.id ≡ some role
    → can_activate now find_role (some caller) (integer role.id) ≡ ok true
    → assign_role now caller (some target) (some role) is_active expires_at ≡ ok user
    → (rank now user < rank now caller) × (is_super_admin now user ≡ false)
assign_keeps_rank now find_role caller target user role is_active expires_at sc st f g a =
    let p = rank now caller in
    let (l, e) = assigned now caller target user role is_active expires_at sc a in
    let t =
      assigned-IsBelow now p target role (get_or_else is_active true) expires_at
        (target-IsBelow now p target l st) (guard-IsBelow now find_role caller role sc f g) in
    let u = subst (λ x. All (IsBelow p) (live_roles now x)) (sym e) t in
    (
      rank_below now p user (omega (arith, l)) (All-map (live_roles now user) (λ r h. h.0) u),
      names_safe now user (All-map (live_roles now user) (λ r h. h.1) u),
    )
