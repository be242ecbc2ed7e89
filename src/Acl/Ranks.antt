-- ===== src/Acl/Ranks.antt =====
-- src/modules/acl/entities/live-roles.ts, src/modules/users: ranks of live roles.
use mathlib.Core.Path.{subst}
use kuybi.Prelude.{
  ℕ, ◌<◌, List, Option, All, ◌≢◌, ◌≡◌, some, ◌∷◌, ◌≤◌, true, arith, Bool-cases, nat_beq, inl, ltb,
  inr, [], none, refl, sym,
}
use kuybi.Acl.{
  reduce_roles, set_live, set_role, Role, higher, super_admin, is_live_role, rank,
  get_highest_priority_role, User, live_roles,
}

abbrev pub IsBelow : ℕ → Role → Type 0
IsBelow p role = (role.priority < p) × (role.name ≢ super_admin)

pub set_role-All :
    (P : Role → Type 0) (role : Role) (rs : List Role)
    → P role
    → All P rs
    → All P (set_role role rs)
unfolding set_role
set_role-All P role [] h t = (h, tt)
set_role-All P role (r ∷ rs) h (hr, t) = elim (Bool-cases (nat_beq r.id role.id)) [
  | inl e ↦ ground (arith, e, h, t)
  | inr e ↦ ground (arith, e, hr, set_role-All P role rs h t)
]

pub set_live-All :
    (P : Role → Type 0) (o : Option Role) (rs : List Role)
    → ((role : Role) → o ≡ some role → is_live_role role ≡ true → P role)
    → All P rs
    → All P (set_live o rs)
unfolding set_live
set_live-All P none rs h t = t
set_live-All P (some role) rs h t = elim (Bool-cases (is_live_role role)) [
  | inl e ↦ ground (arith, e, set_role-All P role rs (h role refl e) t)
  | inr e ↦ ground (arith, e, t)
]

reduce_lt :
    (p : ℕ) (rs : List Role) (h : Role)
    → h.priority < p
    → All (λ r. r.priority < p) rs
    → (r : Role) × (reduce_roles (some h) rs ≡ some r) × (r.priority < p)
unfolding reduce_roles higher
reduce_lt p [] h a t = (h, refl, a)
reduce_lt p (r ∷ rs) h a (b, t) = elim (Bool-cases (ltb h.priority r.priority)) [
  | inl e ↦ let (x, f, l) = reduce_lt p rs r b t in (x, ground (arith, e, f), l)
  | inr e ↦ let (x, f, l) = reduce_lt p rs h a t in (x, ground (arith, e, f), l)
]

reduce_le :
    (rs : List Role) (h : Role)
    → (r : Role) × (reduce_roles (some h) rs ≡ some r)
      × (h.priority ≤ r.priority)
      × All (λ x. x.priority ≤ r.priority) rs
unfolding reduce_roles higher
reduce_le [] h = (h, refl, omega arith, tt)
reduce_le (y ∷ rs) h = elim (Bool-cases (ltb h.priority y.priority)) [
  | inl e ↦
      let (x, f, l, t) = reduce_le rs y in (x, ground (arith, e, f), ground (arith, e, l), (l, t))
  | inr e ↦
      let (x, f, l, t) = reduce_le rs h in (x, ground (arith, e, f), l, (ground (arith, e, l), t))
]

abbrev rank_of : Option Role → ℕ
rank_of o = elim o [ none ↦ 0 | some role ↦ role.priority ]

bounds : (rs : List Role) → All (λ r. r.priority ≤ rank_of (reduce_roles none rs)) rs
unfolding reduce_roles higher
bounds [] = tt
bounds (r ∷ rs) =
    let (x, f, l, t) = reduce_le rs r in
    subst (λ o. All (λ y. y.priority ≤ rank_of o) (r ∷ rs)) (sym f) (l, t)

below :
    (p : ℕ) (rs : List Role)
    → 0 < p
    → All (λ r. r.priority < p) rs
    → rank_of (reduce_roles none rs) < p
unfolding reduce_roles higher
below p [] h t = h
below p (r ∷ rs) h (a, t) = let (x, f, l) = reduce_lt p rs r a t in ground (arith, f, l)

pub rank_bounds :
    (now : ℕ) (user : User) → All (λ r. r.priority ≤ rank now user) (live_roles now user)
unfolding rank get_highest_priority_role
rank_bounds now user = bounds (live_roles now user)

pub rank_below :
    (now p : ℕ) (user : User)
    → 0 < p
    → All (λ r. r.priority < p) (live_roles now user)
    → rank now user < p
unfolding rank get_highest_priority_role
rank_below now p user h t = below p (live_roles now user) h t
