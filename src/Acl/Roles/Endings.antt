-- ===== src/Acl/Roles/Endings.antt =====
-- src/modules/acl/services/roles.service.ts: how a change of a role ends.
use kuybi.Prelude.Table.{find, modify, select, count}
use kuybi.Acl.Roles.{
  RoleRow, find_role_row, UpdateRole, update, remove_role, assign_permissions, remove_permissions,
  has_id, update_refusal, find_with_permissions, live_id, updated_row, granted_row, deleted_row,
  revoked_row, repeats_name,
}
use kuybi.Prelude.{
  List, ℕ, nat_beq, ◌≡◌, ◌∷◌, some, [], false, not, arith, none, ◌<◌, string_eq, length, Bool-cases,
  inl, inr, ◌⊎◌, all, ap, any, ◌∙◌, Option-cases, ◌&&◌, ltb, is_none,
}

-- Each change leaves the rows, or has passed its checks.
pub update-ends :
    (i : ℕ) (dto : UpdateRole) (rows : List RoleRow)
    → ((update i dto rows).0 ≡ rows)
      ⊎ ((r : RoleRow) × (find_role_row i rows ≡ some r)
          × (update_refusal dto r rows ≡ none)
          × ((update i dto rows).0 ≡ modify (has_id i) (updated_row dto) rows))
unfolding update
update-ends i dto rows = elim (Option-cases (find_role_row i rows)) [
  | inl f ↦ inl (ground (arith, f))
  | inr (r, f) ↦ elim (Option-cases (update_refusal dto r rows)) [
    | inr (e, k) ↦ inl (ground (arith, f, k))
    | inl k ↦ elim (Bool-cases (repeats_name (modify (has_id i) (updated_row dto) rows))) [
      | inl d ↦ inl (ground (arith, f, k, d))
      | inr d ↦ inr (r, f, k, ground (arith, f, k, d))
    ]
  ]
]

pub remove-ends :
    (now i : ℕ) (rows : List RoleRow)
    → ((remove_role now i rows).0 ≡ rows)
      ⊎ ((r : RoleRow) × (find_role_row i rows ≡ some r)
          × (r.is_system ≡ false)
          × ((remove_role now i rows).0 ≡ modify (live_id i) (deleted_row now) rows))
unfolding remove_role
remove-ends now i rows = elim (Option-cases (find_role_row i rows)) [
  | inl f ↦ inl (ground (arith, f))
  | inr (r, f) ↦ elim (Bool-cases r.is_system) [
    | inl k ↦ inl (ground (arith, f, k))
    | inr k ↦ elim (Bool-cases (ltb 0 (count (live_id i) rows))) [
      | inr d ↦ inl (ground (arith, f, k, d))
      | inl d ↦ inr (r, f, k, ground (arith, f, k, d))
    ]
  ]
]

pub grant-ends :
    (found : List ℕ → List ℕ) (i : ℕ) (ids : List ℕ) (rows : List RoleRow)
    → ((assign_permissions found i ids rows).0 ≡ rows)
      ⊎ ((assign_permissions found i ids rows).0 ≡ modify (live_id i) (granted_row ids) rows)
unfolding assign_permissions
grant-ends found i ids rows = elim (Bool-cases (is_none (find_role_row i rows))) [
  | inl e ↦ inl (ground (arith, e))
  | inr e ↦ elim (Bool-cases (nat_beq (length (found ids)) (length ids))) [
    | inr k ↦ inl (ground (arith, e, k))
    | inl k ↦
        elim (Option-cases (find_with_permissions i (modify (live_id i) (granted_row ids) rows))) [
          | inl f ↦ inl (ground (arith, e, k, f))
          | inr (r, f) ↦ inr (ground (arith, e, k, f))
        ]
  ]
]

pub revoke-ends :
    (i : ℕ) (ids : List ℕ) (rows : List RoleRow)
    → ((remove_permissions i ids rows).0 ≡ rows)
      ⊎ ((r : RoleRow) × (find_with_permissions i rows ≡ some r)
          × ((r.is_system && all (λ p. any (λ q. nat_beq q p) ids) r.permissions) ≡ false)
          × ((remove_permissions i ids rows).0 ≡ modify (has_id i) (revoked_row ids) rows))
unfolding remove_permissions
revoke-ends i ids rows = elim (Option-cases (find_with_permissions i rows)) [
  | inl f ↦ inl (ground (arith, f))
  | inr (r, f) ↦
      elim (Bool-cases (r.is_system && all (λ p. any (λ q. nat_beq q p) ids) r.permissions)) [
        | inl k ↦ inl (ground (arith, f, k))
        | inr k ↦ inr (r, f, k, ground (arith, f, k))
      ]
]

-- Not all are removed: one is left.
pub some_left :
    (ids ps : List ℕ)
    → all (λ p. any (λ q. nat_beq q p) ids) ps ≡ false
    → 0 < length (select (λ p. not (any (λ q. nat_beq q p) ids)) ps)
unfolding select
some_left ids [] h = absurd (ground (arith, h))
some_left ids (p ∷ ps) h = ground (arith, h, some_left ids ps)

abbrev pub new_ids : RoleRow → List ℕ → List ℕ
new_ids r ids = select (λ p. not (any (λ q. nat_beq q p) r.permissions)) ids

pub find-and :
    (i : ℕ) (rows : List RoleRow) {r : RoleRow}
    → find (has_id i) rows ≡ some r
    → r.deleted_at ≡ none
    → find (live_id i) rows ≡ some r
unfolding find
find-and i [] f l = absurd (ground (arith, f))
find-and i (x ∷ xs) {r} f l = elim (Bool-cases (has_id i x)) [
  | inl t ↦
      let first : x ≡ r = ground (arith, f, t) in
      let live : x.deleted_at ≡ none = ap (λ z. z.deleted_at) first ∙ l in
      ground (arith, t, live, first)
  | inr t ↦ ground (arith, t, find-and i xs {r = r} (ground (arith, f, t)) l)
]
