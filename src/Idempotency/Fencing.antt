-- ===== src/Idempotency/Fencing.antt =====
-- src/core/idempotency/idempotency.service.ts: the lock id tells the attempt that holds a key from
-- one whose key was taken over.
use kuybi.Prelude.Table.Untouched.{modify_untouched, remove_untouched, count_of_find}
use kuybi.Prelude.{
  ℕ, String, List, ◌≡◌, Option, some, ◌≢◌, ◌≤◌, false, Option-cases, arith, ◌∷◌, inl, Bool-cases,
  inr, ◌+◌, eq_iff, [],
}
use kuybi.Prelude.Table.{find, count, modify}
use kuybi.Idempotency.{
  renew, take_over_abandoned, complete, release, IdempotencyKey, has_id, is_held, is_abandoned,
  relocked, renewed, finished,
}

module _ {B : Type 0} where
  held_le :
      (now : ℕ) (id lock old : String) (rows : List (IdempotencyKey B))
      → lock ≢ old
      → count (is_held id old) (modify (is_abandoned now id) (relocked now lock) rows)
          + count (is_abandoned now id) rows
        ≤ count (has_id id) rows
  unfolding count modify
  held_le now id lock old [] n = omega arith
  held_le now id lock old (x ∷ rows) n = elim (Bool-cases (is_abandoned now id x)) [
    | inl t ↦ ground (arith, t, eq_iff lock old, held_le now id lock old rows n)
    | inr f ↦ ground (arith, f, held_le now id lock old rows n)
  ]

  nothing_held :
      (now : ℕ) (id lock old : String) (rows : List (IdempotencyKey B)) (r : IdempotencyKey B)
      → count (has_id id) rows ≤ 1
      → lock ≢ old
      → (take_over_abandoned now id lock rows).1 ≡ some r
      → count (is_held id old) (take_over_abandoned now id lock rows).0 ≡ 0
  unfolding take_over_abandoned
  nothing_held now id lock old rows r u n e =
      elim (Option-cases (find (is_abandoned now id) rows)) [
        | inl none' ↦ absurd (ground (arith, none', e))
        | inr (a, found) ↦ omega (
          arith,
          held_le now id lock old rows n,
          count_of_find (is_abandoned now id) rows found,
          u,
        )
      ]

  -- Once a retry has taken a key over, where the row's id is unique and the lock id new: the attempt
  -- that lost the key renews nothing and is told so, stores nothing and is told so, and deletes
  -- nothing.
  pub lost_key_writes_nothing :
      (now later : ℕ) (id lock old : String) (status : ℕ) (body : Option B)
      (rows : List (IdempotencyKey B)) (r : IdempotencyKey B)
      → count (has_id id) rows ≤ 1
      → lock ≢ old
      → (take_over_abandoned now id lock rows).1 ≡ some r
      → let rows' = (take_over_abandoned now id lock rows).0 in
        (renew later id old rows' ≡ (rows', false))
        × (complete id old status body rows' ≡ (rows', false))
        × (release id old rows' ≡ rows')
  unfolding renew complete release
  lost_key_writes_nothing now later id lock old status body rows r u n e =
      let h = nothing_held now id lock old rows r u n e in
      let rows' = (take_over_abandoned now id lock rows).0 in
      (
        ground (arith, h, modify_untouched (is_held id old) (renewed later) rows' h),
        ground (arith, h, modify_untouched (is_held id old) (finished status body) rows' h),
        remove_untouched (is_held id old) rows' h,
      )
