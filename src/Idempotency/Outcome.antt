-- ===== src/Idempotency/Outcome.antt =====
-- src/core/idempotency/idempotency.service.ts: a stored outcome stands until it expires, and retries
-- get it.
use kuybi.Prelude.Table.{find, find-remove_kept, find-All, find-modify_found}
use kuybi.Idempotency.{
  IdempotencyKey, find_by_key, completed, begin, begin_rounds, Clock, Uuids, has_id, replay,
  mismatch, has_key, take_over_abandoned, is_abandoned, relocked, renew, is_held, renewed, complete,
  finished, release, prune_expired,
}
use kuybi.Prelude.{
  String, List, ◌≡◌, some, ℕ, ◌<◌, if◌then◌else◌, true, ◌≤◌, ◌==◌, false, arith, Bool-cases, eq_iff,
  inl, string_eq, inr, ◌∙◌, ltb, refl,
}
use kuybi.Idempotency.Changes.{
  apply, Change, Steps, ExpiresBefore, more, IsEnabled, insert, done, delete_read, take_over, beat,
  store, forget, prune,
}

module _ {B : Type 0} where
  kept_by_delete :
      (now : ℕ) (id : String) (r : IdempotencyKey B)
      → now < r.expires_at
      → (has_id id r ≡ true → r.expires_at ≤ now)
      → has_id id r ≡ false
  kept_by_delete now id r t h = elim (Bool-cases (has_id id r)) [
    | inl same ↦ absurd (omega (arith, h same))
    | inr other ↦ other
  ]

  apply-keeps :
      (c : Change B) (rows : List (IdempotencyKey B)) (scope key : String) (r : IdempotencyKey B)
      → ExpiresBefore r.expires_at c
      → IsEnabled c rows
      → r.status ≡ completed
      → find_by_key scope key rows ≡ some r
      → find_by_key scope key (apply c rows) ≡ some r
  unfolding apply find_by_key
  apply-keeps (insert clock uuids s k h) rows scope key r t e d f =
      unfold find in ground (arith, f, e, eq_iff s scope, eq_iff k key)
  apply-keeps (delete_read now id) rows scope key r t e d f =
      find-remove_kept (has_key scope key) (has_id id) rows f (
        kept_by_delete now id r t
          (find-All (λ x. has_id id x ≡ true → x.expires_at ≤ now) (has_key scope key) rows e f))
  apply-keeps (take_over now id lock) rows scope key r t e d f =
      unfold take_over_abandoned in
      (find-modify_found (has_key scope key) (is_abandoned now id) (relocked now lock) rows
          (λ x h. refl) f
        ∙ ground (arith, d))
  apply-keeps (beat now id lock) rows scope key r t e d f =
      unfold renew in
      (find-modify_found (has_key scope key) (is_held id lock) (renewed now) rows (λ x h. refl) f
        ∙ ground (arith, d))
  apply-keeps (store id lock n b) rows scope key r t e d f =
      unfold complete in
      (find-modify_found (has_key scope key) (is_held id lock) (finished n b) rows (λ x h. refl) f
        ∙ ground (arith, d))
  apply-keeps (forget id lock) rows scope key r t e d f =
      unfold release in
      find-remove_kept (has_key scope key) (is_held id lock) rows f (ground (arith, d))
  apply-keeps (prune now) rows scope key r t e d f =
      unfold prune_expired in
      find-remove_kept (has_key scope key) (λ x. ltb x.expires_at now) rows f (ground (arith, t))

  Steps-keep :
      (scope key : String) (r : IdempotencyKey B) (rows rows' : List (IdempotencyKey B))
      → Steps (ExpiresBefore r.expires_at) rows rows'
      → r.status ≡ completed
      → find_by_key scope key rows ≡ some r
      → find_by_key scope key rows' ≡ some r
  Steps-keep scope key r rows rows' done d f = f
  Steps-keep scope key r rows rows' (more {s} c before p e) d f =
      apply-keeps c s scope key r p e d (Steps-keep scope key r rows s before d f)

  begin-stored :
      (clock : ℕ → Clock) (uuids : ℕ → Uuids) (scope key request_hash : String)
      (rows : List (IdempotencyKey B)) (r : IdempotencyKey B)
      → find_by_key scope key rows ≡ some r
      → r.status ≡ completed
      → (clock 1).app < r.expires_at
      → begin clock uuids scope key request_hash rows
        ≡ (rows, (if r.request_hash == request_hash then replay r else mismatch))
  unfolding begin begin_rounds
  begin-stored clock uuids scope key request_hash rows r f d t = ground (arith, f, d)

  -- Once an outcome is stored for a (scope, key), and as long as it has not expired by the clocks
  -- that are read: whatever statements other requests, heartbeats and prunings run meanwhile, a
  -- request with that key gets the stored row again if its hash is the stored one, and `mismatch`
  -- otherwise, and changes nothing.
  pub retry_replays :
      (clock : ℕ → Clock) (uuids : ℕ → Uuids) (scope key request_hash : String)
      (rows rows' : List (IdempotencyKey B)) (r : IdempotencyKey B)
      → find_by_key scope key rows ≡ some r
      → r.status ≡ completed
      → Steps (ExpiresBefore r.expires_at) rows rows'
      → (clock 1).app < r.expires_at
      → begin clock uuids scope key request_hash rows'
        ≡ (rows', (if r.request_hash == request_hash then replay r else mismatch))
  retry_replays clock uuids scope key request_hash rows rows' r f d steps t =
      begin-stored clock uuids scope key request_hash rows' r
        (Steps-keep scope key r rows rows' steps d f) d t
