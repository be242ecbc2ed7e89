-- ===== src/Idempotency/Changes.antt =====
-- src/core/idempotency/idempotency.service.ts: the atomic statements that requests with any keys, the
-- heartbeats and the hourly pruning send to the table, interleaved in any order.
use kuybi.Prelude.Table.{remove}
use kuybi.Prelude.{List, ℕ, ◌<◌, ◌≡◌, ◌≤◌, String, Option, ◌∷◌, none, All, true}
use kuybi.Idempotency.{
  Clock, find_by_key, Uuids, IdempotencyKey, new_row, has_id, take_over_abandoned, renew, complete,
  release, prune_expired,
}

pub data Change (B : Type 0) : Type 0 where
  insert : Clock → Uuids → String → String → String → Change B
  -- a row that `begin` has read as expired
  delete_read : ℕ → String → Change B
  take_over : ℕ → String → String → Change B
  beat : ℕ → String → String → Change B
  store : String → String → ℕ → Option B → Change B
  forget : String → String → Change B
  prune : ℕ → Change B

module _ {B : Type 0} where
  unfoldable pub apply : Change B → List (IdempotencyKey B) → List (IdempotencyKey B)
  apply (insert clock uuids scope key request_hash) rows =
      new_row clock uuids scope key request_hash ∷ rows
  apply (delete_read now id) rows = remove (has_id id) rows
  apply (take_over now id lock) rows = (take_over_abandoned now id lock rows).0
  apply (beat now id lock) rows = (renew now id lock rows).0
  apply (store id lock response_status body) rows = (complete id lock response_status body rows).0
  apply (forget id lock) rows = release id lock rows
  apply (prune now) rows = (prune_expired now rows).0

  abbrev IsExpired : ℕ → IdempotencyKey B → Type 0
  IsExpired now r = r.expires_at ≤ now

  -- The unique index refuses a second row of a key. A row that was read as expired at `now` has still
  -- that expiry: no statement changes it, and ids are not used again.
  abbrev pub IsEnabled : Change B → List (IdempotencyKey B) → Type 0
  IsEnabled (insert clock uuids scope key request_hash) rows = find_by_key scope key rows ≡ none
  IsEnabled (delete_read now id) rows = All (λ r. has_id id r ≡ true → r.expires_at ≤ now) rows
  IsEnabled (take_over now id lock) rows = Unit
  IsEnabled (beat now id lock) rows = Unit
  IsEnabled (store id lock response_status body) rows = Unit
  IsEnabled (forget id lock) rows = Unit
  IsEnabled (prune now) rows = Unit

  pub data Steps (P : Change B → Type 0) (rows : List (IdempotencyKey B))
      : List (IdempotencyKey B) → Type 0 where
    done : Steps P rows rows
    more :
        {s : List (IdempotencyKey B)} (c : Change B)
        → Steps P rows s
        → P c
        → IsEnabled c s
        → Steps P rows (apply c s)

  -- the service's clock, where a statement deletes what has expired by it
  abbrev pub ExpiresBefore : ℕ → Change B → Type 0
  ExpiresBefore t (delete_read now id) = now < t
  ExpiresBefore t (prune now) = now < t
  ExpiresBefore t _ = Unit
