-- ===== src/Idempotency.antt =====
-- src/core/idempotency/idempotency.service.ts: `IdempotencyService` over the rows of the table
-- idempotency_keys. Each statement is one atomic step on the rows; the unique index on (scope, key)
-- makes the insertion fail. A row's body is `none` where the source stores null. New uuids and the
-- readings of the service's clock (`app`) and of the database's (`db`) are arguments.
pub mod Changes
pub mod Outcome
pub mod Interceptor
pub mod Fencing
pub mod Retry
mod Tests
use mathlib.Core.Option
use kuybi.Prelude.Table.{remove, find, modify, count}
use kuybi.Prelude.{
  String, ℕ, Bool, Option, ◌==◌, true, ◌*◌, none, List, ◌+◌, suc, false, ltb, some, if◌then◌else◌,
  ◌&&◌, ◌∷◌, leb, zero, string_eq,
}

pub data IdempotencyStatus : Type 0 where
  in_progress completed : IdempotencyStatus

abbrev pub is_in_progress : IdempotencyStatus → Bool
is_in_progress in_progress = true
is_in_progress completed = false

abbrev pub idempotency_ttl_ms : ℕ
idempotency_ttl_ms = 24 * 60 * 60 * 1000

abbrev pub idempotency_lease_ms : ℕ
idempotency_lease_ms = 60 * 1000

pub record Clock : Type 0 where
  pub app : ℕ
  pub db : ℕ

-- the uuids that one round of `begin` would draw: the row's id, its lock and a takeover's lock
pub record Uuids : Type 0 where
  pub row_id : String
  pub lock : String
  pub takeover : String

pub record IdempotencyKey (B : Type 0) : Type 0 where
  pub id : String
  pub scope : String
  pub key : String
  pub request_hash : String
  pub status : IdempotencyStatus
  pub response_status : Option ℕ
  pub response_body : Option B
  pub locked_at : ℕ
  pub lock_id : String
  pub expires_at : ℕ

pub data BeginResult (B : Type 0) : Type 0 where
  started replay : IdempotencyKey B → BeginResult B
  still_in_progress mismatch : BeginResult B

module _ {B : Type 0} where
  abbrev pub has_key : String → String → IdempotencyKey B → Bool
  has_key scope key r = r.scope == scope && r.key == key

  abbrev pub has_id : String → IdempotencyKey B → Bool
  has_id id r = r.id == id

  -- `id`, `lockId` and `status = 'in_progress'` of the attempt that holds the key
  abbrev pub is_held : String → String → IdempotencyKey B → Bool
  is_held id lock r = r.id == id && r.lock_id == lock && is_in_progress r.status

  abbrev pub is_abandoned : ℕ → String → IdempotencyKey B → Bool
  is_abandoned now id r =
      r.id == id && is_in_progress r.status && ltb (r.locked_at + idempotency_lease_ms) now

  abbrev pub new_row : Clock → Uuids → String → String → String → IdempotencyKey B
  new_row clock uuids scope key request_hash = record {
    id = uuids.row_id;
    scope = scope;
    key = key;
    request_hash = request_hash;
    status = in_progress;
    response_status = none;
    response_body = none;
    locked_at = clock.db;
    lock_id = uuids.lock;
    expires_at = clock.app + idempotency_ttl_ms;
  }

  abbrev pub relocked : ℕ → String → IdempotencyKey B → IdempotencyKey B
  relocked now lock r = record r { locked_at = now; lock_id = lock }

  abbrev pub renewed : ℕ → IdempotencyKey B → IdempotencyKey B
  renewed now r = record r { locked_at = now }

  abbrev pub finished : ℕ → Option B → IdempotencyKey B → IdempotencyKey B
  finished response_status body r = record r {
    status = completed;
    response_status = some response_status;
    response_body = body;
  }

  -- `findOneBy({ scope, key })`
  unfoldable pub find_by_key : String → String → List (IdempotencyKey B) → Option (IdempotencyKey B)
  find_by_key scope key = find (has_key scope key)

  -- the rows, and the row that `RETURNING *` gives
  unfoldable pub take_over_abandoned :
      ℕ
      → String
      → String
      → List (IdempotencyKey B)
      → List (IdempotencyKey B) × Option (IdempotencyKey B)
  take_over_abandoned now id lock rows = (
    modify (is_abandoned now id) (relocked now lock) rows,
    Option.map (relocked now lock) (find (is_abandoned now id) rows),
  )

  unfoldable pub renew :
      ℕ → String → String → List (IdempotencyKey B) → List (IdempotencyKey B) × Bool
  renew now id lock rows =
      (modify (is_held id lock) (renewed now) rows, ltb 0 (count (is_held id lock) rows))

  unfoldable pub complete :
      String → String → ℕ → Option B → List (IdempotencyKey B) → List (IdempotencyKey B) × Bool
  complete id lock response_status body rows = (
    modify (is_held id lock) (finished response_status body) rows,
    ltb 0 (count (is_held id lock) rows),
  )

  unfoldable pub release : String → String → List (IdempotencyKey B) → List (IdempotencyKey B)
  release id lock rows = remove (is_held id lock) rows

  unfoldable pub prune_expired : ℕ → List (IdempotencyKey B) → List (IdempotencyKey B) × ℕ
  prune_expired now rows =
      let old = λ (r : IdempotencyKey B). ltb r.expires_at now in (remove old rows, count old rows)

  -- the part of a round of `begin` behind the failed insertion, for a row that is found and live
  unfoldable pub answer :
      Clock
      → Uuids
      → String
      → IdempotencyKey B
      → List (IdempotencyKey B)
      → List (IdempotencyKey B) × BeginResult B
  answer clock uuids request_hash existing rows =
      if existing.request_hash == request_hash
      then (if is_in_progress existing.status
          then (let (rows', taken) = take_over_abandoned clock.db existing.id uuids.takeover rows in
              (rows', elim taken [ none ↦ still_in_progress | some r ↦ started r ]))
          else (rows, replay existing))
      else (rows, mismatch)

  -- the loop of `begin`, with the rounds that are left; each has its clock and uuids
  unfoldable pub begin_rounds :
      ℕ
      → (ℕ → Clock)
      → (ℕ → Uuids)
      → String
      → String
      → String
      → List (IdempotencyKey B)
      → List (IdempotencyKey B) × BeginResult B
  unfolding answer
  begin_rounds zero clock uuids scope key request_hash rows = (rows, still_in_progress)
  begin_rounds (suc n) clock uuids scope key request_hash rows =
      let row = new_row (clock n) (uuids n) scope key request_hash in
      elim (find_by_key scope key rows) [
        | none ↦ (row ∷ rows, started row)
        | some existing ↦
            let again =
              begin_rounds n clock uuids scope key request_hash
                (remove (has_id existing.id) rows) in
            if leb existing.expires_at (clock n).app
            then again
            else answer (clock n) (uuids n) request_hash existing rows
      ]

  -- With no other request in between; then a row that the index refused is found.
  unfoldable pub begin :
      (ℕ → Clock)
      → (ℕ → Uuids)
      → String
      → String
      → String
      → List (IdempotencyKey B)
      → List (IdempotencyKey B) × BeginResult B
  begin = begin_rounds 2
