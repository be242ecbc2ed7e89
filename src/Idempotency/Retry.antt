-- ===== src/Idempotency/Retry.antt =====
-- src/core/idempotency/idempotency.interceptor.ts: what a retry of a request gets.
use kuybi.Idempotency.Outcome.{retry_replays}
use kuybi.Idempotency.Changes.{Steps, ExpiresBefore}
use kuybi.Prelude.Table.Untouched.{removed_none}
use kuybi.Prelude.Table.{count, find-modify_found}
use kuybi.Prelude.{
  String, ℕ, List, Option, ◌≡◌, ◌≤◌, some, true, none, ◌<◌, ◌∙◌, arith, ◌∷◌, refl, eq_iff,
}
use kuybi.Idempotency.{
  find_by_key, complete, release, begin, IdempotencyKey, begin_rounds, Clock, Uuids, has_key,
  is_held, finished, new_row, started,
}
use kuybi.Idempotency.Interceptor.{
  intercept, run_handler, respond, record_outcome, replay_reply, outcome_reply, Handler, is_key,
  http_error, failure, other_error, returned, replayed_success,
}

module _ {B : Type 0} where
  stored :
      (scope key : String) (mine now : IdempotencyKey B) (status : ℕ) (body : Option B)
      (rows : List (IdempotencyKey B))
      → find_by_key scope key rows ≡ some now
      → is_held mine.id mine.lock_id now ≡ true
      → find_by_key scope key (complete mine.id mine.lock_id status body rows).0
        ≡ some (finished status body now)
  unfolding find_by_key complete
  stored scope key mine now status body rows f h =
      find-modify_found (has_key scope key) (is_held mine.id mine.lock_id) (finished status body)
        rows (λ x e. refl) f
      ∙ ground (arith, h)

  -- An attempt that still holds its key, a valid one, when its handler returns a body, with a success
  -- status below 400: whatever statements other requests, heartbeats and prunings run after that, a
  -- retry with the same key and hash, before the row expires by the clocks that are read, gets that
  -- body and its status as a replay. Its handler does not run, and the rows do not change.
  pub retry_gets_answer :
      (clock : ℕ → Clock) (uuids : ℕ → Uuids) (scope key : String) (codes : List ℕ)
      (status again : ℕ) (handler : Handler B) (body : B) (mine now : IdempotencyKey B)
      (rows rows' : List (IdempotencyKey B))
      → is_key codes ≡ true
      → status < 400
      → find_by_key scope key rows ≡ some now
      → is_held mine.id mine.lock_id now ≡ true
      → Steps (ExpiresBefore now.expires_at) (record_outcome mine status (returned body) rows) rows'
      → (clock 1).app < now.expires_at
      → intercept clock uuids scope key codes now.request_hash again handler rows'
        ≡ (rows', replayed_success status (some body))
  unfolding intercept respond replay_reply record_outcome
  retry_gets_answer clock uuids scope key codes status again handler body mine now rows rows' k s f
        h steps t =
      ground (
        arith,
        k,
        s,
        eq_iff now.request_hash now.request_hash,
        retry_replays clock uuids scope key now.request_hash
            (complete mine.id mine.lock_id status (some body) rows).0 rows'
            (finished status (some body) now)
            (stored scope key mine now status (some body) rows f h) refl steps t,
      )

  freed :
      (scope key : String) (mine now : IdempotencyKey B) (rows : List (IdempotencyKey B))
      → count (has_key scope key) rows ≤ 1
      → find_by_key scope key rows ≡ some now
      → is_held mine.id mine.lock_id now ≡ true
      → find_by_key scope key (release mine.id mine.lock_id rows) ≡ none
  unfolding find_by_key release
  freed scope key mine now rows u f h =
      removed_none (has_key scope key) (is_held mine.id mine.lock_id) rows f h u

  -- An attempt that holds its key when its handler ends with a 5xx, or with an error that is no
  -- `HttpException`, the key having one row: the key is free again, so the next request with it
  -- starts, whatever its hash, and the client gets the handler's error.
  pub failure_frees_key :
      (clock : ℕ → Clock) (uuids : ℕ → Uuids) (scope key request_hash : String) (status code : ℕ)
      (response : B) (mine now : IdempotencyKey B) (rows : List (IdempotencyKey B))
      → 500 ≤ code
      → count (has_key scope key) rows ≤ 1
      → find_by_key scope key rows ≡ some now
      → is_held mine.id mine.lock_id now ≡ true
      → let rows' = release mine.id mine.lock_id rows in
        let row = new_row (clock 1) (uuids 1) scope key request_hash in
        (run_handler status (λ s. (s, http_error code response)) mine rows
          ≡ (rows', failure code (some response)))
        × (run_handler status (λ s. (s, other_error)) mine rows ≡ (rows', failure 500 none))
        × (begin clock uuids scope key request_hash rows' ≡ (row ∷ rows', started row))
  unfolding run_handler record_outcome outcome_reply begin begin_rounds
  failure_frees_key clock uuids scope key request_hash status code response mine now rows c u f h =
      (ground (arith, c), refl, ground (arith, freed scope key mine now rows u f h))
