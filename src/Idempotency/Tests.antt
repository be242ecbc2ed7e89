-- ===== src/Idempotency/Tests.antt =====
-- A request of one user whose key is stored, taken over, retried and released.
use kuybi.Idempotency.Retry.{retry_gets_answer, failure_frees_key}
use kuybi.Idempotency.Outcome.{retry_replays}
use kuybi.Idempotency.Fencing.{lost_key_writes_nothing}
use kuybi.Prelude.Table.{count, find, modify}
use kuybi.Idempotency.Changes.{Steps, apply, ExpiresBefore, more, beat, prune, done}
use kuybi.Prelude.{
  List, ℕ, ◌∷◌, ◌≡◌, String, ◌≤◌, none, false, some, [], arith, true, refl, ◌≢◌, eq_iff,
}
use kuybi.Idempotency.{
  release, IdempotencyKey, take_over_abandoned, begin, find_by_key, complete, new_row, Clock, Uuids,
  renew, has_id, has_key, finished, in_progress, mismatch, relocked, started,
}
use kuybi.Idempotency.Interceptor.{
  record_outcome, Handler, is_key, returned, intercept, run_handler, http_error, replayed_success,
  failure, other_error,
}

abbrev clocks : ℕ → Clock
clocks n = record { app = 1000; db = 1000 }

abbrev ids : ℕ → Uuids
ids n = record { row_id = "r9"; lock = "l9"; takeover = "t9" }

abbrev running : IdempotencyKey String
running = record {
  id = "r1";
  scope = "u1:POST /stories";
  key = "k1";
  request_hash = "h1";
  status = in_progress;
  response_status = none;
  response_body = none;
  locked_at = 900;
  lock_id = "l1";
  expires_at = 5000;
}

abbrev other : IdempotencyKey String
other = record running { id = "r2"; key = "k2"; lock_id = "l2"; expires_at = 800 }

abbrev answered : IdempotencyKey String
answered = finished 201 (some "body") running

abbrev rows : List (IdempotencyKey String)
rows = other ∷ running ∷ []

abbrev stored_rows : List (IdempotencyKey String)
stored_rows = other ∷ answered ∷ []

found_running : find_by_key "u1:POST /stories" "k1" rows ≡ some running
unfolding find_by_key find
found_running = refl

found_answered : find_by_key "u1:POST /stories" "k1" stored_rows ≡ some answered
unfolding find_by_key find
found_answered = refl

-- another key's row is pruned and the old attempt's late heartbeat finds nothing
abbrev later_rows : List (IdempotencyKey String)
later_rows = apply (beat 950 "r1" "l1") (apply (prune 900) stored_rows)

later-Steps : Steps (ExpiresBefore 5000) stored_rows later_rows
later-Steps = more (beat 950 "r1" "l1") (more (prune 900) done (omega arith) tt) tt tt

retry_replays_example :
    begin clocks ids "u1:POST /stories" "k1" "h2" later_rows ≡ (later_rows, mismatch)
retry_replays_example =
    retry_replays clocks ids "u1:POST /stories" "k1" "h2" stored_rows later_rows answered
      found_answered refl later-Steps (omega arith)

abbrev is_posted : Handler String
is_posted rows = (rows, returned "again")

outcome_rows : record_outcome running 201 (returned "body") rows ≡ stored_rows
unfolding record_outcome complete modify
outcome_rows = refl

is_k1 : is_key (107 ∷ 49 ∷ []) ≡ true
unfolding is_key
is_k1 = refl

retry_gets_answer_example :
    let rows' = record_outcome running 201 (returned "body") rows in
    intercept clocks ids "u1:POST /stories" "k1" (107 ∷ 49 ∷ []) "h1" 201 is_posted rows'
    ≡ (rows', replayed_success 201 (some "body"))
retry_gets_answer_example =
    retry_gets_answer clocks ids "u1:POST /stories" "k1" (107 ∷ 49 ∷ []) 201 201 is_posted "body"
      running running rows (record_outcome running 201 (returned "body") rows) is_k1 (omega arith)
      found_running refl done (omega arith)

one_k1 : count (has_key "u1:POST /stories" "k1") rows ≤ 1
unfolding count
one_k1 = omega arith

failure_frees_key_example :
    let rows' = release "r1" "l1" rows in
    let row = new_row (clocks 1) (ids 1) "u1:POST /stories" "k1" "h2" in
    (run_handler 201 (λ s. (s, http_error 503 "down")) running rows
      ≡ (rows', failure 503 (some "down")))
    × (run_handler 201 (λ s. (s, other_error)) running rows ≡ (rows', failure 500 none))
    × (begin clocks ids "u1:POST /stories" "k1" "h2" rows' ≡ (row ∷ rows', started row))
failure_frees_key_example =
    failure_frees_key clocks ids "u1:POST /stories" "k1" "h2" 201 503 "down" running running rows
      (omega arith) one_k1 found_running refl

one_r1 : count (has_id "r1") rows ≤ 1
unfolding count
one_r1 = omega arith

taken : (take_over_abandoned 61000 "r1" "l3" rows).1 ≡ some (relocked 61000 "l3" running)
unfolding take_over_abandoned find
taken = refl

another_lock : ◌≢◌ {A = String} "l3" "l1"
another_lock e = ground (arith, eq_iff "l3" "l1", e)

lost_key_writes_nothing_example :
    let rows' = (take_over_abandoned 61000 "r1" "l3" rows).0 in
    (renew 62000 "r1" "l1" rows' ≡ (rows', false))
    × (complete "r1" "l1" 200 (some "late") rows' ≡ (rows', false))
    × (release "r1" "l1" rows' ≡ rows')
lost_key_writes_nothing_example =
    lost_key_writes_nothing 61000 62000 "r1" "l3" "l1" 200 (some "late") rows
      (relocked 61000 "l3" running) one_r1 another_lock taken
