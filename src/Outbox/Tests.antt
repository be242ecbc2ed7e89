-- ===== src/Outbox/Tests.antt =====
-- A queue of messages while Redis is slow.
use kuybi.Outbox.Relay.{IsWellFormed, relay-IsWellFormed}
use kuybi.Outbox.{
  dispatch, OutboxMessage, Dispatch, dispatched, relay_batch, pending, queued, timed_out,
}
use kuybi.Prelude.{
  All, List, String, none, Bool, ◌≤◌, some, ◌∷◌, ◌≡◌, false, if◌then◌else◌, true, [], refl, ◌==◌,
  arith, string_eq,
}

abbrev email : OutboxMessage String
email = record {
  id = "m1";
  payload = some "link";
  status = pending;
  attempts = 9;
  available_at = 10;
  last_error = none;
  dispatched_at = none;
}

abbrev notice : OutboxMessage String
notice = record email { id = "m2"; attempts = 0; available_at = 20 }

abbrev sent : OutboxMessage String
sent = record email { id = "m3"; payload = none; status = dispatched; dispatched_at = some 5 }

abbrev rows : List (OutboxMessage String)
rows = notice ∷ email ∷ sent ∷ []

abbrev outcome : String → Dispatch
outcome id = if id == "m1" then queued else timed_out "timeout"

abbrev nobody : String → Bool
nobody id = false

relay-IsWellFormed_example :
    All IsWellFormed (relay_batch 30 nobody outcome rows).0
    × ((relay_batch 30 nobody outcome rows).1 ≤ 50)
relay-IsWellFormed_example =
    relay-IsWellFormed 30 nobody outcome rows (omega arith, (omega arith, ((refl, refl, refl), tt)))

sends_email : All (λ x. (dispatch 30 (outcome x.id) x).1 ≡ true) (email ∷ [])
unfolding dispatch
sends_email = (refl, tt)
