-- ===== src/Outbox.antt =====
-- src/core/outbox/outbox-relay.service.ts: `OutboxRelay` over the rows of the table outbox_messages.
-- A batch is claimed and written back in one transaction that holds the rows' locks. BullMQ's `add`
-- is not modelled: how each dispatch ends is an argument, by the message's id.
pub mod Relay
mod Tests
use kuybi.Prelude.Table.{remove, modify, select, count}
use kuybi.Prelude.{
  ℕ, Bool, String, List, ◌*◌, ◌∷◌, ◌&&◌, some, take, ◌-◌, true, Option, min, length, ◌+◌, ◌^◌,
  if◌then◌else◌, none, false, [], leb, ◌==◌, ltb, not, string_eq,
}

pub data MessageStatus : Type 0 where
  pending dispatched failed : MessageStatus

-- how `queue.add` ends, within the time budget or not
pub data Dispatch : Type 0 where
  queued : Dispatch
  refused : String → Dispatch
  timed_out : String → Dispatch

pub record OutboxMessage (P : Type 0) : Type 0 where
  pub id : String
  -- `none` stands for the empty payload that a dispatched row keeps
  pub payload : Option P
  pub status : MessageStatus
  pub attempts : ℕ
  pub available_at : ℕ
  pub last_error : Option String
  pub dispatched_at : Option ℕ

abbrev pub batch_size : ℕ
batch_size = 50

abbrev pub max_dispatch_attempts : ℕ
max_dispatch_attempts = 10

abbrev pub keep_dispatched_ms : ℕ
keep_dispatched_ms = 7 * 24 * 60 * 60 * 1000

unfoldable pub dispatch_backoff_ms : ℕ → ℕ
dispatch_backoff_ms attempts = min (2 ^ attempts * 1000) (5 * 60 * 1000)

abbrev pub is_pending : MessageStatus → Bool
is_pending pending = true
is_pending _ = false

abbrev pub is_dispatched : MessageStatus → Bool
is_dispatched dispatched = true
is_dispatched _ = false

module _ {P : Type 0} where
  unfoldable pub mark_failed : ℕ → String → OutboxMessage P → OutboxMessage P
  mark_failed now error m =
      let n = m.attempts + 1 in
      if leb max_dispatch_attempts n
      then record m { attempts = n; last_error = some error; status = failed }
      else record m {
        attempts = n;
        last_error = some error;
        available_at = now + dispatch_backoff_ms n;
      }

  abbrev pub mark_dispatched : ℕ → OutboxMessage P → OutboxMessage P
  mark_dispatched now m = record m {
    status = dispatched;
    dispatched_at = some now;
    payload = none;
    last_error = none;
  }

  -- The message, and whether Redis answered.
  unfoldable pub dispatch : ℕ → Dispatch → OutboxMessage P → OutboxMessage P × Bool
  dispatch now queued m = (mark_dispatched now m, true)
  dispatch now (refused error) m = (mark_failed now error m, true)
  dispatch now (timed_out error) m = (mark_failed now error m, false)

  -- the loop over the claimed messages, up to the first that timed out
  unfoldable pub dispatch_all :
      ℕ → (String → Dispatch) → List (OutboxMessage P) → List (OutboxMessage P)
  dispatch_all now outcome [] = []
  dispatch_all now outcome (m ∷ ms) =
      let (m', answered) = dispatch now (outcome m.id) m in
      let rest = dispatch_all now outcome ms in m' ∷ (if answered then rest else ms)

  abbrev pub is_due : ℕ → OutboxMessage P → Bool
  is_due now m = is_pending m.status && leb m.available_at now

  unfoldable pub insert_by_available :
      OutboxMessage P → List (OutboxMessage P) → List (OutboxMessage P)
  insert_by_available m [] = m ∷ []
  insert_by_available m (n ∷ ns) =
      let rest = insert_by_available m ns in
      if leb m.available_at n.available_at then m ∷ n ∷ ns else n ∷ rest

  -- `ORDER BY availableAt`
  unfoldable pub by_available : List (OutboxMessage P) → List (OutboxMessage P)
  by_available [] = []
  by_available (m ∷ ms) = insert_by_available m (by_available ms)

  -- the due rows that no other worker has locked
  unfoldable pub claim : ℕ → (String → Bool) → List (OutboxMessage P) → List (OutboxMessage P)
  claim now locked rows =
      take batch_size (by_available (select (λ m. is_due now m && not (locked m.id)) rows))

  -- `save` of the entities: each row is replaced by the one of its id
  unfoldable pub save : List (OutboxMessage P) → List (OutboxMessage P) → List (OutboxMessage P)
  save [] rows = rows
  save (m ∷ ms) rows = save ms (modify (λ r. r.id == m.id) (λ r. m) rows)

  unfoldable pub relay_batch :
      ℕ
      → (String → Bool)
      → (String → Dispatch)
      → List (OutboxMessage P)
      → List (OutboxMessage P) × ℕ
  relay_batch now locked outcome rows =
      let claimed = claim now locked rows in
      (save (dispatch_all now outcome claimed) rows, length claimed)

  abbrev pub is_prunable : ℕ → OutboxMessage P → Bool
  is_prunable cutoff m =
      is_dispatched m.status && elim m.dispatched_at [ none ↦ false | some t ↦ ltb t cutoff ]

  unfoldable pub prune : ℕ → List (OutboxMessage P) → List (OutboxMessage P) × ℕ
  prune now rows =
      let old = is_prunable (now - keep_dispatched_ms) in (remove old rows, count old rows)
