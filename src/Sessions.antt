-- ===== src/Sessions.antt =====
-- src/modules/auth/repositories/session.repository.ts: the statements on the table sessions, and
-- src/modules/auth/utils/session-list.util.ts: `sessionState`. A row has the columns that the
-- services read or write; device, address and metadata are one value of a type of the caller. Clock
-- readings are arguments. What the caches return is an argument in Sessions/Service.antt.
pub mod Service
pub mod Statements
pub mod Rotation
pub mod Access
pub mod AccessCache
pub mod Limit
mod Tests
use kuybi.Prelude.Table.{count, modify, select, find, remove}
use kuybi.Prelude.{
  Bool, List, ℕ, String, ◌*◌, if◌then◌else◌, ◌==◌, false, ◌&&◌, ltb, ◌-◌, Option, ◌∷◌, string_eq,
  ◌||◌, some, leb, is_none, none, true, not,
}

pub record Session (M : Type 0) : Type 0 where
  pub id : String
  pub user_id : String
  pub credentials_version : ℕ
  pub refresh_token_hash : String
  pub is_active : Bool
  pub last_activity_at : ℕ
  pub expires_at : ℕ
  pub deleted_at : Option ℕ
  pub revocation_reason : Option String
  pub created_at : ℕ
  pub metadata : M

pub data SessionState : Type 0 where
  active expired revoked : SessionState

abbrev pub day_ms : ℕ
day_ms = 24 * 60 * 60 * 1000

abbrev pub activity_write_interval_ms : ℕ
activity_write_interval_ms = 60000

pub record AccessStatus : Type 0 where
  pub usable : Bool
  pub expires_at : ℕ

-- from a status that is cached, or just read
unfoldable pub is_usable_for_access : ℕ → AccessStatus → Bool
is_usable_for_access now status = status.usable && ltb now status.expires_at

module _ {M : Type 0} where
  -- neither revoked nor soft-deleted
  abbrev pub is_open : Session M → Bool
  is_open s = s.is_active && is_none s.deleted_at

  unfoldable pub session_state : ℕ → Session M → SessionState
  session_state now s =
      if is_open s then (if leb s.expires_at now then expired else active) else revoked

  abbrev pub has_id : String → Session M → Bool
  has_id id s = s.id == id

  -- `id = :sessionId AND isActive = true AND deletedAt IS NULL`
  abbrev pub is_open_id : String → Session M → Bool
  is_open_id id s = s.id == id && is_open s

  abbrev pub is_open_of : String → Option String → Session M → Bool
  is_open_of user_id exclude s =
      s.user_id == user_id && is_open s && elim exclude [ none ↦ true | some x ↦ not (s.id == x) ]

  abbrev pub is_live_of : ℕ → String → Session M → Bool
  is_live_of now user_id s = s.user_id == user_id && is_open s && ltb now s.expires_at

  abbrev pub revoked_row : ℕ → String → Session M → Session M
  revoked_row now reason s = record s {
    is_active = false;
    deleted_at = some now;
    revocation_reason = some reason;
  }

  abbrev pub touched_row : ℕ → Session M → Session M
  touched_row now s = record s { last_activity_at = now }

  abbrev pub extended_row : ℕ → Session M → Session M
  extended_row expires_at s = record s { expires_at = expires_at }

  abbrev pub is_over : ℕ → Session M → Bool
  is_over cutoff s =
      ltb s.expires_at cutoff || elim s.deleted_at [ none ↦ false | some t ↦ ltb t cutoff ]

  -- `findById(id, { bypassCache: true })`
  unfoldable pub find_by_id : String → List (Session M) → Option (Session M)
  find_by_id id = find (has_id id)

  -- the rows that `findActiveByUserId` reads
  unfoldable pub find_active_by_user_id : ℕ → String → List (Session M) → List (Session M)
  find_active_by_user_id now user_id = select (is_live_of now user_id)

  unfoldable pub get_active_session_count : ℕ → String → List (Session M) → ℕ
  get_active_session_count now user_id = count (is_live_of now user_id)

  unfoldable pub revoke_session : ℕ → String → String → List (Session M) → List (Session M) × Bool
  revoke_session now id reason rows =
      (modify (is_open_id id) (revoked_row now reason) rows, ltb 0 (count (is_open_id id) rows))

  unfoldable pub revoke_all_user_sessions :
      ℕ → String → Option String → String → List (Session M) → List (Session M) × ℕ
  revoke_all_user_sessions now user_id exclude reason rows = (
    modify (is_open_of user_id exclude) (revoked_row now reason) rows,
    count (is_open_of user_id exclude) rows,
  )

  unfoldable pub cleanup_expired : ℕ → ℕ → List (Session M) → List (Session M) × ℕ
  cleanup_expired now older_than_days rows =
      let cutoff = now - older_than_days * day_ms in
      (remove (is_over cutoff) rows, count (is_over cutoff) rows)

  unfoldable pub update_expiry : String → ℕ → List (Session M) → List (Session M)
  update_expiry id expires_at = modify (has_id id) (extended_row expires_at)

  unfoldable pub touch : String → ℕ → List (Session M) → List (Session M)
  touch id now = modify (has_id id) (touched_row now)

  unfoldable pub insert : Session M → List (Session M) → List (Session M)
  insert s rows = s ∷ rows

  -- the branch for a row that is found, all clock readings being `now`
  unfoldable pub validate_found :
      ℕ → Session M → List (Session M) → List (Session M) × Option (Session M)
  validate_found now s rows =
      if is_open s
      then (if leb s.expires_at now
          then ((revoke_session now s.id "expired" rows).0, none)
          else (if ltb activity_write_interval_ms (now - s.last_activity_at)
              then (touch s.id now rows, some (touched_row now s))
              else (rows, some s)))
      else (rows, none)

  unfoldable pub validate_session :
      ℕ → String → List (Session M) → List (Session M) × Option (Session M)
  validate_session now id rows = elim (find_by_id id rows) [
    | none ↦ (rows, none)
    | some s ↦ validate_found now s rows
  ]

  -- what `isUsableForAccess` caches
  unfoldable pub access_status : String → String → List (Session M) → AccessStatus
  access_status id user_id rows = elim (find_by_id id rows) [
    | none ↦ record { usable = false; expires_at = 0 }
    | some s ↦ record { usable = s.user_id == user_id && is_open s; expires_at = s.expires_at }
  ]
