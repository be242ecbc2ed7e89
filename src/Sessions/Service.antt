-- ===== src/Sessions/Service.antt =====
-- src/modules/auth/services/sessions.service.ts: `SessionsService` over the rows. `reads` is what the
-- two cached reads of `makeRoomForNewSession` return, which may be older than the rows; `now` is the
-- clock for one call. The new session's id, secret hash, device data and metadata come with the call.
use kuybi.Prelude.Method.{Result, err, ok}
use kuybi.Sessions.{Session, insert, find_by_id, revoke_session, day_ms, update_expiry}
use kuybi.Prelude.{
  List, String, ℕ, true, ◌∷◌, Option, if◌then◌else◌, min, none, length, ltb, ◌+◌, [], leb, ◌*◌,
  get_or_else, some, take, ◌-◌,
}

pub record SessionsConfig : Type 0 where
  pub max_concurrent_sessions : ℕ
  pub default_session_days : ℕ

pub record CachedReads (M : Type 0) : Type 0 where
  pub active_count : ℕ
  pub active_sessions : List (Session M)

pub record CreateSessionOptions (M : Type 0) : Type 0 where
  pub user_id : String
  pub credentials_version : ℕ
  pub expires_in_days : Option ℕ
  pub metadata : M

-- the random id of a session, and the hash of its random secret
pub record Token : Type 0 where
  pub token_id : String
  pub refresh_token_hash : String

pub data RefreshError : Type 0 where
  invalid_session session_expired already_used : RefreshError

abbrev pub max_extended_days : ℕ
max_extended_days = 30

-- `slice(0, n - max + 1)`: a negative end counts from the end of the list.
unfoldable pub excess_end : ℕ → ℕ → ℕ
excess_end n limit = if leb limit (n + 1) then n + 1 - limit else n - (limit - (n + 1))

module _ {M : Type 0} where
  unfoldable pub insert_by_created : Session M → List (Session M) → List (Session M)
  insert_by_created s [] = s ∷ []
  insert_by_created s (t ∷ ts) =
      let rest = insert_by_created s ts in
      if leb s.created_at t.created_at then s ∷ t ∷ ts else t ∷ rest

  -- a stable sort
  unfoldable pub oldest_first : List (Session M) → List (Session M)
  oldest_first [] = []
  oldest_first (s ∷ ss) = insert_by_created s (oldest_first ss)

  unfoldable pub revoke_each : ℕ → String → List (Session M) → List (Session M) → List (Session M)
  revoke_each now reason [] rows = rows
  revoke_each now reason (s ∷ ss) rows =
      revoke_each now reason ss (revoke_session now s.id reason rows).0

  unfoldable pub make_room :
      SessionsConfig → CachedReads M → ℕ → List (Session M) → List (Session M)
  make_room config reads now rows =
      let n = length reads.active_sessions in
      if ltb reads.active_count config.max_concurrent_sessions
      then rows
      else revoke_each now "concurrent_limit_exceeded"
          (take (excess_end n config.max_concurrent_sessions) (oldest_first reads.active_sessions))
          rows

  abbrev pub new_session : SessionsConfig → Token → ℕ → CreateSessionOptions M → Session M
  new_session config token now options = record {
    id = token.token_id;
    user_id = options.user_id;
    credentials_version = options.credentials_version;
    refresh_token_hash = token.refresh_token_hash;
    is_active = true;
    last_activity_at = now;
    expires_at = now + get_or_else options.expires_in_days config.default_session_days * day_ms;
    deleted_at = none;
    revocation_reason = none;
    created_at = now;
    metadata = options.metadata;
  }

  unfoldable pub create_session :
      SessionsConfig
      → CachedReads M
      → Token
      → ℕ
      → CreateSessionOptions M
      → List (Session M)
      → List (Session M) × Session M
  create_session config reads token now options rows =
      let s = new_session config token now options in
      (insert s (make_room config reads now rows), s)

  -- `successor` makes the new session's metadata from the old one's.
  abbrev pub rotated : (M → M) → Session M → CreateSessionOptions M
  rotated successor s = record {
    user_id = s.user_id;
    credentials_version = s.credentials_version;
    expires_in_days = none;
    metadata = successor s.metadata;
  }

  -- The read of `refreshSession`, its conditional revocation, and the new session are separate
  -- statements: `refresh_with` is what follows the read.
  unfoldable pub refresh_with :
      SessionsConfig
      → (List (Session M) → CachedReads M)
      → Token
      → ℕ
      → (M → M)
      → String
      → Option (Session M)
      → List (Session M)
      → List (Session M) × Result RefreshError (Session M)
  refresh_with config reads token now successor id none rows = (rows, err invalid_session)
  refresh_with config reads token now successor id (some s) rows =
      let (gone, first) = revoke_session now id "refreshed" rows in
      if s.is_active
      then (if leb s.expires_at now
          then ((revoke_session now id "expired" rows).0, err session_expired)
          else (if first
              then (let (rows', t) =
                    create_session config (reads gone) token now (rotated successor s) gone in
                  (rows', ok t))
              else (gone, err already_used)))
      else (rows, err invalid_session)

  unfoldable pub refresh_session :
      SessionsConfig
      → (List (Session M) → CachedReads M)
      → Token
      → ℕ
      → (M → M)
      → String
      → List (Session M)
      → List (Session M) × Result RefreshError (Session M)
  refresh_session config reads token now successor id rows =
      refresh_with config reads token now successor id (find_by_id id rows) rows

  -- `session` is the caller's copy of the row
  unfoldable pub extend_session : ℕ → Session M → ℕ → List (Session M) → List (Session M) × ℕ
  extend_session now session days rows =
      let expires_at =
        min (session.expires_at + days * day_ms) (now + max_extended_days * day_ms) in
      (update_expiry session.id expires_at rows, expires_at)
