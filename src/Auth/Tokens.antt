-- ===== src/Auth/Tokens.antt =====
-- src/modules/auth/services/auth.service.ts: `login`, `refresh` and `logout` over the sessions;
-- src/modules/auth/services/access-token.service.ts and token-blacklist.service.ts;
-- src/modules/auth/strategies/jwt.strategy.ts: `validate`. A refresh token is the list of its parts
-- between the dots. `verify_secret` checks a secret against its hash. Reads that may come from a cache
-- are arguments. `now` is the clock for one call.
use kuybi.Prelude.Method.{Result, err, ok}
use kuybi.Sessions.{
  Session, AccessStatus, revoke_session, is_usable_for_access, validate_session,
  revoke_all_user_sessions,
}
use kuybi.Sessions.Service.{
  RefreshError, SessionsConfig, CachedReads, Token, CreateSessionOptions, refresh_session,
  create_session,
}
use kuybi.Prelude.{
  ℕ, List, Option, String, some, ◌*◌, Bool, ◌+◌, none, ◌-◌, if◌then◌else◌, not, ◌∷◌, true, any,
  false, get_or_else, ◌==◌, leb, ◌/◌, is_some, ◌||◌, nat_eq, ◌&&◌, string_eq, ltb, [],
}
use kuybi.Auth.{Account, AccessTokenPayload, find_account}

pub data LoginResult (M : Type 0) : Type 0 where
  must_change_password : AccessTokenPayload → LoginResult M
  signed_in : AccessTokenPayload → Session M → LoginResult M

pub data TokenError : Type 0 where
  bad_format no_session bad_secret user_unavailable password_was_reset not_owner : TokenError
  not_rotated : RefreshError → TokenError

pub data AccessError : Type 0 where
  token_revoked session_ended not_bound no_such_user inactive_user outdated : AccessError

-- an entry of the cache, whose key is the hash of a token; it is gone once it expires
pub record BlacklistEntry : Type 0 where
  pub token_hash : String
  pub until : ℕ

pub record LoggedOut : Type 0 where
  pub sessions_invalidated : ℕ
  pub all_devices : Bool
  pub token_blacklisted : Bool

-- an access token as `logout` gets it: its hash, and the `exp` that can be read from it
pub record PresentedToken : Type 0 where
  pub token_hash : String
  pub exp : Option ℕ

abbrev pub fallback_ttl_seconds : ℕ
fallback_ttl_seconds = 15 * 60

abbrev pub issue_for_session : Account → String → AccessTokenPayload
issue_for_session user session_id = record {
  sub = user.id;
  sid = some session_id;
  temp_password_change = false;
  cv = some user.credentials_version;
}

abbrev pub issue_password_change_token : Account → AccessTokenPayload
issue_password_change_token user = record {
  sub = user.id;
  sid = none;
  temp_password_change = true;
  cv = some user.credentials_version;
}

-- `const [tokenId, tokenSecret] = refreshToken.split('.')`, when both are there
unfoldable pub token_parts : List String → Option (String × String)
token_parts [] = none
token_parts (id ∷ []) = none
token_parts (id ∷ secret ∷ rest) = if id == "" || secret == "" then none else some (id, secret)

-- `secondsUntilExpiry`: `exp` is in seconds, `now` in milliseconds
unfoldable pub seconds_until_expiry : ℕ → Option ℕ → ℕ
seconds_until_expiry now none = fallback_ttl_seconds
seconds_until_expiry now (some exp) = exp - (now + 999) / 1000

unfoldable pub blacklist_token : ℕ → PresentedToken → List BlacklistEntry → List BlacklistEntry
blacklist_token now t entries =
    let ttl = seconds_until_expiry now t.exp in
    let entry : BlacklistEntry = record { token_hash = t.token_hash; until = now + ttl * 1000 } in
    if leb ttl 0 then entries else entry ∷ entries

unfoldable pub is_token_blacklisted : ℕ → String → List BlacklistEntry → Bool
is_token_blacklisted now token_hash entries =
    any (λ e. e.token_hash == token_hash && ltb now e.until) entries

unfoldable pub credentials_outdated : Option ℕ → ℕ → Bool
credentials_outdated cv current = not (get_or_else cv 0 == current)

-- the checks on the user, read afresh
unfoldable pub validate_account : AccessTokenPayload → Option Account → Result AccessError Account
validate_account payload none = err no_such_user
validate_account payload (some user) =
    if not user.is_active
    then err inactive_user
    else (if credentials_outdated payload.cv user.credentials_version
        then err outdated
        else ok user)

-- `validate`, of a request that has a token; `status` is the access status of a session and a user, cached or just read.
unfoldable pub validate_access :
    ℕ
    → List BlacklistEntry
    → (String → String → AccessStatus)
    → List Account
    → String
    → AccessTokenPayload
    → Result AccessError Account
validate_access now entries status accounts token_hash payload =
    let user = validate_account payload (find_account payload.sub accounts) in
    if is_token_blacklisted now token_hash entries then err token_revoked else elim payload.sid [
      | none ↦ if payload.temp_password_change then user else err not_bound
      | some sid ↦
          if is_usable_for_access now (status sid payload.sub) then user else err session_ended
    ]

module _ {M : Type 0} where
  unfoldable pub login :
      SessionsConfig
      → CachedReads M
      → Token
      → ℕ
      → M
      → Account
      → List (Session M)
      → List (Session M) × LoginResult M
  login config reads token now metadata user rows =
      let options : CreateSessionOptions M = record {
        user_id = user.id;
        credentials_version = user.credentials_version;
        expires_in_days = none;
        metadata = metadata;
      } in
      let (rows', s) = create_session config reads token now options rows in
      if user.force_password_change
      then (rows, must_change_password (issue_password_change_token user))
      else (rows', signed_in (issue_for_session user s.id) s)

  -- what `refresh` checks about the user that is read
  unfoldable pub user_refusal : Session M → Option Account → Option (String × TokenError)
  user_refusal s none = some ("user_inactive", user_unavailable)
  user_refusal s (some user) =
      if not user.is_active
      then some ("user_inactive", user_unavailable)
      else (if s.credentials_version == user.credentials_version
          then none
          else some ("credentials_changed", password_was_reset))

  unfoldable pub rotated_token :
      Option Account
      → List (Session M) × Result RefreshError (Session M)
      → List (Session M) × Result TokenError (AccessTokenPayload × Session M)
  rotated_token none (rows, r) = (rows, err user_unavailable)
  rotated_token (some user) (rows, err e) = (rows, err (not_rotated e))
  rotated_token (some user) (rows, ok t) = (rows, ok (issue_for_session user t.id, t))

  -- from the session that `validateSession` has found
  unfoldable pub refresh_session_of :
      SessionsConfig
      → (List (Session M) → CachedReads M)
      → (String → String → Bool)
      → (String → Option Account)
      → Token
      → ℕ
      → (M → M)
      → String
      → String
      → Session M
      → List (Session M)
      → List (Session M) × Result TokenError (AccessTokenPayload × Session M)
  refresh_session_of config reads verify_secret seen token now successor id secret s rows =
      if verify_secret secret s.refresh_token_hash
      then elim (user_refusal s (seen s.user_id)) [
        | some (reason, e) ↦ ((revoke_session now id reason rows).0, err e)
        | none ↦
            rotated_token (seen s.user_id)
              (refresh_session config reads token now successor id rows)
      ]
      else ((revoke_session now id "invalid_token_secret" rows).0, err bad_secret)

  unfoldable pub refresh_parts :
      SessionsConfig
      → (List (Session M) → CachedReads M)
      → (String → String → Bool)
      → (String → Option Account)
      → Token
      → ℕ
      → (M → M)
      → Option (String × String)
      → List (Session M)
      → List (Session M) × Result TokenError (AccessTokenPayload × Session M)
  refresh_parts config reads verify_secret seen token now successor none rows =
      (rows, err bad_format)
  refresh_parts config reads verify_secret seen token now successor (some (id, secret)) rows =
      let (rows', found) = validate_session now id rows in
      elim found [
        | none ↦ (rows', err no_session)
        | some s ↦
            refresh_session_of config reads verify_secret seen token now successor id secret s rows'
      ]

  unfoldable pub logout_of :
      ℕ → Bool → String → String → String → List (Session M) → List (Session M) × ℕ
  logout_of now logout_all reason id user_id rows =
      let (rows', gone) = revoke_session now id reason rows in
      if logout_all
      then revoke_all_user_sessions now user_id none reason rows
      else (rows', (if gone then 1 else 0))

  -- `kept`: whether the cache takes the blacklist entry. The cache's `set` hides its failures, so the
  -- answer does not depend on it.
  unfoldable pub logout_parts :
      (String → String → Bool)
      → Bool
      → ℕ
      → String
      → Bool
      → String
      → Option PresentedToken
      → Option (String × String)
      → List (Session M) × List BlacklistEntry
      → (List (Session M) × List BlacklistEntry) × Result TokenError LoggedOut
  logout_parts verify_secret kept now user_id all reason token none (rows, entries) =
      ((rows, entries), err bad_format)
  logout_parts verify_secret kept now user_id all reason token (some (id, secret)) (rows, entries) =
      let (rows', found) = validate_session now id rows in
      elim found [
        | none ↦ ((rows', entries), err no_session)
        | some s ↦
            let listed = elim token as (λ x. List BlacklistEntry) [
              | none ↦ entries
              | some t ↦ if kept then blacklist_token now t entries else entries
            ] in
            let (rows'', n) = logout_of now all reason id user_id rows' in
            let done : LoggedOut = record {
              sessions_invalidated = n;
              all_devices = all;
              token_blacklisted = is_some token;
            } in
            if not (s.user_id == user_id)
            then ((rows', entries), err not_owner)
            else (if verify_secret secret s.refresh_token_hash
                then ((rows'', listed), ok done)
                else (
                  ((revoke_session now id "invalid_token_secret" rows').0, entries),
                  err bad_secret,
                ))
      ]
