-- ===== src/Auth/Voids.antt =====
-- src/modules/auth/services/password-reset.service.ts: what a reset voids.
use kuybi.Passwords.{Order}
use kuybi.Auth.Logout.{revoked_all-IsClosed}
use kuybi.Sessions.Statements.{IsClosed}
use kuybi.Prelude.Method.{is_ok}
use kuybi.Auth.Ended.{HasOneRow}
use kuybi.Prelude.Table.{count, find_sound, count-modify_zero, find-modify_found}
use kuybi.Sessions.{Session, AccessStatus, find_by_id}
use kuybi.Sessions.Service.{SessionsConfig, CachedReads, Token}
use kuybi.Auth.{find_account, Account, AccessTokenPayload, has_account_id}
use kuybi.Prelude.{
  String, Bool, ℕ, List, Option, ◌≡◌, some, true, false, ◌≤◌, ◌<◌, arith, Bool-cases, ap, inl, ◌∙◌,
  inr, refl, none,
}
use kuybi.Auth.Reset.{
  reset_password, commit_reset, check_link, PasswordReset, ResetState, is_unclaimed,
  changed_credentials, is_expired, claimed_row,
}
use kuybi.Auth.Tokens.{
  validate_access, refresh_session_of, validate_account, user_refusal, credentials_outdated,
  BlacklistEntry,
}

old_token_refused :
    (later : ℕ) (entries : List BlacklistEntry) (status : String → String → AccessStatus)
    (accounts : List Account) (token_hash : String) (payload : AccessTokenPayload) (v : ℕ)
    (row : Account) (user_id : String)
    → find_account user_id accounts ≡ some row
    → payload.sub ≡ user_id
    → payload.cv ≡ some v
    → v < row.credentials_version
    → is_ok (validate_access later entries status accounts token_hash payload) ≡ false
unfolding validate_access validate_account credentials_outdated
old_token_refused later entries status accounts token_hash payload v row user_id f sub cv l =
    let f' : find_account payload.sub accounts ≡ some row =
      ap (λ u. find_account u accounts) sub ∙ f in
    elim (Bool-cases row.is_active) [
      | inl on ↦ ground (arith, f', cv, l, on)
      | inr off ↦ ground (arith, f', cv, l, off)
    ]

module _ {M : Type 0} where
  commit_claims :
      (order : Order) (now : ℕ) (r : PasswordReset) (user : Account) (hash : String)
      (current : Option String) (s : ResetState M)
      → is_ok (commit_reset order now r user hash current s).1 ≡ true
      → count (is_unclaimed r.id) (commit_reset order now r user hash current s).0.resets ≡ 0
  unfolding commit_reset
  commit_claims order now r user hash current s h = ground (
    arith,
    h,
    count-modify_zero (is_unclaimed r.id) (is_unclaimed r.id) claimed_row s.resets
        (λ x e. ground arith) (λ x e. e),
  )

  commit_refused :
      (order : Order) (now : ℕ) (r : PasswordReset) (user : Account) (hash : String)
      (current : Option String) (s : ResetState M)
      → count (is_unclaimed r.id) s.resets ≡ 0
      → ((commit_reset order now r user hash current s).0 ≡ s)
        × (is_ok (commit_reset order now r user hash current s).1 ≡ false)
  unfolding commit_reset
  commit_refused order now r user hash current s h = (ground (arith, h), ground (arith, h))

  -- A reset that succeeds went through its checks to the transaction.
  committed :
      (order : Order) (strong : String → Bool) (verify : String → String → Bool) (now : ℕ)
      (password hash : String) (r : PasswordReset) (a : Account) (current : Option String)
      (s : ResetState M)
      → is_ok (reset_password order strong verify now password hash (some r) (some a) current s).1
        ≡ true
      → (reset_password order strong verify now password hash (some r) (some a) current s
          ≡ commit_reset order now r a hash current s)
  unfolding reset_password check_link
  committed order strong verify now password hash r a current s h =
      elim (Bool-cases (is_expired now r)) [
        | inl e ↦ absurd (ground (arith, h, e))
        | inr e ↦ elim (Bool-cases r.used) [
          | inl u ↦ absurd (ground (arith, h, e, u))
          | inr u ↦ elim (Bool-cases a.is_active) [
            | inr o ↦ absurd (ground (arith, h, e, u, o))
            | inl o ↦ ground (arith, h, e, u, o)
          ]
        ]
      ]

  refused :
      (order : Order) (strong : String → Bool) (verify : String → String → Bool) (now : ℕ)
      (password hash : String) (r : PasswordReset) (user : Option Account) (current : Option String)
      (s : ResetState M)
      → count (is_unclaimed r.id) s.resets ≡ 0
      → ((reset_password order strong verify now password hash (some r) user current s).0 ≡ s)
        × (is_ok (reset_password order strong verify now password hash (some r) user current s).1
            ≡ false)
  unfolding reset_password check_link
  refused order strong verify now password hash r none current s h = (ground arith, ground arith)
  refused order strong verify now password hash r (some a) current s h =
      let (same, ko) = commit_refused order now r a hash current s h in
      (ground (arith, same), ground (arith, ko))

  -- A link works once: after a reset that succeeds, any other with the same link, whatever it had
  -- read, also when it read the link before the first one, is refused and changes nothing.
  pub link_works_once :
      (order order' : Order) (strong strong' : String → Bool)
      (verify verify' : String → String → Bool) (now later : ℕ)
      (password password' hash hash' : String) (r r' : PasswordReset) (a : Account)
      (user : Option Account) (current current' : Option String) (s : ResetState M)
      → is_ok (reset_password order strong verify now password hash (some r) (some a) current s).1
        ≡ true
      → r'.id ≡ r.id
      → let s' =
          (reset_password order strong verify now password hash (some r) (some a) current s).0 in
        ((reset_password order' strong' verify' later password' hash' (some r') user current' s').0
          ≡ s')
        × (is_ok
              (reset_password order' strong' verify' later password' hash'
                (some r')
                user
                current'
                s').1
            ≡ false)
  link_works_once order order' strong strong' verify verify' now later password password' hash hash'
        r r' a user current current' s h same =
      let c = committed order strong verify now password hash r a current s h in
      refused order' strong' verify' later password' hash' r' user current'
        (reset_password order strong verify now password hash (some r) (some a) current s).0
        (ground (arith, c, same, commit_claims order now r a hash current s (ground (arith, h, c))))

  new_account :
      (order : Order) (now : ℕ) (r : PasswordReset) (a row : Account) (hash : String)
      (current : Option String) (s : ResetState M)
      → find_account a.id s.accounts ≡ some row
      → is_ok (commit_reset order now r a hash current s).1 ≡ true
      → find_account a.id (commit_reset order now r a hash current s).0.accounts
        ≡ some (changed_credentials hash row)
  unfolding commit_reset find_account
  new_account order now r a row hash current s f h = ground (
    arith,
    h,
    find_sound (has_account_id a.id) s.accounts f,
    find-modify_found (has_account_id a.id) (has_account_id a.id) (changed_credentials hash)
        s.accounts (λ x e. refl) f,
  )

  sessions-IsClosed :
      (order : Order) (now : ℕ) (r : PasswordReset) (a : Account) (hash : String)
      (current : Option String) (s : ResetState M) (id : String) (opened : Session M)
      → HasOneRow id s.sessions
      → find_by_id id s.sessions ≡ some opened
      → opened.user_id ≡ a.id
      → is_ok (commit_reset order now r a hash current s).1 ≡ true
      → IsClosed id (commit_reset order now r a hash current s).0.sessions
  unfolding commit_reset
  sessions-IsClosed order now r a hash current s id opened u o b h =
      ground (arith, h, revoked_all-IsClosed now id a.id "Password reset" s.sessions opened u o b)

  old_session_refused :
      (config : SessionsConfig) (reads : List (Session M) → CachedReads M)
      (verify_secret : String → String → Bool) (accounts : List Account) (token : Token) (now : ℕ)
      (successor : M → M) (secret : String) (s : Session M) (rows : List (Session M))
      (row : Account) (user_id : String)
      → find_account user_id accounts ≡ some row
      → s.user_id ≡ user_id
      → s.credentials_version < row.credentials_version
      → is_ok
          (refresh_session_of config reads verify_secret
            (λ u. find_account u accounts)
            token
            now
            successor
            s.id
            secret
            s
            rows).1
        ≡ false
  unfolding refresh_session_of user_refusal
  old_session_refused config reads verify_secret accounts token now successor secret s rows row
        user_id f same l =
      let f' : find_account s.user_id accounts ≡ some row =
        ap (λ u. find_account u accounts) same ∙ f in
      elim (Bool-cases row.is_active) [
        | inl on ↦ ground (arith, f', l, on)
        | inr off ↦ ground (arith, f', l, off)
      ]

  -- A reset that succeeds, for a user whose row is there: the row has the new hash and the next
  -- credentials version; every session of the user whose id has one row is closed; an access token
  -- with an earlier version is refused, whatever the status of its session; and so is the refresh of
  -- any session opened with an earlier version, also one that the reset's statement missed.
  pub reset_voids :
      (order : Order) (strong : String → Bool) (verify : String → String → Bool) (now later : ℕ)
      (password hash : String) (r : PasswordReset) (a row : Account) (current : Option String)
      (s : ResetState M) (id token_hash secret : String) (opened missed : Session M)
      (entries : List BlacklistEntry) (status : String → String → AccessStatus)
      (payload : AccessTokenPayload) (v : ℕ) (config : SessionsConfig)
      (reads : List (Session M) → CachedReads M) (verify_secret : String → String → Bool)
      (token : Token) (successor : M → M) (rows : List (Session M))
      → is_ok (reset_password order strong verify now password hash (some r) (some a) current s).1
        ≡ true
      → find_account a.id s.accounts ≡ some row
      → HasOneRow id s.sessions
      → find_by_id id s.sessions ≡ some opened
      → opened.user_id ≡ a.id
      → payload.sub ≡ a.id
      → payload.cv ≡ some v
      → v ≤ row.credentials_version
      → missed.user_id ≡ a.id
      → missed.credentials_version ≤ row.credentials_version
      → let s' =
          (reset_password order strong verify now password hash (some r) (some a) current s).0 in
        (find_account a.id s'.accounts ≡ some (changed_credentials hash row))
        × IsClosed id s'.sessions
        × (is_ok (validate_access later entries status s'.accounts token_hash payload) ≡ false)
        × (is_ok
              (refresh_session_of config reads verify_secret
                (λ u. find_account u s'.accounts)
                token
                later
                successor
                missed.id
                secret
                missed
                rows).1
            ≡ false)
  reset_voids order strong verify now later password hash r a row current s id token_hash secret
        opened missed entries status payload v config reads verify_secret token successor rows h f u
        o b sub cv le m ml =
      let c = committed order strong verify now password hash r a current s h in
      let s' =
        (reset_password order strong verify now password hash (some r) (some a) current s).0 in
      let acc = new_account order now r a row hash current s f (ground (arith, h, c)) in
      (
        ground (arith, c, acc),
        ground (
          arith,
          c,
          sessions-IsClosed order now r a hash current s id opened u o b (ground (arith, h, c)),
        ),
        old_token_refused later entries status s'.accounts token_hash payload v
            (changed_credentials hash row) a.id (ground (arith, c, acc)) sub cv (omega (arith, le)),
        old_session_refused config reads verify_secret s'.accounts token later successor secret
            missed rows (changed_credentials hash row) a.id (ground (arith, c, acc)) m
            (omega (arith, ml)),
      )
