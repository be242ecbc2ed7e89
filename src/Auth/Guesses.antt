-- ===== src/Auth/Guesses.antt =====
-- src/modules/auth/services/auth.service.ts: `validateUser`, with guessed passwords and over the lockout.
use kuybi.Lockout.Attempts.{attempts_lock, fail_all, record-IsKey, record_below}
use kuybi.Users.Laws.{IsKey}
use kuybi.Users.{is_before, find_by_id, User, failed_attempts_lock, counted_row}
use kuybi.Lockout.Checks.{info_keeps, check_free, info_of, check_locked, info_found, reset_returns}
use kuybi.Prelude.Method.{◌>>=◌, is_ok, ran-cases, err, ok}
use kuybi.Auth.{
  PasswordHasher, lockout_result, AuthState, refuse_password, validate_user, validate_credentials,
  refuse_locked, Account, find_by_email, stored_hash, find_account, account_locked, user_locked,
  accept, account_locked_exception, unlock_in_seconds,
}
use kuybi.Lockout.{
  AccountLockoutConfig, get_account_lock_info, record_failed_attempt, Clock, LockoutInfo,
  is_account_locked,
}
use kuybi.Prelude.{
  String, ◌≡◌, arith, false, inr, inl, List, Option, Bool, true, some, ◌++◌, ◌∷◌, [], not, ◌&&◌,
  ◌+◌, length, ◌<◌, ◌≤◌, ap, refl, suc, Option-cases, Bool-cases, ◌-◌, ◌/◌,
}

module _ (config : AccountLockoutConfig) (hasher : PasswordHasher) where
  refuse_password_counts :
      (clock : Clock) (id : String) (s : AuthState)
      → let t = refuse_password config hasher clock id s in
        (is_ok t.0 ≡ false)
        × (t.1.world ≡ (record_failed_attempt config clock id s.world).1)
        × (t.1.accounts ≡ s.accounts)
  unfolding refuse_password ◌>>=◌ lockout_result
  refuse_password_counts clock id s =
      let r = record_failed_attempt config clock id s.world in
      elim (ran-cases (record_failed_attempt config clock id s.world)) [
        | inr (e, h) ↦ ground (arith, h)
        | inl (a, h) ↦ elim (ran-cases (get_account_lock_info config id r.1)) [
          | inr (e, k) ↦ ground (arith, h, k, info_keeps config id r.1)
          | inl (i, k) ↦ ground (arith, h, k, info_keeps config id r.1)
        ]
      ]

  wrong_counts :
      (clock : Clock) (email password : String) (s : AuthState) (a : Account) (u : User)
      → find_by_email email s.accounts ≡ some a
      → find_by_id a.id s.world.users ≡ some u
      → u.is_locked ≡ false
      → hasher.verify password (stored_hash (find_account a.id s.accounts)) ≡ false
      → let t = validate_user config hasher clock email password s in
        (is_ok t.0 ≡ false)
        × (t.1.world ≡ (record_failed_attempt config clock a.id s.world).1)
        × (t.1.accounts ≡ s.accounts)
  unfolding validate_user validate_credentials ◌>>=◌ lockout_result
  wrong_counts clock email password s a u mail found free wrong =
      let (r, w, acc) = refuse_password_counts clock a.id s in
      let c = check_free config clock a.id s.world found free in
      (
        ground (arith, mail, c, wrong, r),
        ground (arith, mail, c, wrong, w),
        ground (arith, mail, c, wrong, acc),
      )

  locked_refuses :
      (clock : Clock) (email password : String) (s : AuthState) (a : Account) (u : User)
      → find_by_email email s.accounts ≡ some a
      → find_by_id a.id s.world.users ≡ some u
      → u.is_locked ≡ true
      → is_before clock.app u.locked_until ≡ false
      → validate_user config hasher clock email password s ≡ (
        err (account_locked_exception clock.answer (info_of config u)),
        record s { failures = s.failures ++ user_locked ∷ [] },
      )
  unfolding validate_user validate_credentials refuse_locked ◌>>=◌ lockout_result
  locked_refuses clock email password s a u mail found locked on = ground (
    arith,
    mail,
    check_locked config clock a.id s.world found locked on,
    info_found config a.id s.world found,
  )

  -- attempts to log in, one after another
  unfoldable pub try_all : List (Clock × String) → String → AuthState → AuthState
  try_all [] email s = s
  try_all ((clock, password) ∷ rest) email s =
      try_all rest email (validate_user config hasher clock email password s).1

  unfoldable pub all_wrong : List (Clock × String) → Option String → Bool
  all_wrong [] stored = true
  all_wrong ((clock, password) ∷ rest) stored =
      not (hasher.verify password stored) && all_wrong rest stored

  abbrev clocks : List (Clock × String) → List Clock
  clocks [] = []
  clocks ((clock, password) ∷ rest) = clock ∷ clocks rest

  length-clocks : (tries : List (Clock × String)) → length (clocks tries) ≡ length tries
  length-clocks [] = refl
  length-clocks ((c, p) ∷ rest) = ap suc (length-clocks rest)

  try_all_counts :
      (tries : List (Clock × String)) (email : String) (s : AuthState) (a : Account) (u : User)
      → config.enabled ≡ true
      → IsKey a.id s.world.users
      → find_by_email email s.accounts ≡ some a
      → find_by_id a.id s.world.users ≡ some u
      → u.is_locked ≡ false
      → all_wrong tries (stored_hash (find_account a.id s.accounts)) ≡ true
      → u.failed_login_attempts + length tries < config.max_attempts
      → ((try_all tries email s).world ≡ fail_all config (clocks tries) a.id s.world)
        × ((try_all tries email s).accounts ≡ s.accounts)
  unfolding try_all all_wrong fail_all
  try_all_counts [] email s a u on key mail found free wrong n = (refl, refl)
  try_all_counts ((c, p) ∷ rest) email s a u on key mail found free wrong n =
      let below : u.failed_login_attempts + 1 < config.max_attempts = omega arith in
      let (ko, w, acc) = wrong_counts c email p s a u mail found free (ground (arith, wrong)) in
      let (w', acc') =
        try_all_counts rest email (validate_user config hasher c email p s).1 a (counted_row u) on
          (ground (arith, w, record-IsKey config c a.id s.world found below key))
          (ground (arith, acc, mail))
          (ground (arith, w, record_below config c a.id s.world on found below)) free
          (ground (arith, wrong, acc)) (omega arith) in
      (ground (arith, w', w), ground (arith, acc', acc))

  -- From an unlocked account, the wrong guess that brings the counter to `maxAttempts` locks it; until
  -- `lockDuration` after that guess every attempt, also one with the right password, is refused as
  -- locked and changes nothing but the failures. The answer depends on the time alone: it is the same
  -- for every password, with the time of that guess, the end of the lock, the attempts, the reason and
  -- the whole seconds that are left. (The lockout is on, the id is a key, no guess matches the stored
  -- hash, and the lock ends after the service's second reading of the clock.)
  pub guesses_lock :
      (tries : List (Clock × String)) (last now : Clock) (email guess password : String)
      (s : AuthState) (a : Account) (u : User)
      → config.enabled ≡ true
      → IsKey a.id s.world.users
      → find_by_email email s.accounts ≡ some a
      → find_by_id a.id s.world.users ≡ some u
      → u.is_locked ≡ false
      → all_wrong tries (stored_hash (find_account a.id s.accounts)) ≡ true
      → hasher.verify guess (stored_hash (find_account a.id s.accounts)) ≡ false
      → u.failed_login_attempts + length tries + 1 ≡ config.max_attempts
      → last.later < last.app + config.lock_duration
      → now.app ≤ last.app + config.lock_duration
      → let s' = (validate_user config hasher last email guess (try_all tries email s)).1 in
        let unlock_at = last.app + config.lock_duration in
        let info : LockoutInfo = record {
          is_locked = true;
          failed_attempts = config.max_attempts;
          max_attempts = config.max_attempts;
          locked_at = some last.app;
          locked_until = some unlock_at;
          lock_reason = some failed_attempts_lock;
          remaining_attempts = 0;
        } in
        validate_user config hasher now email password s' ≡ (
          err (account_locked info ((unlock_at - now.answer) / 1000)),
          record s' { failures = s'.failures ++ user_locked ∷ [] },
        )
  guesses_lock tries last now email guess password s a u on key mail found free wrong wrong' n k l =
      let t = try_all tries email s in
      let s' = (validate_user config hasher last email guess t).1 in
      let row : User = record u {
        failed_login_attempts = config.max_attempts;
        is_locked = true;
        locked_at = some last.app;
        locked_until = some (last.app + config.lock_duration);
        lock_reason = some failed_attempts_lock;
      } in
      let (w, acc) = try_all_counts tries email s a u on key mail found free wrong (omega arith) in
      let (before, locked) =
        attempts_lock config (clocks tries) last a.id s.world u on key found free
          (omega (arith, length-clocks tries, n)) k in
      let (ko, w', acc') =
        wrong_counts last email guess t a
          (record u { failed_login_attempts = u.failed_login_attempts + length (clocks tries) })
          (ground (arith, acc, mail)) (ground (arith, w, before)) free
          (ground (arith, acc, wrong')) in
      let none_left : config.max_attempts - config.max_attempts ≡ 0 = omega arith in
      let refused =
        locked_refuses now email password s' a row (ground (arith, acc', acc, mail))
          (ground (arith, w', w, locked)) refl (ground (arith, l)) in
      unfold unlock_in_seconds in ground (arith, refused, none_left)

  refuse_locked-refuses :
      (clock : Clock) (id : String) (s : AuthState)
      → is_ok (refuse_locked config hasher clock id s).0 ≡ false
  unfolding refuse_locked ◌>>=◌ lockout_result
  refuse_locked-refuses clock id s = elim (ran-cases (get_account_lock_info config id s.world)) [
    | inl (i, k) ↦ ground (arith, k)
    | inr (e, k) ↦ ground (arith, k)
  ]

  -- A login that is let through is that of the user with the email, who is active and, by the lock
  -- check, not locked; the password matches the stored hash.
  pub admitted :
      (clock : Clock) (email password : String) (s : AuthState)
      → is_ok (validate_user config hasher clock email password s).0 ≡ true
      → (a : Account) × (find_by_email email s.accounts ≡ some a)
        × ((validate_user config hasher clock email password s).0 ≡ ok a)
        × ((is_account_locked config clock a.id s.world).0 ≡ ok false)
        × (hasher.verify password (stored_hash (find_account a.id s.accounts)) ≡ true)
        × (a.is_active ≡ true)
  unfolding validate_user validate_credentials accept ◌>>=◌ lockout_result
  admitted clock email password s h = elim (Option-cases (find_by_email email s.accounts)) [
    | inl e ↦ absurd (ground (arith, h, e))
    | inr (a, e) ↦ elim (ran-cases (is_account_locked config clock a.id s.world)) [
      | inr (x, k) ↦ absurd (ground (arith, h, e, k))
      | inl (true, k) ↦ absurd (
          ground (
            arith,
            h,
            e,
            k,
            refuse_locked-refuses clock a.id
                (record s { world = (is_account_locked config clock a.id s.world).1 }),
          ))
      | inl (false, k) ↦
          elim (Bool-cases (hasher.verify password (stored_hash (find_account a.id s.accounts)))) [
            | inr v ↦ absurd (
                ground (
                  arith,
                  h,
                  e,
                  k,
                  v,
                  refuse_password_counts clock a.id
                      (record s { world = (is_account_locked config clock a.id s.world).1 }),
                ))
            | inl v ↦ elim (Bool-cases a.is_active) [
              | inr o ↦ absurd (ground (arith, h, e, k, v, o))
              | inl o ↦ (
                a,
                e,
                ground (
                  arith,
                  e,
                  k,
                  v,
                  o,
                  reset_returns config a.id (is_account_locked config clock a.id s.world).1,
                ),
                ground (arith, k),
                v,
                o,
              )
            ]
          ]
    ]
  ]

  -- An active user whose account is not locked gets in with the right password.
  pub lets_in :
      (clock : Clock) (email password : String) (s : AuthState) (a : Account) (u : User)
      → find_by_email email s.accounts ≡ some a
      → find_by_id a.id s.world.users ≡ some u
      → u.is_locked ≡ false
      → hasher.verify password (stored_hash (find_account a.id s.accounts)) ≡ true
      → a.is_active ≡ true
      → (validate_user config hasher clock email password s).0 ≡ ok a
  unfolding validate_user validate_credentials accept ◌>>=◌ lockout_result
  lets_in clock email password s a u mail found free right active = ground (
    arith,
    mail,
    check_free config clock a.id s.world found free,
    reset_returns config a.id s.world,
    right,
    active,
  )
