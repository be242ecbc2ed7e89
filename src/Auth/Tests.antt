-- ===== src/Auth/Tests.antt =====
-- One user with a session and a reset link: a refresh, a logout, a reset and guessed passwords.
use kuybi.Sessions.AccessCache.{
  run_steps, AccessStep, IsStored, AccessCache, invalidated, writes, checks, cached_status,
}
use kuybi.Passwords.{assert_acceptable, matches_current, find_by_user, Order}
use kuybi.Auth.Voids.{link_works_once, reset_voids}
use kuybi.Users.Laws.{IsKey}
use kuybi.Auth.Reset.{
  ResetState, PasswordReset, reset_password, changed_credentials, check_link, commit_reset,
}
use kuybi.Lockout.{AccountLockoutConfig, LockoutInfo, is_account_locked}
use kuybi.Auth.Guesses.{all_wrong, try_all, admitted, guesses_lock, lets_in}
use kuybi.Auth.Logout.{logout_ends}
use kuybi.Auth.Ended.{HasOneRow, presented_token_ends}
use kuybi.Prelude.Method.{is_ok, err, ok}
use kuybi.Sessions.Service.{Token, SessionsConfig, CachedReads}
use kuybi.Prelude.Table.{count, find, modify, select}
use kuybi.Auth.Tokens.{
  PresentedToken, logout_parts, refresh_parts, validate_access, logout_of, refresh_session_of,
}
use kuybi.Auth.{
  Account, AccessTokenPayload, find_by_email, PasswordHasher, find_account, AuthState,
  validate_user, stored_hash, account_locked, user_locked,
}
use kuybi.Sessions.{
  AccessStatus, Session, find_by_id, validate_session, touch, revoke_session, validate_found,
}
use kuybi.Sessions.Statements.{Statement, add, IsClosed}
use kuybi.Prelude.{
  String, List, Option, ◌≢◌, ℕ, Bool, true, ◌+◌, some, ◌∷◌, ◌==◌, arith, eq_iff, [], false,
  string_eq, none, ◌≡◌, refl, get_or_else, ◌++◌, ap,
}
use kuybi.Lockout.{Clock}
use kuybi.Users.{User, find_by_id as find_lock_state, failed_attempts_lock}

abbrev settings : SessionsConfig
settings = record { max_concurrent_sessions = 5; default_session_days = 7 }

abbrev laptop : Session ℕ
laptop = record {
  id = "s1";
  user_id = "u1";
  credentials_version = 1;
  refresh_token_hash = "x1";
  is_active = true;
  last_activity_at = 50;
  expires_at = 604800000;
  deleted_at = none;
  revocation_reason = none;
  created_at = 50;
  metadata = 0;
}

abbrev rows : List (Session ℕ)
rows = laptop ∷ []

abbrev read_rows : List (Session ℕ) → CachedReads ℕ
read_rows rs = record { active_count = 1; active_sessions = rs }

abbrev token_a : Token
token_a = record { token_id = "s3"; refresh_token_hash = "x3" }

abbrev token_b : Token
token_b = record { token_id = "s4"; refresh_token_hash = "x4" }

abbrev successor : ℕ → ℕ
successor n = n + 1

-- a secret is its own hash, with an "x" before it in the rows
abbrev is_secret : String → String → Bool
is_secret secret hash = secret == hash

abbrev ann : Account
ann = record {
  id = "u1";
  email = "ann@x";
  password_hash = some "good";
  is_active = true;
  force_password_change = false;
  credentials_version = 1;
}

abbrev accounts : List Account
accounts = ann ∷ []

abbrev seen : String → Option Account
seen id = some ann

abbrev pass : AccessTokenPayload
pass = record { sub = "u1"; sid = some "s1"; temp_password_change = false; cv = some 1 }

abbrev other : Statement ℕ
other = add (record laptop { id = "s5" })

s3-s1 : ◌≢◌ {A = String} "s3" "s1"
s3-s1 e = ground (arith, eq_iff "s3" "s1", e)

s5-s1 : ◌≢◌ {A = String} "s5" "s1"
s5-s1 e = ground (arith, eq_iff "s5" "s1", e)

one_row : HasOneRow "s1" rows
unfolding count
one_row = ground (arith, eq_iff "s1" "s1")

-- a status that the cache has held since 90
abbrev held : AccessCache
held sid sub =
    some (record { status = record { usable = true; expires_at = 604800000 }; until = 30090 })

held-IsStored : IsStored 100 held
held-IsStored i u = refl

abbrev steps : List (AccessStep ℕ)
steps = writes true other ∷ checks 150 "s1" "u1" ∷ []

presented_token_ends_example :
    let first =
      refresh_parts settings read_rows is_secret seen token_a 100 successor
        (some ("s1", "x1"))
        rows in
    let (rows', cache') = run_steps steps (first.0, invalidated false held) in
    (is_ok
        (refresh_parts settings read_rows is_secret seen token_b 200 successor
          (some ("s1", "x1"))
          rows').1
      ≡ false)
    × (is_ok (validate_access 40000 [] (cached_status 40000 rows' cache') accounts "t1" pass)
        ≡ false)
presented_token_ends_example =
    presented_token_ends settings read_rows read_rows is_secret seen seen token_a token_b 100 40000
      200 successor "s1" "x1" "x1" rows false held steps [] accounts "t1" pass one_row s3-s1
      held-IsStored (s5-s1, (tt, tt)) refl (omega arith)

abbrev presented : PresentedToken
presented = record { token_hash = "t1"; exp = some 900 }

abbrev stale : String → String → AccessStatus
stale sid sub = record { usable = true; expires_at = 604800000 }

logged_out :
    is_ok
      (logout_parts is_secret true 100 "u1" false "logout"
        (some presented)
        (some ("s1", "x1"))
        (rows, [])).1
    ≡ true
unfolding logout_parts validate_session logout_of find_by_id find touch revoke_session count modify
    validate_found
logged_out = refl

logout_ends_example :
    let ended =
      (logout_parts is_secret true 100 "u1" false "logout"
        (some presented)
        (some ("s1", "x1"))
        (rows, [])).0.0 in
    let (rows', cache') = run_steps steps (ended, invalidated true held) in
    (is_ok
        (refresh_parts settings read_rows is_secret seen token_b 200 successor
          (some ("s1", "x1"))
          rows').1
      ≡ false)
    × (is_ok (validate_access 160 [] (cached_status 160 rows' cache') accounts "t2" pass) ≡ false)
logout_ends_example =
    logout_ends settings read_rows is_secret true seen token_b 100 160 200 "u1" false "logout"
      (some presented) successor "s1" "x1" "x1" rows [] [] true held steps accounts "t2" pass
      one_row logged_out held-IsStored (s5-s1, (tt, tt)) refl (omega arith)

abbrev link : PasswordReset
link = record {
  id = "r1";
  user_id = "u1";
  email = "ann@x";
  token = "l1";
  expires_at = 1000;
  used = false;
}

abbrev state : ResetState ℕ
state = record { resets = link ∷ []; accounts = accounts; sessions = rows; history = [] }

abbrev as_stored : Order
as_stored rows = rows

abbrev strong : String → Bool
strong password = true

found_ann : find_account "u1" accounts ≡ some ann
unfolding find_account find
found_ann = refl

was_reset :
    is_ok
      (reset_password as_stored strong is_secret 100 "new" "new"
        (some link)
        (some ann)
        (some "good")
        state).1
    ≡ true
unfolding reset_password check_link assert_acceptable matches_current find_by_user select
    commit_reset count
was_reset = refl

link_works_once_example :
    let s' =
      (reset_password as_stored strong is_secret 100 "new" "new"
        (some link)
        (some ann)
        (some "good")
        state).0 in
    ((reset_password as_stored strong is_secret 200 "newer" "newer"
        (some link)
        (some ann)
        (some "new")
        s').0
      ≡ s')
    × (is_ok
          (reset_password as_stored strong is_secret 200 "newer" "newer"
            (some link)
            (some ann)
            (some "new")
            s').1
        ≡ false)
link_works_once_example =
    link_works_once as_stored as_stored strong strong is_secret is_secret 100 200 "new" "newer"
      "new" "newer" link link ann (some ann) (some "good") (some "new") state was_reset refl

found_laptop : find_by_id "s1" rows ≡ some laptop
unfolding find_by_id find
found_laptop = refl

reset_voids_example :
    let s' =
      (reset_password as_stored strong is_secret 100 "new" "new"
        (some link)
        (some ann)
        (some "good")
        state).0 in
    (find_account "u1" s'.accounts ≡ some (changed_credentials "new" ann))
    × IsClosed "s1" s'.sessions
    × (is_ok (validate_access 200 [] stale s'.accounts "t1" pass) ≡ false)
    × (is_ok
          (refresh_session_of settings read_rows is_secret
            (λ u. find_account u s'.accounts)
            token_a
            200
            successor
            "s1"
            "x1"
            laptop
            rows).1
        ≡ false)
reset_voids_example =
    reset_voids as_stored strong is_secret 100 200 "new" "new" link ann ann (some "good") state "s1"
      "t1" "x1" laptop laptop [] stale pass 1 settings read_rows is_secret token_a successor rows
      was_reset found_ann one_row found_laptop refl refl refl (omega arith) refl (omega arith)

abbrev lockout : AccountLockoutConfig
lockout = record {
  enabled = true;
  max_attempts = 3;
  lock_duration = 1800;
  reset_attempts_period = 900;
  notify_on_lockout = true;
  notify_on_unlock = true;
}

abbrev hasher : PasswordHasher
hasher = record {
  verify = λ password stored. get_or_else stored "" == password;
  needs_rehash = λ stored. false;
  hash = λ password. some password;
}

abbrev ann_lock : User
ann_lock = record {
  id = "u1";
  email = "ann@x";
  name = "Ann";
  failed_login_attempts = 1;
  is_locked = false;
  locked_at = none;
  locked_until = none;
  lock_reason = none;
}

abbrev before : AuthState
before = record {
  world = record { users = ann_lock ∷ []; effects = [] };
  accounts = accounts;
  failures = [];
}

abbrev at_time : ℕ → Clock
at_time t = record { app = t; later = t + 1; db = t; answer = t + 2 }

found_by_email : find_by_email "ann@x" accounts ≡ some ann
unfolding find_by_email find
found_by_email = refl

found_lock : find_lock_state "u1" before.world.users ≡ some ann_lock
unfolding find_lock_state find
found_lock = refl

one_user : IsKey "u1" before.world.users
unfolding count
one_user = ground (arith, eq_iff "u1" "u1")

all_are_wrong :
    all_wrong lockout hasher ((at_time 10, "bad") ∷ []) (stored_hash (find_account "u1" accounts))
    ≡ true
unfolding all_wrong find_account find
all_are_wrong = refl

guess_is_wrong : hasher.verify "worse" (stored_hash (find_account "u1" accounts)) ≡ false
unfolding find_account find
guess_is_wrong = refl

guesses_lock_example :
    let s' =
      (validate_user lockout hasher
        (at_time 20)
        "ann@x"
        "worse"
        (try_all lockout hasher ((at_time 10, "bad") ∷ []) "ann@x" before)).1 in
    let info : LockoutInfo = record {
      is_locked = true;
      failed_attempts = lockout.max_attempts;
      max_attempts = lockout.max_attempts;
      locked_at = some 20;
      locked_until = some 1820;
      lock_reason = some failed_attempts_lock;
      remaining_attempts = 0;
    } in
    validate_user lockout hasher (at_time 800) "ann@x" "good" s'
    ≡ (err (account_locked info 1), record s' { failures = s'.failures ++ user_locked ∷ [] })
guesses_lock_example =
    guesses_lock lockout hasher ((at_time 10, "bad") ∷ []) (at_time 20) (at_time 800) "ann@x"
      "worse" "good" before ann ann_lock refl one_user found_by_email found_lock refl all_are_wrong
      guess_is_wrong (omega arith) (omega arith) (omega arith)

right_password : hasher.verify "good" (stored_hash (find_account "u1" accounts)) ≡ true
unfolding find_account find
right_password = refl

let_in : is_ok (validate_user lockout hasher (at_time 10) "ann@x" "good" before).0 ≡ true
let_in = ap is_ok (
    lets_in lockout hasher (at_time 10) "ann@x" "good" before ann ann_lock found_by_email found_lock
      refl right_password refl)

admitted_example :
    (a : Account) × (find_by_email "ann@x" accounts ≡ some a)
    × ((validate_user lockout hasher (at_time 10) "ann@x" "good" before).0 ≡ ok a)
    × ((is_account_locked lockout (at_time 10) a.id before.world).0 ≡ ok false)
    × (hasher.verify "good" (stored_hash (find_account a.id accounts)) ≡ true)
    × (a.is_active ≡ true)
admitted_example = admitted lockout hasher (at_time 10) "ann@x" "good" before let_in
