-- ===== src/Lockout/Tests.antt =====
-- Two users; the account of "u1" locks at the third failed login.
use kuybi.Lockout.Holds.{SameLock}
use kuybi.Prelude.Method.{◌>>=◌}
use kuybi.Users.Laws.{IsKey}
use kuybi.Lockout.Automatic.{
  run_all, Automatic, login_check, failed_login, sweep, lock_lasts, quiet_period, unlock_job_due,
  successful_login,
}
use kuybi.Users.{Lock, lock_if_unlocked, find_by_id, User, increment_failed_login_attempts}
use kuybi.Lockout.{
  World, AccountLockoutConfig, record_failed_attempt, Clock, reset_job, unlock_job, locked_email,
}
use kuybi.Lockout.Attempts.{fail_all}
use kuybi.Prelude.{ℕ, List, ◌∷◌, true, false, ◌≡◌, arith, ◌+◌, [], none, some, refl}
use kuybi.Prelude.Table.{count, find, modify}

abbrev config : AccountLockoutConfig
config = record {
  enabled = true;
  max_attempts = 3;
  lock_duration = 1800;
  reset_attempts_period = 900;
  notify_on_lockout = true;
  notify_on_unlock = true;
}

abbrev ann : User
ann = record {
  id = "u1";
  email = "ann@x";
  name = "Ann";
  failed_login_attempts = 1;
  is_locked = false;
  locked_at = none;
  locked_until = none;
  lock_reason = none;
}

abbrev banned : User
banned = record ann {
  id = "u2";
  is_locked = true;
  locked_at = some 5;
  locked_until = some 6;
  lock_reason = some "ADMIN_LOCK";
}

abbrev world : World
world = record { users = ann ∷ banned ∷ []; effects = [] }

abbrev at_time : ℕ → Clock
at_time t = record { app = t; later = t + 1; db = t; answer = t + 2 }

found_ann : find_by_id "u1" world.users ≡ some ann
unfolding find_by_id find
found_ann = refl

found_banned : find_by_id "u2" world.users ≡ some banned
unfolding find_by_id find
found_banned = refl

IsKey-ann : IsKey "u1" world.users
unfolding count
IsKey-ann = omega arith

IsKey-banned : IsKey "u2" world.users
unfolding count
IsKey-banned = omega arith

-- what the lock queues
lock_effects :
    (record_failed_attempt config
      (at_time 20)
      "u1"
      (fail_all config (at_time 10 ∷ []) "u1" world)).1.effects
    ≡ reset_job "u1" 2 900 ∷ unlock_job "u1" 2799 ∷ locked_email "ann@x" 1820 3 ∷ []
unfolding fail_all record_failed_attempt ◌>>=◌ find count modify find_by_id
    increment_failed_login_attempts lock_if_unlocked
lock_effects = refl

abbrev busy : List Automatic
busy =
    login_check (at_time 30) "u2"
    ∷ failed_login (at_time 31) "u2"
    ∷ sweep (at_time 40)
    ∷ quiet_period (at_time 50) "u2" (some 1)
    ∷ unlock_job_due (at_time 60) "u2"
    ∷ successful_login (at_time 61) "u2"
    ∷ []

lock_lasts_example :
    (v : User) × (find_by_id "u2" (run_all config busy world).users ≡ some v) × SameLock banned v
lock_lasts_example =
    lock_lasts config "u2" banned 100 busy world found_banned refl refl (omega arith)

abbrev lock_a : Lock
lock_a = record { locked_at = 10; locked_until = 20; lock_reason = "FAILED_ATTEMPTS" }

abbrev lock_b : Lock
lock_b = record { locked_at = 11; locked_until = 21; lock_reason = "FAILED_ATTEMPTS" }
