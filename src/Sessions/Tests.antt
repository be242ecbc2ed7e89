-- ===== src/Sessions/Tests.antt =====
-- Sessions of two users: one refreshed, one revoked, one extended.
use kuybi.Sessions.AccessCache.{
  AccessStep, run_steps, checks, access_step, check_access, writes, entry_of, no_entries,
  cached_status, status_of,
}
use kuybi.Sessions.Limit.{fresh_reads, limit_holds}
use kuybi.Sessions.Access.{extension_bound, revoked_stays_out, checks_agree}
use kuybi.Sessions.Rotation.{refreshes_once}
use kuybi.Prelude.Method.{is_ok}
use kuybi.Prelude.Table.{find, count, modify, select}
use kuybi.Prelude.{
  All, List, ℕ, ◌+◌, ◌≤◌, true, ◌∷◌, some, [], none, arith, ◌≡◌, ◌*◌, is_some, refl, false, ◌↔◌,
  ◌≢◌, String, eq_iff,
}
use kuybi.Sessions.Statements.{run, Statement, IsFresh, set_activity, revoke_all, add, revoke}
use kuybi.Sessions.Service.{
  SessionsConfig, refresh_with, Token, extend_session, CachedReads, create_session, make_room,
  CreateSessionOptions,
}
use kuybi.Sessions.{
  is_usable_for_access, Session, find_by_id, access_status, revoke_session,
  get_active_session_count, extended_row, find_active_by_user_id, validate_session, session_state,
  active,
}

abbrev settings : SessionsConfig
settings = record { max_concurrent_sessions = 5; default_session_days = 7 }

abbrev laptop : Session ℕ
laptop = record {
  id = "s1";
  user_id = "u1";
  credentials_version = 1;
  refresh_token_hash = "x1";
  is_active = true;
  last_activity_at = 50;
  expires_at = 604800000;
  deleted_at = none;
  revocation_reason = none;
  created_at = 50;
  metadata = 0;
}

abbrev phone : Session ℕ
phone = record laptop { id = "s2"; user_id = "u2" }

abbrev rows : List (Session ℕ)
rows = laptop ∷ phone ∷ []

abbrev read_rows : List (Session ℕ) → CachedReads ℕ
read_rows rs = record {
  active_count = get_active_session_count 100 "u1" rs;
  active_sessions = find_active_by_user_id 100 "u1" rs;
}

abbrev token_a : Token
token_a = record { token_id = "s3"; refresh_token_hash = "x3" }

abbrev token_b : Token
token_b = record { token_id = "s4"; refresh_token_hash = "x4" }

abbrev successor : ℕ → ℕ
successor n = n + 1

abbrev later : List (Statement ℕ)
later =
    set_activity "s1" 120
    ∷ revoke_all 130 "u2" none "logout"
    ∷ add (record phone { id = "s5" })
    ∷ []

other_session : ◌≢◌ {A = String} "s5" "s1"
other_session e = ground (arith, eq_iff "s5" "s1", e)

new_session_id : ◌≢◌ {A = String} "s3" "s1"
new_session_id e = ground (arith, eq_iff "s3" "s1", e)

phone_id : ◌≢◌ {A = String} "s2" "s1"
phone_id e = ground (arith, eq_iff "s2" "s1", e)

later-IsFresh : All (IsFresh "s1") later
later-IsFresh = (tt, (tt, (other_session, tt)))

first_refresh :
    is_ok (refresh_with settings read_rows token_a 100 successor "s1" (some laptop) rows).1 ≡ true
unfolding refresh_with revoke_session count modify create_session make_room get_active_session_count
    find_active_by_user_id select
first_refresh = refl

refreshes_once_example :
    let rows' =
      run later (refresh_with settings read_rows token_a 100 successor "s1" (some laptop) rows).0 in
    ((refresh_with settings read_rows token_b 100 successor "s1" (some laptop) rows').0 ≡ rows')
    × (is_ok (refresh_with settings read_rows token_b 100 successor "s1" (some laptop) rows').1
        ≡ false)
refreshes_once_example =
    refreshes_once settings read_rows read_rows token_a token_b 100 100 successor "s1" (some laptop)
      (some laptop) rows later first_refresh new_session_id later-IsFresh

abbrev steps_before : List (AccessStep ℕ)
steps_before = checks 90 "s1" "u1" ∷ []

abbrev steps_after : List (AccessStep ℕ)
steps_after =
    checks 110 "s1" "u1"
    ∷ writes true (revoke_all 130 "u2" none "logout")
    ∷ writes false (add (record phone { id = "s5" }))
    ∷ []

revoked_stays_out_example :
    let (rows', cache') = run_steps steps_after (
      access_step
        (writes false (revoke 100 "s1" "stolen"))
        (run_steps steps_before (rows, no_entries))) in
    (is_usable_for_access 40000 (cached_status 40000 rows' cache' "s1" "u1") ≡ false)
    × ((validate_session 120 "s1" rows').1 ≡ none)
revoked_stays_out_example =
    revoked_stays_out 100 40000 120 "s1" "u1" "stolen" rows steps_before steps_after false
      (omega arith, tt) (tt, (tt, (other_session, tt))) (omega arith)

-- within the 30 s a status from before the revocation may still be served
still_served :
    let (rows', cache') =
      access_step
        (writes false (revoke 100 "s1" "stolen"))
        (run_steps steps_before (rows, no_entries)) in
    is_usable_for_access 200 (cached_status 200 rows' cache' "s1" "u1") ≡ true
unfolding run_steps access_step check_access entry_of cached_status status_of access_status
    find_by_id find is_usable_for_access
still_served = refl

found_laptop : find_by_id "s1" rows ≡ some laptop
unfolding find_by_id find
found_laptop = refl

checks_agree_example :
    (is_usable_for_access 100 (access_status "s1" "u1" rows)
      ≡ is_some (validate_session 100 "s1" rows).1)
    × ((session_state 100 laptop ≡ active) ↔ (is_some (validate_session 100 "s1" rows).1 ≡ true))
checks_agree_example = checks_agree 100 "s1" rows laptop found_laptop

extension_bound_example :
    let (rows', t) = extend_session 100 laptop 60 rows in
    (t ≤ 100 + 30 * 86400000)
    × (t ≤ 604800000 + 60 * 86400000)
    × (find_by_id "s1" rows' ≡ some (extended_row t laptop))
    × (find_by_id "s2" rows' ≡ find_by_id "s2" rows)
extension_bound_example = extension_bound 100 60 rows laptop "s2" found_laptop phone_id

abbrev one_session : SessionsConfig
one_session = record { max_concurrent_sessions = 1; default_session_days = 7 }

abbrev tablet : CreateSessionOptions ℕ
tablet = record { user_id = "u1"; credentials_version = 1; expires_in_days = none; metadata = 9 }

limit_holds_example :
    get_active_session_count 100 "u1"
      (create_session one_session (fresh_reads 100 "u1" rows) token_a 100 tablet rows).0
    ≤ 1
limit_holds_example = limit_holds one_session token_a 100 tablet rows (omega arith)
