-- ===== src/Sessions/Limit.antt =====
-- src/modules/auth/services/sessions.service.ts: `makeRoomForNewSession` and the limit of concurrent
-- sessions.
use kuybi.Sessions.Service.{
  revoke_each, create_session, oldest_first, make_room, insert_by_created, excess_end,
  SessionsConfig, Token, CreateSessionOptions, CachedReads,
}
use kuybi.Sessions.{
  get_active_session_count, revoke_session, Session, find_active_by_user_id, insert, is_live_of,
  is_open_id, revoked_row,
}
use kuybi.Prelude.Table.{count, select, modify, count_le}
use kuybi.Prelude.{
  string_eq, List, ℕ, String, All, Bool, take, any, ◌&&◌, length, ◌≡◌, not, ◌==◌, ◌≤◌, ◌∷◌, true,
  arith, suc, ◌-◌, Bool-cases, eq_iff, zero, inl, leb, [], All-map, false, inr, refl, ◌<◌, ltb,
}

module _ {M : Type 0} where
  abbrev is_named : List (Session M) → Session M → Bool
  is_named ss x = any (λ s. s.id == x.id) ss

  revoked_one :
      (now at_time : ℕ) (user_id reason : String) (s : Session M) (ss rows : List (Session M))
      → count
          (λ x. is_live_of now user_id x && not (is_named ss x))
          (modify (is_open_id s.id) (revoked_row at_time reason) rows)
        ≤ count (λ x. is_live_of now user_id x && not (is_named (s ∷ ss) x)) rows
  unfolding count modify
  revoked_one now at_time user_id reason s ss [] = omega arith
  revoked_one now at_time user_id reason s ss (x ∷ rows) = elim (Bool-cases (is_open_id s.id x)) [
    | inl e ↦ ground (arith, e, revoked_one now at_time user_id reason s ss rows)
    | inr e ↦ ground (
      arith,
      e,
      eq_iff s.id x.id,
      eq_iff x.id s.id,
      revoked_one now at_time user_id reason s ss rows,
    )
  ]

  revoked_all :
      (now at_time : ℕ) (user_id reason : String) (ss rows : List (Session M))
      → count (is_live_of now user_id) (revoke_each at_time reason ss rows)
        ≤ count (λ x. is_live_of now user_id x && not (is_named ss x)) rows
  unfolding revoke_each revoke_session
  revoked_all now at_time user_id reason [] rows = omega (
    arith,
    count_le (is_live_of now user_id) (λ x. is_live_of now user_id x && not false) rows
        (λ x h. ground (arith, h)),
  )
  revoked_all now at_time user_id reason (s ∷ ss) rows =
      let gone = modify (is_open_id s.id) (revoked_row at_time reason) rows in
      let each = revoked_all now at_time user_id reason ss gone in
      omega (arith, each, revoked_one now at_time user_id reason s ss rows)

  count-select :
      (p q : Session M → Bool) (rows : List (Session M))
      → count (λ x. p x && q x) rows ≡ count q (select p rows)
  unfolding count select
  count-select p q [] = refl
  count-select p q (x ∷ rows) = elim (Bool-cases (p x)) [
    | inl e ↦ ground (arith, e, count-select p q rows)
    | inr e ↦ ground (arith, e, count-select p q rows)
  ]

  length-select :
      (p : Session M → Bool) (rows : List (Session M)) → length (select p rows) ≡ count p rows
  unfolding count select
  length-select p [] = refl
  length-select p (x ∷ rows) = elim (Bool-cases (p x)) [
    | inl e ↦ ground (arith, e, length-select p rows)
    | inr e ↦ ground (arith, e, length-select p rows)
  ]

  count-insert :
      (q : Session M → Bool) (s : Session M) (ss : List (Session M))
      → (count q (insert_by_created s ss) ≡ count q (s ∷ ss))
        × (length (insert_by_created s ss) ≡ suc (length ss))
  unfolding count insert_by_created
  count-insert q s [] = (refl, refl)
  count-insert q s (t ∷ ts) =
      let (c, l) = count-insert q s ts in
      elim (Bool-cases (leb s.created_at t.created_at)) [
        | inl e ↦ (ground (arith, e), ground (arith, e))
        | inr e ↦ (ground (arith, e, c), ground (arith, e, l))
      ]

  count-sort :
      (q : Session M → Bool) (ss : List (Session M))
      → (count q (oldest_first ss) ≡ count q ss) × (length (oldest_first ss) ≡ length ss)
  unfolding count oldest_first
  count-sort q [] = (refl, refl)
  count-sort q (s ∷ ss) =
      let (c, l) = count-sort q ss in
      let (c', l') = count-insert q s (oldest_first ss) in
      (ground (arith, c, c'), ground (arith, l, l'))

  self_named : (ss : List (Session M)) → All (λ x. is_named ss x ≡ true) ss
  self_named [] = tt
  self_named (s ∷ ss) =
      (ground (arith, eq_iff s.id s.id), All-map ss (λ x h. ground (arith, h)) (self_named ss))

  count-taken :
      (k : ℕ) (q : Session M → Bool) (ss : List (Session M))
      → All (λ x. q x ≡ true) (take k ss)
      → count (λ x. not (q x)) ss ≤ length ss - k
  unfolding count
  count-taken zero q [] h = omega arith
  count-taken zero q (s ∷ ss) h = ground (arith, count-taken zero q ss tt)
  count-taken (suc k) q [] h = omega arith
  count-taken (suc k) q (s ∷ ss) (h, hs) = ground (arith, h, count-taken k q ss hs)

  made_room :
      (now : ℕ) (user_id reason : String) (k : ℕ) (rows : List (Session M))
      → let live = find_active_by_user_id now user_id rows in
        get_active_session_count now user_id
          (revoke_each now reason (take k (oldest_first live)) rows)
        ≤ get_active_session_count now user_id rows - k
  unfolding get_active_session_count find_active_by_user_id
  made_room now user_id reason k rows =
      let p = is_live_of now user_id in
      let live = select p rows in
      let gone = take k (oldest_first live) in
      let (c, l) = count-sort (λ x. not (is_named gone x)) live in
      omega (
        arith,
        revoked_all now now user_id reason gone rows,
        count-select p (λ x. not (is_named gone x)) rows,
        length-select p rows,
        c,
        l,
        count-taken k (is_named gone) (oldest_first live) (self_named gone),
      )

  -- What the two cached reads give when they are up to date.
  abbrev pub fresh_reads : ℕ → String → List (Session M) → CachedReads M
  fresh_reads now user_id rows = record {
    active_count = get_active_session_count now user_id rows;
    active_sessions = find_active_by_user_id now user_id rows;
  }

  room_below :
      (config : SessionsConfig) (now : ℕ) (user_id : String) (rows : List (Session M))
      → 1 ≤ config.max_concurrent_sessions
      → get_active_session_count now user_id
          (make_room config (fresh_reads now user_id rows) now rows)
        < config.max_concurrent_sessions
  unfolding make_room excess_end get_active_session_count find_active_by_user_id
  room_below config now user_id rows h =
      let n = length (find_active_by_user_id now user_id rows) in
      let limit = config.max_concurrent_sessions in
      elim (Bool-cases (ltb (get_active_session_count now user_id rows) limit)) [
        | inl e ↦ ground (arith, e)
        | inr e ↦ ground (
          arith,
          e,
          h,
          length-select (is_live_of now user_id) rows,
          made_room now user_id "concurrent_limit_exceeded" (excess_end n limit) rows,
        )
      ]

  -- A new session of a user, with a limit of at least one session, where the two cached reads give
  -- what the rows hold: afterwards the user has at most as many live sessions as the limit, however
  -- many there were before.
  pub limit_holds :
      (config : SessionsConfig) (token : Token) (now : ℕ) (options : CreateSessionOptions M)
      (rows : List (Session M))
      → 1 ≤ config.max_concurrent_sessions
      → get_active_session_count now options.user_id
          (create_session config (fresh_reads now options.user_id rows) token now options rows).0
        ≤ config.max_concurrent_sessions
  unfolding create_session insert get_active_session_count count
  limit_holds config token now options rows h =
      ground (arith, room_below config now options.user_id rows h)
