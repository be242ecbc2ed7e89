-- ===== src/Outbox/Relay.antt =====
-- src/core/outbox/outbox-relay.service.ts: what a batch does to the messages.
use kuybi.Prelude.Table.{select, modify, All-modify}
use kuybi.Outbox.{
  failed, pending, dispatched, relay_batch, MessageStatus, mark_failed, dispatch_all, dispatch,
  OutboxMessage, dispatch_backoff_ms, Dispatch, insert_by_available, is_due, save, by_available,
  claim, refused, pending, timed_out, queued, max_dispatch_attempts, is_pending, batch_size,
  dispatched,
}
use native.Mathlib.Nat.{pow-succ'}
use kuybi.Prelude.{
  ℕ, List, String, ◌≡◌, arith, length, Bool, ◌+◌, Bool-cases, true, All, ◌≤◌, ◌<◌, leb, ◌∷◌, inl,
  ◌&&◌, ◌⊎◌, take, inr, ◌++◌, min, not, [], suc, map, zero, All-map, none, ◌*◌, false, ◌==◌,
  is_some, refl, string_eq, ◌^◌, if◌then◌else◌, ap, ◌∙◌,
}

status_cases : (s : MessageStatus) → (s ≡ pending) ⊎ (is_pending s ≡ false)
status_cases pending = inl refl
status_cases dispatched = inr refl
status_cases failed = inr refl

plus_one : (n : ℕ) → n + 1 ≡ suc n
plus_one n = omega arith

doubled : (n : ℕ) → 2 ^ (n + 1) ≡ 2 * 2 ^ n
doubled n = ap (λ k. 2 ^ k) (plus_one n) ∙ pow-succ' 2 n

positive : (n : ℕ) → 1 ≤ 2 ^ n
positive zero = omega arith
positive (suc n) = omega (arith, positive n, pow-succ' 2 n)

module _ {P : Type 0} where
  -- A pending message has attempts left, a parked one has had them all, and a dispatched one keeps no
  -- payload and no error.
  abbrev pub IsWellFormed : OutboxMessage P → Type 0
  IsWellFormed m = elim m.status [
    | pending ↦ m.attempts < max_dispatch_attempts
    | dispatched ↦ (m.payload ≡ none) × (m.last_error ≡ none) × (is_some m.dispatched_at ≡ true)
    | failed ↦ m.attempts ≡ max_dispatch_attempts
  ]

  abbrev IsClaimed : OutboxMessage P → Type 0
  IsClaimed m = (m.status ≡ pending) × (m.attempts < max_dispatch_attempts)

  failed-IsWellFormed :
      (now : ℕ) (error : String) (m : OutboxMessage P)
      → IsClaimed m
      → IsWellFormed (mark_failed now error m)
  unfolding mark_failed
  failed-IsWellFormed now error m (e, l) =
      elim (Bool-cases (leb max_dispatch_attempts (m.attempts + 1))) [
        | inl h ↦ ground (arith, h, l)
        | inr h ↦ ground (arith, h, e)
      ]

  claimed-IsWellFormed : (m : OutboxMessage P) → IsClaimed m → IsWellFormed m
  claimed-IsWellFormed m (e, l) = ground (arith, e, l)

  dispatch-IsWellFormed :
      (now : ℕ) (d : Dispatch) (m : OutboxMessage P)
      → IsClaimed m
      → IsWellFormed (dispatch now d m).0
  unfolding dispatch
  dispatch-IsWellFormed now queued m h = (refl, refl, refl)
  dispatch-IsWellFormed now (refused error) m h = failed-IsWellFormed now error m h
  dispatch-IsWellFormed now (timed_out error) m h = failed-IsWellFormed now error m h

  if-All :
      (b : Bool) (xs ys : List (OutboxMessage P))
      → All IsWellFormed xs
      → All IsWellFormed ys
      → All IsWellFormed (if b then xs else ys)
  if-All true xs ys h k = h
  if-All false xs ys h k = k

  batch-IsWellFormed :
      (now : ℕ) (outcome : String → Dispatch) (ms : List (OutboxMessage P))
      → All IsClaimed ms
      → All IsWellFormed (dispatch_all now outcome ms)
  unfolding dispatch_all
  batch-IsWellFormed now outcome [] h = tt
  batch-IsWellFormed now outcome (m ∷ ms) (h, hs) = (
    dispatch-IsWellFormed now (outcome m.id) m h,
    if-All (dispatch now (outcome m.id) m).1 (dispatch_all now outcome ms) ms
        (batch-IsWellFormed now outcome ms hs) (All-map ms claimed-IsWellFormed hs),
  )

  module _ (Q : OutboxMessage P → Type 0) where
    insert-All :
        (m : OutboxMessage P) (ms : List (OutboxMessage P))
        → Q m
        → All Q ms
        → All Q (insert_by_available m ms)
    unfolding insert_by_available
    insert-All m [] h hs = (h, tt)
    insert-All m (n ∷ ns) h (k, ks) = elim (Bool-cases (leb m.available_at n.available_at)) [
      | inl e ↦ ground (arith, e, h, k, ks)
      | inr e ↦ ground (arith, e, k, insert-All m ns h ks)
    ]

    sort-All : (ms : List (OutboxMessage P)) → All Q ms → All Q (by_available ms)
    unfolding by_available
    sort-All [] h = tt
    sort-All (m ∷ ms) (h, hs) = insert-All m (by_available ms) h (sort-All ms hs)

    take-All : (n : ℕ) (ms : List (OutboxMessage P)) → All Q ms → All Q (take n ms)
    take-All zero ms h = tt
    take-All (suc n) [] h = tt
    take-All (suc n) (m ∷ ms) (h, hs) = (h, take-All n ms hs)

    save-All : (ms rows : List (OutboxMessage P)) → All Q ms → All Q rows → All Q (save ms rows)
    unfolding save
    save-All [] rows h k = k
    save-All (m ∷ ms) rows (h, hs) k =
        save-All ms (modify (λ r. r.id == m.id) (λ r. m) rows) hs
          (All-modify Q (λ r. r.id == m.id) (λ r. m) rows (λ x e q. h) k)

  due-IsClaimed :
      (now : ℕ) (m : OutboxMessage P) → IsWellFormed m → is_due now m ≡ true → IsClaimed m
  due-IsClaimed now m h e = elim (status_cases m.status) [
    | inl p ↦ (p, ground (arith, p, h))
    | inr n ↦ absurd (ground (arith, n, e))
  ]

  length-take : (n : ℕ) (ms : List (OutboxMessage P)) → length (take n ms) ≤ n
  length-take zero ms = omega arith
  length-take (suc n) [] = omega arith
  length-take (suc n) (m ∷ ms) = omega (arith, length-take n ms)

  select-IsClaimed :
      (now : ℕ) (locked : String → Bool) (rows : List (OutboxMessage P))
      → All IsWellFormed rows
      → All IsClaimed (select (λ m. is_due now m && not (locked m.id)) rows)
  unfolding select
  select-IsClaimed now locked [] h = tt
  select-IsClaimed now locked (m ∷ rows) (h, hs) =
      elim (Bool-cases (is_due now m && not (locked m.id))) [
        | inl e ↦ ground (
          arith,
          e,
          due-IsClaimed now m h (ground (arith, e)),
          select-IsClaimed now locked rows hs,
        )
        | inr e ↦ ground (arith, e, select-IsClaimed now locked rows hs)
      ]

  -- A batch keeps every message well-formed, however its dispatches end and whatever rows other
  -- workers hold: none is tried an eleventh time, each is parked with its tenth failure, and a
  -- dispatched row keeps no payload. It claims at most 50 messages.
  pub relay-IsWellFormed :
      (now : ℕ) (locked : String → Bool) (outcome : String → Dispatch)
      (rows : List (OutboxMessage P))
      → All IsWellFormed rows
      → All IsWellFormed (relay_batch now locked outcome rows).0
        × ((relay_batch now locked outcome rows).1 ≤ 50)
  unfolding relay_batch claim
  relay-IsWellFormed now locked outcome rows h =
      let due = by_available (select (λ m. is_due now m && not (locked m.id)) rows) in
      (
        save-All IsWellFormed (dispatch_all now outcome (take batch_size due)) rows
            (batch-IsWellFormed now outcome (take batch_size due) (
              take-All IsClaimed batch_size due (
                sort-All IsClaimed (select (λ m. is_due now m && not (locked m.id)) rows)
                  (select-IsClaimed now locked rows h))))
            h,
        length-take batch_size due,
      )

  -- A dispatch that times out ends the batch: the messages before it end as their dispatches did, it
  -- counts a failed attempt, and those behind it are left as they were.
  pub timeout_ends_batch :
      (now : ℕ) (outcome : String → Dispatch) (xs ys : List (OutboxMessage P)) (m : OutboxMessage P)
      (error : String)
      → All (λ x. (dispatch now (outcome x.id) x).1 ≡ true) xs
      → outcome m.id ≡ timed_out error
      → dispatch_all now outcome (xs ++ m ∷ ys)
        ≡ map (λ x. (dispatch now (outcome x.id) x).0) xs ++ mark_failed now error m ∷ ys
  unfolding dispatch_all
  timeout_ends_batch now outcome [] ys m error h t = unfold dispatch in ground (arith, t)
  timeout_ends_batch now outcome (x ∷ xs) ys m error (h, hs) t =
      ground (arith, h, timeout_ends_batch now outcome xs ys m error hs t)

  -- A pending message whose dispatch fails, with attempts left, waits at least two seconds and at
  -- most five minutes before it is due again, and twice the last wait up to that bound.
  pub failed_waits :
      (now : ℕ) (error : String) (m : OutboxMessage P)
      → m.attempts + 1 < 10
      → (now + 2000 ≤ (mark_failed now error m).available_at)
        × ((mark_failed now error m).available_at ≤ now + 300000)
        × (dispatch_backoff_ms (m.attempts + 1) ≡ min (2 * dispatch_backoff_ms m.attempts) 300000)
  unfolding mark_failed dispatch_backoff_ms
  failed_waits now error m l = ground (arith, doubled m.attempts, positive m.attempts)
