-- ===== src/Sessions/AccessCache.antt =====
-- src/modules/auth/repositories/session.repository.ts: `isUsableForAccess`, through `cached` of
-- src/core/database/repositories/base.repository.ts. The cache of the statuses is a function of the
-- session and the user. A write drops all of them, or none where the cache takes no notice of it. A
-- check that fills the cache loads and stores in one step: where a write is noticed in between, the
-- fence keeps the loaded status out. A check that the cache does not answer is the load alone.
use kuybi.Sessions.Statements.{Statement, apply, IsFresh}
use kuybi.Sessions.{AccessStatus, Session, access_status, is_usable_for_access}
use kuybi.Prelude.{
  ℕ, String, List, Option, Bool, none, some, ◌==◌, ◌&&◌, if◌then◌else◌, ltb, ◌+◌, ◌∷◌, [],
  string_eq, ◌*◌, ◌≤◌, ◌≡◌, true, leb, not, ◌||◌,
}

-- `ACCESS_STATUS_TTL`, in milliseconds
abbrev pub access_status_ttl_ms : ℕ
access_status_ttl_ms = 30 * 1000

pub record AccessEntry : Type 0 where
  pub status : AccessStatus
  pub until : ℕ

abbrev pub AccessCache : Type 0
AccessCache = String → String → Option AccessEntry

abbrev pub no_entries : AccessCache
no_entries id user_id = none

-- `entry` is what the cache has at the key, also when it is over; a miss loads and stores
unfoldable pub status_of : ℕ → AccessStatus → Option AccessEntry → AccessStatus
status_of now loaded none = loaded
status_of now loaded (some e) = if ltb now e.until then e.status else loaded

unfoldable pub entry_of : ℕ → AccessStatus → Option AccessEntry → Option AccessEntry
entry_of now loaded none = some (record { status = loaded; until = now + access_status_ttl_ms })
entry_of now loaded (some e) =
    if ltb now e.until
    then some e
    else some (record { status = loaded; until = now + access_status_ttl_ms })

-- a write that the cache takes notice of drops the statuses, which all have the list tag
abbrev pub invalidated : Bool → AccessCache → AccessCache
invalidated dropped cache id user_id = if dropped then none else cache id user_id

pub data AccessStep (M : Type 0) : Type 0 where
  writes : Bool → Statement M → AccessStep M
  checks : ℕ → String → String → AccessStep M

module _ {M : Type 0} where
  unfoldable pub cached_status : ℕ → List (Session M) → AccessCache → String → String → AccessStatus
  cached_status now rows cache id user_id =
      status_of now (access_status id user_id rows) (cache id user_id)

  -- `isUsableForAccess`, with the cache that it leaves
  unfoldable pub check_access :
      ℕ → String → String → List (Session M) × AccessCache → AccessCache × Bool
  check_access now id user_id (rows, cache) = (
    λ i u.
        if i == id && u == user_id
        then entry_of now (access_status id user_id rows) (cache id user_id)
        else cache i u,
    is_usable_for_access now (cached_status now rows cache id user_id),
  )

  unfoldable pub access_step :
      AccessStep M → List (Session M) × AccessCache → List (Session M) × AccessCache
  access_step (writes dropped c) (rows, cache) = (apply c rows, invalidated dropped cache)
  access_step (checks now id user_id) (rows, cache) =
      (rows, (check_access now id user_id (rows, cache)).0)

  unfoldable pub run_steps :
      List (AccessStep M) → List (Session M) × AccessCache → List (Session M) × AccessCache
  run_steps [] s = s
  run_steps (c ∷ cs) s = run_steps cs (access_step c s)

  -- a check that is made by the time `t`
  abbrev pub IsBy : ℕ → AccessStep M → Type 0
  IsBy t (writes dropped c) = Unit {0}
  IsBy t (checks now id user_id) = now ≤ t

  abbrev pub IsFreshStep : String → AccessStep M → Type 0
  IsFreshStep id (writes dropped c) = IsFresh id c
  IsFreshStep id (checks now i user_id) = Unit {0}

abbrev pub stored : ℕ → Option AccessEntry → Bool
stored t none = true
stored t (some e) = leb e.until (t + access_status_ttl_ms)

-- All entries have been stored by the time `t`.
abbrev pub IsStored : ℕ → AccessCache → Type 0
IsStored t cache = (id user_id : String) → stored t (cache id user_id) ≡ true

abbrev pub settled : ℕ → Option AccessEntry → Bool
settled t none = true
settled t (some e) = not e.status.usable || leb e.until t

-- The session's statuses that say that it is usable are over by the time `t`.
abbrev pub IsSettled : String → ℕ → AccessCache → Type 0
IsSettled id t cache = (user_id : String) → settled t (cache id user_id) ≡ true

-- until when a status from before a write at `now` may be served
abbrev pub stale_until : Bool → ℕ → ℕ
stale_until dropped now = if dropped then now else now + access_status_ttl_ms
