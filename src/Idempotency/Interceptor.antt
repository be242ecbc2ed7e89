-- ===== src/Idempotency/Interceptor.antt =====
-- src/core/idempotency/idempotency.interceptor.ts: `intercept` for a request with the
-- Idempotency-Key header. What the handler does is an argument: its outcome, and the rows that other
-- requests leave while it runs. The statements behind the handler do not fail here; the heartbeat is
-- `Change.beat`, one of the statements that run meanwhile.
use kuybi.Prelude.{
  Option, ℕ, List, some, Bool, get_or_else, if◌then◌else◌, leb, none, String, length, ltb, ◌&&◌,
  all,
}
use kuybi.Idempotency.{
  mismatch, replay, started, still_in_progress, IdempotencyKey, complete, BeginResult, Clock, Uuids,
  started, replay, begin, release, still_in_progress,
}

pub data Reply (B : Type 0) : Type 0 where
  -- the handler's own answer, or a stored one
  success : ℕ → Option B → Reply B
  failure : ℕ → Option B → Reply B
  replayed_success : ℕ → Option B → Reply B
  replayed_failure : ℕ → Option B → Reply B
  key_invalid key_reused key_in_progress : Reply B

-- What the handler ends with: a body, an `HttpException` with its status and response, or any other
-- error (a 500).
pub data HandlerOutcome (B : Type 0) : Type 0 where
  returned : B → HandlerOutcome B
  http_error : ℕ → B → HandlerOutcome B
  other_error : HandlerOutcome B

-- the characters' codes of the header: 1 to 255, from `!` to `~`
unfoldable pub is_key : List ℕ → Bool
is_key codes =
    leb 1 (length codes) && leb (length codes) 255 && all (λ c. leb 33 c && leb c 126) codes

-- The status that Nest gives a success: @HttpCode, or 201 for POST.
unfoldable pub success_status : Option ℕ → Bool → ℕ
success_status (some code) is_post = code
success_status none is_post = if is_post then 201 else 200

-- The handler: the rows it finds, to the rows and the outcome when it ends.
abbrev pub Handler : Type 0 → Type 0
Handler B = List (IdempotencyKey B) → List (IdempotencyKey B) × HandlerOutcome B

module _ {B : Type 0} where
  unfoldable pub replay_reply : IdempotencyKey B → Reply B
  replay_reply r =
      let status = get_or_else r.response_status 200 in
      if leb 400 status
      then replayed_failure status r.response_body
      else replayed_success status r.response_body

  -- what is written once the handler has ended
  unfoldable pub record_outcome :
      IdempotencyKey B → ℕ → HandlerOutcome B → List (IdempotencyKey B) → List (IdempotencyKey B)
  record_outcome r status (returned body) rows = (complete r.id r.lock_id status (some body) rows).0
  record_outcome r status (http_error code response) rows =
      if ltb code 500
      then (complete r.id r.lock_id code (some response) rows).0
      else release r.id r.lock_id rows
  record_outcome r status other_error rows = release r.id r.lock_id rows

  unfoldable pub outcome_reply : ℕ → HandlerOutcome B → Reply B
  outcome_reply status (returned body) = success status (some body)
  outcome_reply status (http_error code response) = failure code (some response)
  outcome_reply status other_error = failure 500 none

  unfoldable pub run_handler :
      ℕ → Handler B → IdempotencyKey B → List (IdempotencyKey B) → List (IdempotencyKey B) × Reply B
  run_handler status handler r rows =
      let (rows', outcome) = handler rows in
      (record_outcome r status outcome rows', outcome_reply status outcome)

  unfoldable pub respond :
      ℕ → Handler B → List (IdempotencyKey B) × BeginResult B → List (IdempotencyKey B) × Reply B
  respond status handler (rows, started r) = run_handler status handler r rows
  respond status handler (rows, replay r) = (rows, replay_reply r)
  respond status handler (rows, still_in_progress) = (rows, key_in_progress)
  respond status handler (rows, mismatch) = (rows, key_reused)

  -- `codes` are the codes of the key's characters.
  unfoldable pub intercept :
      (ℕ → Clock)
      → (ℕ → Uuids)
      → String
      → String
      → List ℕ
      → String
      → ℕ
      → Handler B
      → List (IdempotencyKey B)
      → List (IdempotencyKey B) × Reply B
  intercept clock uuids scope key codes request_hash status handler rows =
      if is_key codes
      then respond status handler (begin clock uuids scope key request_hash rows)
      else (rows, key_invalid)
