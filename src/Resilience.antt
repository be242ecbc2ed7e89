-- ===== src/Resilience.antt =====
-- src/shared/utils/resilience.ts: `CircuitBreaker`. `exec` awaits the call, so it is two steps: what
-- runs before the call (`begin`) and what runs after it (`finish`); other calls may run in between.
-- `Date.now()` is an argument.
pub mod Calls
pub mod Probes
pub mod Trips
pub mod Recovery
mod Tests
use kuybi.Prelude.{
  ℕ, ◌+◌, ◌-◌, Bool, true, false, ◌||◌, Option, none, some, ltb, leb, ◌==◌, nat_eq, get_or_else,
  List, [], ◌∷◌, if◌then◌else◌,
}

pub data CircuitState : Type 0 where
  closed open_circuit half_open : CircuitState

pub record Options (E : Type 0) : Type 0 where
  pub failure_threshold : ℕ
  pub reset_timeout_ms : ℕ
  pub half_open_successes : Option ℕ
  pub half_open_max_probes : Option ℕ
  pub is_failure : Option (E → Bool)

pub record CircuitBreaker : Type 0 where
  pub state : CircuitState
  pub generation : ℕ
  pub failures : ℕ
  pub next_attempt_ts : ℕ
  pub half_open_successes : ℕ
  pub probes_in_flight : ℕ

abbrev pub initial : CircuitBreaker
initial = record {
  state = closed;
  generation = 0;
  failures = 0;
  next_attempt_ts = 0;
  half_open_successes = 0;
  probes_in_flight = 0;
}

-- the local variables of `exec` that live across the `await`
pub record Call : Type 0 where
  pub probing : Bool
  pub generation : ℕ

-- how the awaited call settles
pub data Outcome (E : Type 0) : Type 0 where
  resolved : Outcome E
  rejected : E → Outcome E

abbrev pub is_open_state : CircuitState → Bool
is_open_state open_circuit = true
is_open_state _ = false

abbrev pub is_half_open : CircuitState → Bool
is_half_open half_open = true
is_half_open _ = false

-- `isOpen`
pub is_open : CircuitBreaker → ℕ → Bool
is_open b now = if is_open_state b.state then ltb now b.next_attempt_ts else false

-- the `finally` block
pub release_probe : Call → CircuitBreaker → CircuitBreaker
release_probe call b =
    if call.probing
    then (if call.generation == b.generation
        then record b { probes_in_flight = b.probes_in_flight - 1 }
        else b)
    else b

module _ {E : Type 0} (options : Options E) where
  abbrev pub max_probes : ℕ
  max_probes = get_or_else options.half_open_max_probes 1

  abbrev pub needed_successes : ℕ
  needed_successes = get_or_else options.half_open_successes 1

  -- the assignments of `enter` that depend on the new state
  enter_state : CircuitState → ℕ → CircuitBreaker → CircuitBreaker
  enter_state open_circuit now b = record b { next_attempt_ts = now + options.reset_timeout_ms }
  enter_state closed now b = record b { failures = 0 }
  enter_state half_open now b = b

  pub enter : CircuitState → ℕ → CircuitBreaker → CircuitBreaker
  unfolding enter_state
  enter state now b = enter_state state now (record b {
    state = state;
    generation = b.generation + 1;
    half_open_successes = 0;
    probes_in_flight = 0;
  })

  -- the part of `exec` from the test of `probing` to the call
  pub admit : CircuitBreaker → CircuitBreaker × Option Call
  admit b =
      if is_half_open b.state
      then (if leb max_probes b.probes_in_flight then (b, none) else (
        record b { probes_in_flight = b.probes_in_flight + 1 },
        some (record { probing = true; generation = b.generation }),
      ))
      else (b, some (record { probing = false; generation = b.generation }))

  -- `exec` up to the call: `none` when it throws `openError`
  pub begin : ℕ → CircuitBreaker → CircuitBreaker × Option Call
  unfolding admit enter
  begin now b =
      if is_open_state b.state
      then (if ltb now b.next_attempt_ts then (b, none) else admit (enter half_open now b))
      else admit b

  on_success : ℕ → CircuitBreaker → CircuitBreaker
  unfolding enter
  on_success now b =
      let b' = record b { failures = 0 } in
      if is_half_open b.state
      then (let b'' = record b' { half_open_successes = b.half_open_successes + 1 } in
          if leb needed_successes b''.half_open_successes then enter closed now b'' else b'')
      else b'

  on_failure : ℕ → CircuitBreaker → CircuitBreaker
  unfolding enter
  on_failure now b =
      let b' = record b { failures = b.failures + 1 } in
      if is_half_open b.state || leb options.failure_threshold b'.failures
      then enter open_circuit now b'
      else b'

  -- `this.options.isFailure?.(error) ?? true`
  abbrev pub counts : E → Bool
  counts error = elim options.is_failure [ none ↦ true | some test ↦ test error ]

  pub settle : ℕ → Outcome E → CircuitBreaker → CircuitBreaker
  unfolding on_success on_failure
  settle now resolved b = on_success now b
  settle now (rejected error) b = if counts error then on_failure now b else on_success now b

  -- `exec` from the call's settling on
  pub finish : ℕ → Call → Outcome E → CircuitBreaker → CircuitBreaker
  unfolding settle release_probe
  finish now call outcome b =
      let b' = if call.generation == b.generation then settle now outcome b else b in
      release_probe call b'

  -- the whole of `exec`, with no other call in between
  pub exec : ℕ → Outcome E → CircuitBreaker → CircuitBreaker
  unfolding begin finish
  exec now outcome b =
      let (b', call) = begin now b in elim call [ none ↦ b' | some c ↦ finish now c outcome b' ]

  pub exec_all : List (ℕ × Outcome E) → CircuitBreaker → CircuitBreaker
  exec_all [] b = b
  exec_all ((now, outcome) ∷ rest) b = exec_all rest (exec now outcome b)

  -- whether a settled call counts toward opening the circuit
  abbrev pub fails : Outcome E → Bool
  fails resolved = false
  fails (rejected error) = counts error
