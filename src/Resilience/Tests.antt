-- ===== src/Resilience/Tests.antt =====
-- A breaker that opens after three failures and closes after two probes, one probe at a time.
use kuybi.Resilience.Trips.{threshold_opens}
use kuybi.Resilience.Probes.{half_open_bound}
use kuybi.Resilience.Recovery.{recovery}
use kuybi.Prelude.{true, ℕ, false, ◌≡◌, ◌∷◌, ◌≤◌, refl, some, none, [], leb, arith}
use kuybi.Prelude.Table.{count}
use kuybi.Resilience.{
  finish, begin, Call, CircuitBreaker, exec_all, Options, initial, rejected, exec, resolved,
  half_open, open_circuit, max_probes, closed,
}
use kuybi.Resilience.Calls.{Calls, Reach, of_generation, next, start, begun, settled}

abbrev sample : Options ℕ
sample = record {
  failure_threshold = 3;
  reset_timeout_ms = 1000;
  half_open_successes = some 2;
  half_open_max_probes = none;
  is_failure = some (λ status. leb 500 status);
}

abbrev tripped : CircuitBreaker
tripped =
    exec_all sample ((10, rejected 503) ∷ (20, rejected 500) ∷ (25, rejected 503) ∷ []) initial

tripped_state : tripped.state ≡ open_circuit
unfolding exec_all exec
tripped_state = refl

tripped_until : tripped.next_attempt_ts ≡ 1025
unfolding exec_all exec
tripped_until = refl

not_found_is_success :
    (exec_all sample
      ((10, rejected 503) ∷ (20, rejected 404) ∷ (25, rejected 503) ∷ [])
      initial).failures
    ≡ 1
unfolding exec_all exec
not_found_is_success = refl

threshold_opens_example :
    ((exec_all sample ((10, rejected 503) ∷ (20, rejected 500) ∷ []) initial).state ≡ closed)
    × ((exec_all sample
          ((10, rejected 503) ∷ (20, rejected 500) ∷ (25, rejected 503) ∷ [])
          initial).state
        ≡ open_circuit)
    × ((exec_all sample
          ((10, rejected 503) ∷ (20, rejected 500) ∷ (25, rejected 503) ∷ [])
          initial).next_attempt_ts
        ≡ 1025)
threshold_opens_example =
    threshold_opens sample ((10, rejected 503) ∷ (20, rejected 500) ∷ []) 25 (rejected 503) initial
      refl refl (refl, (refl, tt)) refl refl

abbrev opened : CircuitBreaker
opened = record initial { state = open_circuit; generation = 1; next_attempt_ts = 1025 }

recovery_example :
    ((exec_all sample ((1025, resolved) ∷ (1030, rejected 404) ∷ []) opened).state ≡ closed)
    × ((exec_all sample ((1025, resolved) ∷ (1030, rejected 404) ∷ []) opened).failures ≡ 0)
recovery_example =
    recovery sample ((1025, resolved) ∷ []) 1030 (rejected 404) opened refl (omega arith)
      (omega arith) (refl, tt) refl refl

abbrev slow_call : Call
slow_call = record { probing = false; generation = 0 }

-- one call is left in flight by a failure that opens the circuit; then a probe starts
abbrev one_failure : Options ℕ
one_failure = record sample { failure_threshold = 1 }

abbrev begun_once : Calls
begun_once = record { breaker = initial; in_flight = slow_call ∷ [] }

abbrev begun_twice : Calls
begun_twice = record { breaker = initial; in_flight = slow_call ∷ slow_call ∷ [] }

abbrev after_failure : Calls
after_failure = record {
  breaker = finish one_failure 5 slow_call (rejected 500) initial;
  in_flight = slow_call ∷ [];
}

abbrev probing : Calls
probing = record {
  breaker = (begin one_failure 2000 after_failure.breaker).0;
  in_flight = record { probing = true; generation = 2 } ∷ slow_call ∷ [];
}

probing_reached : Reach one_failure probing
unfolding begin finish
probing_reached =
    let first : Reach one_failure begun_once = next start (begun 1 slow_call refl) in
    let second : Reach one_failure begun_twice = next first (begun 2 slow_call refl) in
    let failed : Reach one_failure after_failure =
      next second (settled 5 (rejected 500) [] slow_call (slow_call ∷ []) refl) in
    next failed (begun 2000 (record { probing = true; generation = 2 }) refl)

probing_state : probing.breaker.state ≡ half_open
unfolding begin finish
probing_state = refl

half_open_bound_example :
    count (of_generation probing.breaker.generation) probing.in_flight ≤ max_probes one_failure
half_open_bound_example = half_open_bound one_failure probing_reached probing_state
