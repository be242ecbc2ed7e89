-- ===== src/Resilience/Recovery.antt =====
-- src/shared/utils/resilience.ts: how an open circuit closes again.
use kuybi.Prelude.{
  ℕ, suc, ◌+◌, ◌≤◌, ◌<◌, ◌≡◌, refl, ap, true, false, List, [], ◌∷◌, ◌++◌, arith, length, All,
}
use kuybi.Resilience.{
  closed, open_circuit, half_open, Options, CircuitBreaker, Outcome, resolved, rejected, enter,
  fails, exec, exec_all, max_probes, needed_successes,
}
use kuybi.Resilience.Trips.{exec_all-append}

module _ {E : Type 0} (options : Options E) where
  -- a half-open circuit with no call in flight
  record IsProbing (n : ℕ) (b : CircuitBreaker) : Type 0 where
    state : b.state ≡ half_open
    idle : b.probes_in_flight ≡ 0
    successes : b.half_open_successes ≡ n

  exec-probe :
      (n now : ℕ) (outcome : Outcome E) (b : CircuitBreaker)
      → 0 < max_probes options
      → IsProbing n b
      → fails options outcome ≡ false
      → suc n < needed_successes options
      → IsProbing (suc n) (exec options now outcome b)
  unfolding exec
  exec-probe n now resolved b m h f k = ground (arith, h.state, h.idle, h.successes)
  exec-probe n now (rejected error) b m h f k = ground (arith, h.state, h.idle, h.successes)

  exec-last_probe :
      (n now : ℕ) (outcome : Outcome E) (b : CircuitBreaker)
      → 0 < max_probes options
      → IsProbing n b
      → fails options outcome ≡ false
      → needed_successes options ≤ suc n
      → ((exec options now outcome b).state ≡ closed) × ((exec options now outcome b).failures ≡ 0)
  unfolding exec
  exec-last_probe n now resolved b m h f k = ground (arith, h.state, h.idle, h.successes)
  exec-last_probe n now (rejected error) b m h f k = ground (arith, h.state, h.idle, h.successes)

  exec-failed_probe :
      (n now : ℕ) (outcome : Outcome E) (b : CircuitBreaker)
      → 0 < max_probes options
      → IsProbing n b
      → fails options outcome ≡ true
      → ((exec options now outcome b).state ≡ open_circuit)
        × ((exec options now outcome b).next_attempt_ts ≡ now + options.reset_timeout_ms)
  unfolding exec
  exec-failed_probe n now resolved b m h f = cc
  exec-failed_probe n now (rejected error) b m h f = ground (arith, h.state, h.idle)

  keeps_IsProbing :
      (n : ℕ) (calls : List (ℕ × Outcome E)) (b : CircuitBreaker)
      → 0 < max_probes options
      → IsProbing n b
      → All (λ c. fails options c.1 ≡ false) calls
      → n + length calls < needed_successes options
      → IsProbing (n + length calls) (exec_all options calls b)
  unfolding exec_all
  keeps_IsProbing n [] b m h f k = record {
    state = h.state;
    idle = h.idle;
    successes = omega (arith, h.successes);
  }
  keeps_IsProbing n ((now, outcome) ∷ rest) b m h (f, fs) k =
      let ih =
        keeps_IsProbing (suc n) rest (exec options now outcome b) m
          (exec-probe n now outcome b m h f (omega arith)) fs (omega arith) in
      record { state = ih.state; idle = ih.idle; successes = omega (arith, ih.successes) }

  exec-due :
      (now : ℕ) (outcome : Outcome E) (b : CircuitBreaker)
      → b.state ≡ open_circuit
      → b.next_attempt_ts ≤ now
      → exec options now outcome b ≡ exec options now outcome (enter options half_open 0 b)
  unfolding exec
  exec-due now outcome b e h = ground arith

  exec_all-due :
      (calls : List (ℕ × Outcome E)) (now : ℕ) (last : Outcome E) (b : CircuitBreaker)
      → b.state ≡ open_circuit
      → All (λ c. b.next_attempt_ts ≤ c.0) (calls ++ (now, last) ∷ [])
      → exec_all options (calls ++ (now, last) ∷ []) b
        ≡ exec_all options (calls ++ (now, last) ∷ []) (enter options half_open 0 b)
  unfolding exec_all
  exec_all-due [] now last b e h = exec-due now last b e h.0
  exec_all-due ((t, outcome) ∷ rest) now last b e h =
      ap (exec_all options (rest ++ (now, last) ∷ [])) (exec-due t outcome b e h.0)

  enter-IsProbing : (b : CircuitBreaker) → IsProbing 0 (enter options half_open 0 b)
  unfolding enter
  enter-IsProbing b = record { state = refl; idle = refl; successes = refl }

  -- Once the reset time of an open circuit has come, `halfOpenSuccesses` successful calls one
  -- after another (at least one) close it, with its failures forgotten.
  pub recovery :
      (calls : List (ℕ × Outcome E)) (now : ℕ) (last : Outcome E) (b : CircuitBreaker)
      → b.state ≡ open_circuit
      → 0 < max_probes options
      → All (λ c. b.next_attempt_ts ≤ c.0) (calls ++ (now, last) ∷ [])
      → All (λ c. fails options c.1 ≡ false) calls
      → length calls + 1 ≡ needed_successes options
      → fails options last ≡ false
      → ((exec_all options (calls ++ (now, last) ∷ []) b).state ≡ closed)
        × ((exec_all options (calls ++ (now, last) ∷ []) b).failures ≡ 0)
  recovery calls now last b e m due f k s =
      let half = enter options half_open 0 b in
      let h = keeps_IsProbing 0 calls half m (enter-IsProbing b) f (omega arith) in
      rw (exec_all-due calls now last b e due) (
        rw (exec_all-append options calls ((now, last) ∷ []) half)
          (unfold exec_all in exec-last_probe (0 + length calls) now last _ m h s (omega arith)))

  -- If, once the reset time of an open circuit has come, fewer than `halfOpenSuccesses` calls
  -- succeed one after another and the next one fails, the circuit opens again, until
  -- `resetTimeoutMs` after that call.
  pub failed_probe_reopens :
      (calls : List (ℕ × Outcome E)) (now : ℕ) (last : Outcome E) (b : CircuitBreaker)
      → b.state ≡ open_circuit
      → 0 < max_probes options
      → All (λ c. b.next_attempt_ts ≤ c.0) (calls ++ (now, last) ∷ [])
      → All (λ c. fails options c.1 ≡ false) calls
      → length calls < needed_successes options
      → fails options last ≡ true
      → ((exec_all options (calls ++ (now, last) ∷ []) b).state ≡ open_circuit)
        × ((exec_all options (calls ++ (now, last) ∷ []) b).next_attempt_ts
            ≡ now + options.reset_timeout_ms)
  failed_probe_reopens calls now last b e m due f k s =
      let half = enter options half_open 0 b in
      let h = keeps_IsProbing 0 calls half m (enter-IsProbing b) f (omega arith) in
      rw (exec_all-due calls now last b e due) (
        rw (exec_all-append options calls ((now, last) ∷ []) half)
          (unfold exec_all in exec-failed_probe (0 + length calls) now last _ m h s))
