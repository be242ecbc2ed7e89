-- ===== src/Resilience/Trips.antt =====
-- src/shared/utils/resilience.ts: when a circuit opens and closes, for calls made one after another.
use kuybi.Prelude.{ℕ, suc, ◌+◌, ◌≤◌, ◌<◌, ◌≡◌, refl, true, List, [], ◌∷◌, ◌++◌, arith, length, All}
use kuybi.Resilience.{
  closed, open_circuit, Options, CircuitBreaker, Outcome, resolved, rejected, fails, exec, exec_all,
}

module _ {E : Type 0} (options : Options E) where
  exec-failure :
      (now : ℕ) (outcome : Outcome E) (b : CircuitBreaker)
      → b.state ≡ closed
      → fails options outcome ≡ true
      → suc b.failures < options.failure_threshold
      → ((exec options now outcome b).state ≡ closed)
        × ((exec options now outcome b).failures ≡ suc b.failures)
  unfolding exec
  exec-failure now resolved b e f h = cc
  exec-failure now (rejected error) b e f h = ground arith

  exec-last_failure :
      (now : ℕ) (outcome : Outcome E) (b : CircuitBreaker)
      → b.state ≡ closed
      → fails options outcome ≡ true
      → options.failure_threshold ≤ suc b.failures
      → ((exec options now outcome b).state ≡ open_circuit)
        × ((exec options now outcome b).next_attempt_ts ≡ now + options.reset_timeout_ms)
  unfolding exec
  exec-last_failure now resolved b e f h = cc
  exec-last_failure now (rejected error) b e f h = ground arith

  stays_closed :
      (calls : List (ℕ × Outcome E)) (b : CircuitBreaker)
      → b.state ≡ closed
      → All (λ c. fails options c.1 ≡ true) calls
      → b.failures + length calls < options.failure_threshold
      → ((exec_all options calls b).state ≡ closed)
        × ((exec_all options calls b).failures ≡ b.failures + length calls)
  unfolding exec_all
  stays_closed [] b e f h = (e, omega arith)
  stays_closed ((now, outcome) ∷ rest) b e (f, fs) h =
      let (e', n) = exec-failure now outcome b e f (omega arith) in
      let (state, failures) =
        stays_closed rest (exec options now outcome b) e' fs (omega (arith, n)) in
      (state, omega (arith, failures, n))

  pub exec_all-append :
      (xs ys : List (ℕ × Outcome E)) (b : CircuitBreaker)
      → exec_all options (xs ++ ys) b ≡ exec_all options ys (exec_all options xs b)
  unfolding exec_all
  exec_all-append [] ys b = refl
  exec_all-append ((now, outcome) ∷ xs) ys b = exec_all-append xs ys (exec options now outcome b)

  -- From a closed circuit with no failures, failed calls one after another leave it closed while
  -- they are fewer than `failureThreshold`; the one that reaches the threshold opens it, until
  -- `resetTimeoutMs` after that call.
  pub threshold_opens :
      (calls : List (ℕ × Outcome E)) (now : ℕ) (last : Outcome E) (b : CircuitBreaker)
      → b.state ≡ closed
      → b.failures ≡ 0
      → All (λ c. fails options c.1 ≡ true) calls
      → fails options last ≡ true
      → length calls + 1 ≡ options.failure_threshold
      → ((exec_all options calls b).state ≡ closed)
        × ((exec_all options (calls ++ (now, last) ∷ []) b).state ≡ open_circuit)
        × ((exec_all options (calls ++ (now, last) ∷ []) b).next_attempt_ts
            ≡ now + options.reset_timeout_ms)
  threshold_opens calls now last b e z f g h =
      let (state, failures) = stays_closed calls b e f (omega arith) in
      let opened =
        exec-last_failure now last (exec_all options calls b) state g (omega (arith, failures)) in
      rw (exec_all-append calls ((now, last) ∷ []) b)
        (unfold exec_all in (state, opened.0, opened.1))
