-- ===== src/Resilience/Calls.antt =====
-- src/shared/utils/resilience.ts: a circuit breaker with any number of calls in flight, which begin
-- and settle in any order and at any time.
use kuybi.Prelude.{
  ℕ, suc, ◌≤◌, ◌≡◌, refl, sym, Bool, ◌&&◌, Option, none, some, List, [], ◌∷◌, ◌++◌, arith, ◌⊎◌, inl,
  inr, ◌==◌, nat_eq, All, All-map, Bool-cases, leb, ltb,
}
use kuybi.Prelude.Table.{count}
use kuybi.Resilience.{
  CircuitState, closed, open_circuit, half_open, Options, CircuitBreaker, Call, Outcome, resolved,
  rejected, initial, is_half_open, is_open_state, begin, finish, settle, admit, enter, max_probes,
}

pub record Calls : Type 0 where
  pub breaker : CircuitBreaker
  pub in_flight : List Call

abbrev pub is_probe : ℕ → Call → Bool
is_probe g call = call.probing && call.generation == g

abbrev pub of_generation : ℕ → Call → Bool
of_generation g call = call.generation == g

-- A call belongs to this circuit's past or present; one of the present generation is a probe
-- exactly if the circuit is half-open.
pub record Fits (b : CircuitBreaker) (call : Call) : Type 0 where
  pub past : call.generation ≤ b.generation
  pub probe : call.generation ≡ b.generation → call.probing ≡ is_half_open b.state

-- How the circuit may change: not at all in what the calls see, or into a new generation.
pub record Same (b b' : CircuitBreaker) : Type 0 where
  pub generation : b'.generation ≡ b.generation
  pub state : b'.state ≡ b.state
  pub probes : b'.probes_in_flight ≡ b.probes_in_flight

pub record Entered (b b' : CircuitBreaker) : Type 0 where
  pub generation : b'.generation ≡ suc b.generation
  pub probes : b'.probes_in_flight ≡ 0

Fits-Entered : (b b' : CircuitBreaker) → Entered b b' → (call : Call) → Fits b call → Fits b' call
Fits-Entered b b' e call h = record {
  past = omega (arith, h.past, e.generation);
  probe = λ p. absurd (omega (arith, h.past, e.generation, p));
}

no_probes :
    (b : CircuitBreaker) (calls : List Call)
    → All (Fits b) calls
    → count (is_probe (suc b.generation)) calls ≡ 0
unfolding count
no_probes b [] h = refl
no_probes b (c ∷ calls) (p, h) = ground (arith, p.past, no_probes b calls h)

module _ {E : Type 0} (options : Options E) where
  -- one step of the event loop
  pub data Step (s : Calls) : Calls → Type 0 where
    begun :
        (now : ℕ) (call : Call) {b : CircuitBreaker}
        → begin options now s.breaker ≡ (b, some call)
        → Step s (record { breaker = b; in_flight = call ∷ s.in_flight })
    refused :
        (now : ℕ) {b : CircuitBreaker}
        → begin options now s.breaker ≡ (b, none)
        → Step s (record { breaker = b; in_flight = s.in_flight })
    settled :
        (now : ℕ) (outcome : Outcome E) (xs : List Call) (call : Call) (ys : List Call)
        → s.in_flight ≡ xs ++ call ∷ ys
        → Step s
            (record { breaker = finish options now call outcome s.breaker; in_flight = xs ++ ys })

  pub data Reach : Calls → Type 0 where
    start : Reach (record { breaker = initial; in_flight = [] })
    next : {s t : Calls} → Reach s → Step s t → Reach t

  pub record IsConsistent (b : CircuitBreaker) (calls : List Call) : Type 0 where
    pub probes : b.probes_in_flight ≡ count (is_probe b.generation) calls
    pub bound : b.probes_in_flight ≤ max_probes options
    pub fits : All (Fits b) calls

  pub Entered-IsConsistent :
      (b b' : CircuitBreaker) (calls : List Call)
      → Entered b b'
      → All (Fits b) calls
      → IsConsistent b' calls
  Entered-IsConsistent b b' calls e h = record {
    probes = rw (e.generation, e.probes) (sym (no_probes b calls h));
    bound = omega (arith, e.probes);
    fits = All-map calls (Fits-Entered b b' e) h;
  }

  pub settle-cases :
      (now : ℕ) (outcome : Outcome E) (b : CircuitBreaker)
      → Same b (settle options now outcome b) ⊎ Entered b (settle options now outcome b)
  unfolding settle
  settle-cases now resolved b = ground arith
  settle-cases now (rejected error) b = ground arith

  enter-Entered :
      (state : CircuitState) (now : ℕ) (b : CircuitBreaker) → Entered b (enter options state now b)
  unfolding enter
  enter-Entered closed now b = ground arith
  enter-Entered open_circuit now b = ground arith
  enter-Entered half_open now b = ground arith

  abbrev pub Consistent : CircuitBreaker × Option Call → List Call → Type 0
  Consistent (b, none) calls = IsConsistent b calls
  Consistent (b, some call) calls = IsConsistent b (call ∷ calls)

  admit-Consistent :
      (b : CircuitBreaker) (calls : List Call)
      → IsConsistent b calls
      → Consistent (admit options b) calls
  unfolding admit count
  admit-Consistent b calls h = elim (Bool-cases (is_half_open b.state)) [
    | inl half ↦ elim (Bool-cases (leb (max_probes options) b.probes_in_flight)) [
      | inl full ↦ rw half (rw full h)
      | inr room ↦ rw half (
          rw room (record {
            probes = ground (arith, h.probes);
            bound = ground (arith, h.bound);
            fits = (
              record { past = omega arith; probe = λ _. sym half },
              All-map calls (λ c x. record { past = x.past; probe = x.probe }) h.fits,
            );
          }))
    ]
    | inr other ↦ rw other (record {
      probes = ground (arith, h.probes);
      bound = h.bound;
      fits = (record { past = omega arith; probe = λ _. sym other }, h.fits);
    })
  ]

  pub begin-Consistent :
      (now : ℕ) (b : CircuitBreaker) (calls : List Call)
      → IsConsistent b calls
      → Consistent (begin options now b) calls
  unfolding begin
  begin-Consistent now b calls h = elim (Bool-cases (is_open_state b.state)) [
    | inl opened ↦ elim (Bool-cases (ltb now b.next_attempt_ts)) [
      | inl early ↦ rw opened (rw early h)
      | inr due ↦ rw opened (
          rw due (
            admit-Consistent (enter options half_open now b) calls
              (Entered-IsConsistent b _ calls (enter-Entered half_open now b) h.fits)))
    ]
    | inr other ↦ rw other (admit-Consistent b calls h)
  ]
