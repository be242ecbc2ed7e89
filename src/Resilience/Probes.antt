-- ===== src/Resilience/Probes.antt =====
-- src/shared/utils/resilience.ts: `CircuitBreaker.exec` after the call, and the limit on probes.
use native.Mathlib.Decide.{ℕ_discrete}
use mathlib.Core.Path.{subst}
use kuybi.Prelude.{
  ℕ, ◌≤◌, ◌≡◌, ◌≢◌, refl, sym, ◌∙◌, List, [], ◌∷◌, ◌++◌, arith, inl, inr, All, All-map, All-middle,
  Bool-cases, nat_beq_iff,
}
use kuybi.Prelude.Table.{count, count_middle}
use kuybi.Resilience.{
  half_open, Options, CircuitBreaker, Call, Outcome, finish, settle, release_probe, max_probes,
}
use kuybi.Resilience.Calls.{
  Calls, is_probe, of_generation, Fits, Step, begun, refused, settled, Reach, start, next,
  IsConsistent, Same, Entered-IsConsistent, settle-cases, Consistent, begin-Consistent,
}

module _ {E : Type 0} (options : Options E) where
  -- A call that settles in another generation leaves the circuit as it is.
  pub finish_stale :
      (now : ℕ) (call : Call) (outcome : Outcome E) (b : CircuitBreaker)
      → call.generation ≢ b.generation
      → finish options now call outcome b ≡ b
  unfolding finish
  finish_stale now call outcome b h = ground arith

  -- One probe less is in flight once a call of this generation has settled.
  release-IsConsistent :
      (b : CircuitBreaker) (call : Call) (calls : List Call)
      → call.generation ≡ b.generation
      → IsConsistent options b (call ∷ calls)
      → IsConsistent options (release_probe call b) calls
  unfolding release_probe count
  release-IsConsistent b call calls e h = elim (Bool-cases call.probing) [
    | inl probing ↦ rw probing (
        rw ((nat_beq_iff _ _).1 e) (record {
          probes = ground (arith, h.probes);
          bound = omega (arith, h.bound);
          fits = All-map calls (λ c x. record { past = x.past; probe = x.probe }) h.fits.1;
        }))
    | inr other ↦
        rw other (record { probes = ground (arith, h.probes); bound = h.bound; fits = h.fits.1 })
  ]

  drop_stale :
      (b : CircuitBreaker) (call : Call) (calls : List Call)
      → call.generation ≢ b.generation
      → IsConsistent options b (call ∷ calls)
      → IsConsistent options b calls
  unfolding count
  drop_stale b call calls e h = record {
    probes = ground (arith, h.probes);
    bound = h.bound;
    fits = h.fits.1;
  }

  Same-IsConsistent :
      (b b' : CircuitBreaker) (calls : List Call)
      → Same b b'
      → IsConsistent options b calls
      → IsConsistent options b' calls
  Same-IsConsistent b b' calls e h = record {
    probes = rw (e.generation, e.probes) h.probes;
    bound = rw e.probes h.bound;
    fits =
        All-map calls
          (λ c x. record {
            past = rw e.generation x.past;
            probe = λ p. rw e.state (x.probe (p ∙ e.generation));
          })
          h.fits;
  }

  release_stale :
      (b : CircuitBreaker) (call : Call) → call.generation ≢ b.generation → release_probe call b ≡ b
  unfolding release_probe
  release_stale b call h = ground arith

  finish_live :
      (now : ℕ) (call : Call) (outcome : Outcome E) (b : CircuitBreaker)
      → call.generation ≡ b.generation
      → finish options now call outcome b ≡ release_probe call (settle options now outcome b)
  unfolding finish
  finish_live now call outcome b e = rw ((nat_beq_iff _ _).1 e)

  finish-IsConsistent :
      (now : ℕ) (call : Call) (outcome : Outcome E) (b : CircuitBreaker) (calls : List Call)
      → IsConsistent options b (call ∷ calls)
      → IsConsistent options (finish options now call outcome b) calls
  finish-IsConsistent now call outcome b calls h = elim (ℕ_discrete call.generation b.generation) [
    | no stale ↦ rw (finish_stale now call outcome b stale) (drop_stale b call calls stale h)
    | yes live ↦
        rw (finish_live now call outcome b live) (elim (settle-cases options now outcome b) [
          | inl same ↦
              release-IsConsistent (settle options now outcome b) call calls
                (live ∙ sym same.generation) (Same-IsConsistent b _ (call ∷ calls) same h)
          | inr entered ↦
              let stale : call.generation ≢ (settle options now outcome b).generation =
                omega (arith, live, entered.generation) in
              rw (release_stale (settle options now outcome b) call stale)
                (Entered-IsConsistent options b _ calls entered h.fits.1)
        ])
  ]

  IsConsistent-middle :
      (b : CircuitBreaker) (xs : List Call) (call : Call) (ys : List Call)
      → IsConsistent options b (xs ++ call ∷ ys)
      → IsConsistent options b (call ∷ (xs ++ ys))
  IsConsistent-middle b xs call ys h = record {
    probes = h.probes ∙ count_middle (is_probe b.generation) xs ys call;
    bound = h.bound;
    fits = All-middle (Fits b) xs ys h.fits;
  }

  Step-IsConsistent :
      {s t : Calls}
      → Step options s t
      → IsConsistent options s.breaker s.in_flight
      → IsConsistent options t.breaker t.in_flight
  Step-IsConsistent {s} (begun now call e) h =
      subst (λ r. Consistent options r s.in_flight) e
        (begin-Consistent options now s.breaker s.in_flight h)
  Step-IsConsistent {s} (refused now e) h =
      subst (λ r. Consistent options r s.in_flight) e
        (begin-Consistent options now s.breaker s.in_flight h)
  Step-IsConsistent {s} (settled now outcome xs call ys e) h =
      finish-IsConsistent now call outcome s.breaker (xs ++ ys)
        (IsConsistent-middle s.breaker xs call ys (subst (IsConsistent options s.breaker) e h))

  Reach-IsConsistent : {s : Calls} → Reach options s → IsConsistent options s.breaker s.in_flight
  unfolding count
  Reach-IsConsistent start = record { probes = refl; bound = omega arith; fits = tt }
  Reach-IsConsistent (next r st) = Step-IsConsistent st (Reach-IsConsistent r)

  All-probes :
      (b : CircuitBreaker) (calls : List Call)
      → b.state ≡ half_open
      → All (Fits b) calls
      → count (of_generation b.generation) calls ≡ count (is_probe b.generation) calls
  unfolding count
  All-probes b [] e h = refl
  All-probes b (c ∷ calls) e (x, h) = ground (arith, x.probe, All-probes b calls e h)

  -- However calls begin, settle and interleave, a half-open circuit has at most
  -- `halfOpenMaxProbes` calls of its present generation in flight.
  pub half_open_bound :
      {s : Calls}
      → Reach options s
      → s.breaker.state ≡ half_open
      → count (of_generation s.breaker.generation) s.in_flight ≤ max_probes options
  half_open_bound {s} r e =
      let h = Reach-IsConsistent r in
      omega (arith, All-probes s.breaker s.in_flight e h.fits, h.probes, h.bound)
