-- ===== src/Session/Flights.antt =====
-- The refresh that a burst of callers shares: `refresh` of `RefreshCoordinator`
-- (apps/web/src/app/core/auth/refresh-interceptor.ts), with `shareReplay(1)` and the `finalize` that
-- resets it. Telling the callers and the reset are one step.
use microservices_running.Prelude.{ℕ, suc, Option, none, some, List, [], ◌∷◌, ◌++◌, map}

-- `in_flight` holds the callers that share the refresh under way, `started` counts the POSTs, and
-- `answers` is what callers were given so far.
pub record Coordinator (A : Type 0) : Type 0 where
  pub in_flight : Option (List ℕ)
  pub started : ℕ
  pub answers : List (ℕ × A)

pub data FlightEvent (A : Type 0) : Type 0 where
  asks : (caller : ℕ) → FlightEvent A
  settles : (outcome : A) → FlightEvent A

module _ {A : Type 0} where
  -- `this.inFlight ??= ...`
  abbrev pub refresh : ℕ → Coordinator A → Coordinator A
  refresh caller s = elim s.in_flight [
    | none ↦ record s { in_flight = some (caller ∷ []); started = suc s.started }
    | some callers ↦ record s { in_flight = some (callers ++ caller ∷ []) }
  ]

  -- The request settles: every caller is given the outcome, and `finalize` runs.
  abbrev pub finalize : A → Coordinator A → Coordinator A
  finalize outcome s = elim s.in_flight [
    | none ↦ s
    | some callers ↦ record s {
      in_flight = none;
      answers = s.answers ++ map (λ caller. (caller, outcome)) callers;
    }
  ]

  abbrev pub handle : FlightEvent A → Coordinator A → Coordinator A
  handle (asks caller) = refresh caller
  handle (settles outcome) = finalize outcome

  unfoldable pub run : List (FlightEvent A) → Coordinator A → Coordinator A
  run [] s = s
  run (e ∷ es) s = run es (handle e s)

  -- A burst of callers: each asks before the refresh settles.
  abbrev pub burst : List ℕ → List (FlightEvent A)
  burst callers = map asks callers
