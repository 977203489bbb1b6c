-- ===== src/Resource/Examples.antt =====
-- Three callers of GetOrCreate of pkg/resource/resource.go under one key.
use kc.Prelude.{ℕ, ◌≡◌, ◌≢◌, arith, refl, true, none, List, [], ◌∷◌}
use kc.Resource.{
  Request, World, made, failed, probing, making, waiting, answered, refused, factory_failed, Move,
  moves, shuts_down, get_or_create, same_key, shutdown, apply_all,
}
use kc.Prelude.Names.{same}
use kc.Resource.Invariant.{key}
use kc.Resource.Flight.{IsServed, single_flight, waiters-IsServed}

abbrev requests : ℕ → Request
requests i = record { key = record { name = "db"; typ = 1 }; has_factory = true }

abbrev start : World
start = record {
  values = λ k. none;
  creating = λ k. none;
  calls = λ i. none;
  phases = λ i. probing;
}

-- The caller 0 runs the factory, the caller 1 waits for it.
abbrev flight : List Move
flight = moves 0 (made 9) ∷ moves 1 (made 9) ∷ shuts_down ∷ moves 0 (made 9) ∷ moves 1 (made 9) ∷ []

flight_makes : (apply_all requests start flight).phases 0 ≡ making
unfolding get_or_create same_key shutdown same
flight_makes = refl

flight_waits : (apply_all requests start flight).phases 1 ≡ waiting 0
unfolding get_or_create same_key shutdown same
flight_waits = refl

-- The factory fails: the waiting caller gets the error, though a third caller has begun anew.
flight_retries :
    (apply_all requests start (
        moves 0 (made 9)
        ∷ moves 1 (made 9)
        ∷ moves 0 (made 9)
        ∷ moves 1 (made 9)
        ∷ moves 0 (failed 3)
        ∷ moves 1 (made 9)
        ∷ moves 2 (made 9)
        ∷ moves 2 (made 9)
        ∷ moves 2 (made 9)
        ∷ [])).phases
      1
    ≡ answered (refused (factory_failed 3))
unfolding get_or_create same_key same
flight_retries = refl

single_flight_example : (apply_all requests start flight).phases 1 ≢ making
single_flight_example =
    single_flight requests start ((λ i. refl), λ k. refl) flight 0 1 (ground arith) refl
      flight_makes

waiters-IsServed_example :
    (key requests 0 ≡ key requests 1) × IsServed requests (apply_all requests start flight) 1 0
waiters-IsServed_example =
    waiters-IsServed requests start ((λ i. refl), λ k. refl) flight 1 0 flight_waits
