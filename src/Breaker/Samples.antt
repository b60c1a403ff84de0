-- ===== src/Breaker/Samples.antt =====
-- Runs of the circuit breaker of topolib/circuit_breaker.go on small inputs.
use topographer.Base.{
  ◌<◌, ◌≡◌, ◌↔◌, ◌≤◌, refl, Option, none, some, List, [], ◌∷◌, ◌++◌, arith, map, String,
}
use topographer.Base.Time.{pos}
use topographer.Errors.{Err, message, circuit_breaker_ignore}
use topographer.Breaker.{
  closed, half_opened, opened, armed, Reply, rejected, do_call, new_circuit_breaker,
}
use topographer.Breaker.World.{
  World, Event, enters, attempts, closed_returns, half_opened_returns, half_open_timer_expires,
  cleanup_timer_expires, half_open_runs, reset_runs, step, run, fresh,
}
use topographer.Breaker.Invariant.{IsValid, run-fresh-IsValid}
use topographer.Breaker.Recovery.{opened_recovers, closed_forgets, attempt_wedges}
use topographer.Breaker.Threshold.{calls, outcome, longest, opened_iff}

abbrev refused : Option Err
refused = some (message "connection refused")

abbrev deadline : Err
deadline = message "context deadline exceeded"

-- Two calls at once fail against the threshold 1; the breaker opens and becomes half-opened.
abbrev to_opened : List Event
to_opened = enters ∷ enters ∷ closed_returns none refused ∷ closed_returns none refused ∷ []

abbrev to_half_opened : List Event
to_half_opened =
    enters
    ∷ enters
    ∷ closed_returns none refused
    ∷ closed_returns none refused
    ∷ half_open_timer_expires
    ∷ half_open_runs
    ∷ []

abbrev start : World
start = fresh 1 (pos 60) (pos 20)

run_states :
    ((run start to_opened).breaker.state ≡ opened)
    × ((run start to_half_opened).breaker.state ≡ half_opened)
    × ((run (run start to_half_opened) (
          enters ∷ enters ∷ attempts ∷ attempts ∷ half_opened_returns none none ∷ [])).breaker.state
        ≡ closed)
    × ((run (run start to_half_opened) (enters ∷ enters ∷ attempts ∷ attempts ∷ [])).in_half_opened
        ≡ 1)
unfolding run step fresh
run_states = (refl, refl, refl, refl)

-- Two calls fail and open the breaker, and a third one is still out. An attempt is made, the late
-- success of that call closes the breaker, and a fourth call opens it again: then a second attempt is
-- made while the first one is still in flight.
abbrev to_two_attempts : List Event
to_two_attempts =
    enters ∷ to_half_opened
    ++ enters
      ∷ attempts
      ∷ closed_returns none none
      ∷ enters
      ∷ closed_returns none refused
      ∷ enters
      ∷ closed_returns none refused
      ∷ half_open_timer_expires
      ∷ half_open_runs
      ∷ enters
      ∷ attempts
      ∷ []

two_attempts :
    ((run start to_two_attempts).breaker.state ≡ half_opened)
    × ((run start to_two_attempts).breaker.half_open_attempts ≡ 1)
    × ((run start to_two_attempts).in_half_opened ≡ 2)
unfolding run step fresh
two_attempts = (refl, refl, refl)

run-fresh-IsValid_example : IsValid (run (fresh 1 (pos 60) (pos 20)) to_half_opened)
run-fresh-IsValid_example = run-fresh-IsValid 1 (pos 60) (pos 20) to_half_opened

opened_recovers_example :
    let c = (run (run start to_opened) (half_open_timer_expires ∷ half_open_runs ∷ [])).breaker in
    (c.state ≡ half_opened) × (c.half_open_attempts ≡ 0)
unfolding run step fresh
opened_recovers_example =
    opened_recovers (run start to_opened) (run-fresh-IsValid 1 (pos 60) (pos 20) to_opened) refl

abbrev one_failure : List Event
one_failure = enters ∷ closed_returns none refused ∷ []

closed_forgets_example :
    let c = (run (run start one_failure) (cleanup_timer_expires ∷ reset_runs ∷ [])).breaker in
    (c.state ≡ closed)
    × (c.failures_count ≡ 0)
    × (c.failures_cleanup_timer ≡ some (armed c.reset_failures_timeout))
unfolding run step fresh
closed_forgets_example =
    closed_forgets (run start one_failure) (run-fresh-IsValid 1 (pos 60) (pos 20) one_failure) refl

attempt_wedges_example :
    let c =
      (run (run start to_half_opened) (
        enters
        ∷ attempts
        ∷ half_opened_returns (some deadline) refused
        ∷ cleanup_timer_expires
        ∷ half_open_timer_expires
        ∷ [])).breaker in
    (c.state ≡ half_opened)
    × ((ctx : Option Err) (r : Reply String) → do_call ctx r c ≡ (c, rejected))
unfolding run step fresh
attempt_wedges_example =
    attempt_wedges (run start to_half_opened) deadline refused
      (cleanup_timer_expires ∷ half_open_timer_expires ∷ []) refl refl (omega arith)
      (run-fresh-IsValid 1 (pos 60) (pos 20) to_half_opened)

abbrev fails : Option Err × Reply String
fails = (none, record { resp = none; err = refused })

abbrev late : Option Err × Reply String
late = (some deadline, record { resp = none; err = refused })

abbrev ignored : Option Err × Reply String
ignored = (none, record { resp = none; err = some circuit_breaker_ignore })

abbrev mixed_calls : List (Option Err × Reply String)
mixed_calls = fails ∷ ignored ∷ fails ∷ late ∷ fails ∷ fails ∷ []

opened_iff_example :
    let state = (calls (new_circuit_breaker 2 (pos 60) (pos 20)) mixed_calls).state in
    ((state ≡ opened) ↔ (2 < longest 0 (map outcome mixed_calls)))
    × ((state ≡ closed) ↔ (longest 0 (map outcome mixed_calls) ≤ 2))
opened_iff_example = opened_iff 2 (pos 60) (pos 20) mixed_calls (omega arith)

-- With the threshold 2 the third failure in a row opens the breaker, the second does not.
third_failure :
    ((calls (new_circuit_breaker 2 (pos 60) (pos 20)) (fails ∷ fails ∷ [])).state ≡ closed)
    × ((calls (new_circuit_breaker 2 (pos 60) (pos 20)) mixed_calls).state ≡ opened)
unfolding calls new_circuit_breaker
third_failure = (refl, refl)
