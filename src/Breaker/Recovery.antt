-- ===== src/Breaker/Recovery.antt =====
-- How the circuit breaker (topolib/circuit_breaker.go) leaves a state by its timers, and the state
-- that it never leaves.
use topographer.Base.{◌≡◌, Option, none, some, List, [], ◌∷◌, arith}
use topographer.Errors.{Err}
use topographer.Breaker.{Reply, do_call, rejected, closed, half_opened, opened, armed}
use topographer.Breaker.World.{
  World, Event, enters, attempts, half_opened_returns, half_open_timer_expires,
  cleanup_timer_expires, half_open_runs, reset_runs, step, run,
}
use topographer.Breaker.Invariant.{IsValid}

-- An opened breaker becomes half-opened, with no attempt taken, when its timer expires (or has
-- expired) and one started callback runs.
pub opened_recovers :
    (w : World)
    → IsValid w
    → w.breaker.state ≡ opened
    → let c = (run w (half_open_timer_expires ∷ half_open_runs ∷ [])).breaker in
      (c.state ≡ half_opened) × (c.half_open_attempts ≡ 0)
unfolding run step
opened_recovers w v o = ground arith

-- A closed breaker with any count of failures has the count 0 when its cleanup timer expires (or
-- has expired) and one started callback runs; it is closed still, with a new timer armed.
pub closed_forgets :
    (w : World)
    → IsValid w
    → w.breaker.state ≡ closed
    → let c = (run w (cleanup_timer_expires ∷ reset_runs ∷ [])).breaker in
      (c.state ≡ closed)
      × (c.failures_count ≡ 0)
      × (c.failures_cleanup_timer ≡ some (armed c.reset_failures_timeout))
unfolding run step
closed_forgets w v o = ground arith

-- The attempt was taken and its goroutine is gone, and no goroutine is left that found it closed.
pub record IsWedged (w : World) : Type 0 where
  pub state : w.breaker.state ≡ half_opened
  pub taken : w.breaker.half_open_attempts ≡ 1
  pub nobody : w.in_half_opened ≡ 0
  pub no_call : w.in_closed ≡ 0
  pub no_timer : w.breaker.half_open_timer ≡ none
  pub no_cleanup_timer : w.breaker.failures_cleanup_timer ≡ none

step-IsWedged : (w : World) (e : Event) → IsWedged w → IsWedged (step w e)
unfolding step
step-IsWedged w enters h = ground arith
step-IsWedged w e h = ground arith

run-IsWedged : (w : World) (es : List Event) → IsWedged w → IsWedged (run w es)
unfolding run
run-IsWedged w [] h = h
run-IsWedged w (e ∷ es) h = run-IsWedged (step w e) es (step-IsWedged w e h)

-- No goroutine is inside `Do`.
abbrev pub IsIdle : World → Type 0
IsIdle w = (w.in_closed ≡ 0) × (w.entering ≡ 0) × (w.in_half_opened ≡ 0)

attempt-IsWedged :
    (w : World) (e : Err) (err : Option Err)
    → w.breaker.state ≡ half_opened
    → w.breaker.half_open_attempts ≡ 0
    → IsIdle w
    → IsValid w
    → IsWedged (step (step (step w enters) attempts) (half_opened_returns (some e) err))
unfolding step
attempt-IsWedged w e err s a i v = ground arith

do_call_of_IsWedged {ℓ} :
    {R : Type ℓ} (w : World) (ctx : Option Err) (r : Reply R)
    → IsWedged w
    → do_call ctx r w.breaker ≡ (w.breaker, rejected)
unfolding do_call
do_call_of_IsWedged w ctx r h = ground arith

-- A half-opened breaker whose one attempt ends with a done context (a timeout, say), with no other
-- call on its way, is half-opened for ever: whatever events follow, timers and callbacks included,
-- each further call of `Do` is answered with ErrCircuitBreakerOpened and changes nothing.
pub attempt_wedges {ℓ} :
    {R : Type ℓ} (w : World) (e : Err) (err : Option Err) (es : List Event)
    → w.breaker.state ≡ half_opened
    → w.breaker.half_open_attempts ≡ 0
    → IsIdle w
    → IsValid w
    → let c = (run w (enters ∷ attempts ∷ half_opened_returns (some e) err ∷ es)).breaker in
      (c.state ≡ half_opened) × ((ctx : Option Err) (r : Reply R) → do_call ctx r c ≡ (c, rejected))
unfolding run
attempt_wedges w e err es s a i v =
    let last = run-IsWedged _ es (attempt-IsWedged w e err s a i v) in
    (last.state, λ ctx r. do_call_of_IsWedged _ ctx r last)
