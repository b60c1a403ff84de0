-- ===== src/Breaker/Invariant.antt =====
-- What holds of the circuit breaker (topolib/circuit_breaker.go) whatever its callers and its
-- timers do.
use topographer.Base.{ℕ, ◌≤◌, ◌<◌, ◌≡◌, ◌≢◌, none, some, List, [], ◌∷◌, arith}
use topographer.Base.Time.{Duration}
use topographer.Breaker.{closed, half_opened, opened, fired}
use topographer.Breaker.World.{World, Event, step, run, fresh}

pub record IsValid (w : World) : Type 0 where
  pub closed_timers :
      w.breaker.state ≡ closed
      → (w.breaker.half_open_timer ≡ none) × (w.breaker.failures_cleanup_timer ≢ none)
  pub half_opened_timers :
      w.breaker.state ≡ half_opened
      → (w.breaker.half_open_timer ≡ none) × (w.breaker.failures_cleanup_timer ≡ none)
  pub opened_timers :
      w.breaker.state ≡ opened
      → (w.breaker.half_open_timer ≢ none) × (w.breaker.failures_cleanup_timer ≡ none)
  pub half_open_started : w.breaker.half_open_timer ≡ some fired → 0 < w.pending_half_open
  pub reset_started : w.breaker.failures_cleanup_timer ≡ some fired → 0 < w.pending_reset
  pub few_failures : w.breaker.state ≡ closed → w.breaker.failures_count ≤ w.breaker.open_threshold
  pub one_attempt : w.breaker.half_open_attempts ≤ 1

fresh-IsValid : (n : ℕ) (t u : Duration) → IsValid (fresh n t u)
unfolding fresh
fresh-IsValid n t u = ground arith

-- Every event keeps the invariant.
pub step-IsValid : (w : World) (e : Event) → IsValid w → IsValid (step w e)
unfolding step
step-IsValid w Event.enters v = ground arith
step-IsValid w e v = ground arith

run-IsValid : (w : World) (es : List Event) → IsValid w → IsValid (run w es)
unfolding run
run-IsValid w [] v = v
run-IsValid w (e ∷ es) v = run-IsValid (step w e) es (step-IsValid w e v)

-- After any interleaving of calls, timer expiries and timer callbacks, a breaker made with any
-- parameters has the timers of its state (the cleanup timer alone when closed, none when
-- half-opened, the half-open timer alone when opened), an expired timer has its callback started,
-- the failures counted when closed are at most the threshold, and the counter of half-open attempts
-- is 0 or 1. The counter does not bound the attempts in flight: one that began in an earlier half-opened
-- time may still run beside a new one.
pub run-fresh-IsValid :
    (threshold : ℕ) (half_open_timeout reset_failures_timeout : Duration) (es : List Event)
    → IsValid (run (fresh threshold half_open_timeout reset_failures_timeout) es)
run-fresh-IsValid n t u es = run-IsValid (fresh n t u) es (fresh-IsValid n t u)
