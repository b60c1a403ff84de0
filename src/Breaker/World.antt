-- ===== src/Breaker/World.antt =====
-- topolib/circuit_breaker.go under concurrent use: the breaker with the goroutines that are inside
-- `Do` and the timer callbacks that were started and have still to get the mutex. Goroutines in
-- the same place are alike, so that their number is all that counts.
use topographer.Base.{
  ℕ, ◌+◌, ◌-◌, Bool, true, false, Option, none, some, List, [], ◌∷◌, ltb, if◌then◌else◌,
}
use topographer.Base.Time.{Duration}
use topographer.Errors.{Err}
use topographer.Breaker.{
  State, closed, half_opened, opened, Timer, armed, fired, Breaker, settle_closed, try_attempt,
  settle_half_opened, reset_failures, try_half_open, new_circuit_breaker,
}

pub record World : Type 0 where
  pub breaker : Breaker
  -- in the callback of `doClosed`
  pub in_closed : ℕ
  -- `Do` has read the state half-opened, and the compare-and-swap is still to come
  pub entering : ℕ
  -- in the callback of `doHalfOpened`
  pub in_half_opened : ℕ
  -- started callbacks `tryHalfOpen` and `resetFailures`
  pub pending_half_open : ℕ
  pub pending_reset : ℕ

-- `err` is what the callback of `Do` returned, and `ctx` the error of a context that is done.
pub data Event : Type 0 where
  enters : Event
  attempts : Event
  closed_returns : (ctx err : Option Err) → Event
  half_opened_returns : (ctx err : Option Err) → Event
  half_open_timer_expires : Event
  cleanup_timer_expires : Event
  half_open_runs : Event
  reset_runs : Event

-- The `switch` at the head of `Do`.
abbrev enter : State → World → World
enter closed w = record w { in_closed = w.in_closed + 1 }
enter half_opened w = record w { entering = w.entering + 1 }
enter opened w = w

abbrev attempt : Breaker × Bool → World → World
attempt (c, true) w = record w {
  breaker = c;
  entering = w.entering - 1;
  in_half_opened = w.in_half_opened + 1;
}
attempt (c, false) w = record w { entering = w.entering - 1 }

-- With a done context the breaker is left alone.
abbrev settle : (Option Err → Breaker → Breaker) → Option Err → Option Err → Breaker → Breaker
settle section none err c = section err c
settle section (some e) err c = c

abbrev expire_half_open : Option Timer → World → World
expire_half_open (some (armed d)) w = record w {
  breaker = record (w.breaker) { half_open_timer = some fired };
  pending_half_open = w.pending_half_open + 1;
}
expire_half_open _ w = w

abbrev expire_cleanup : Option Timer → World → World
expire_cleanup (some (armed d)) w = record w {
  breaker = record (w.breaker) { failures_cleanup_timer = some fired };
  pending_reset = w.pending_reset + 1;
}
expire_cleanup _ w = w

-- An event for which nobody is in the right place changes nothing.
unfoldable pub step : World → Event → World
unfolding settle_closed settle_half_opened try_attempt reset_failures try_half_open
step w enters = enter w.breaker.state w
step w attempts = if ltb 0 w.entering then attempt (try_attempt w.breaker) w else w
step w (closed_returns ctx err) =
    if ltb 0 w.in_closed
    then record w { breaker = settle settle_closed ctx err w.breaker; in_closed = w.in_closed - 1 }
    else w
step w (half_opened_returns ctx err) =
    if ltb 0 w.in_half_opened
    then record w {
      breaker = settle settle_half_opened ctx err w.breaker;
      in_half_opened = w.in_half_opened - 1;
    }
    else w
step w half_open_timer_expires = expire_half_open w.breaker.half_open_timer w
step w cleanup_timer_expires = expire_cleanup w.breaker.failures_cleanup_timer w
step w half_open_runs =
    if ltb 0 w.pending_half_open
    then record w { breaker = try_half_open w.breaker; pending_half_open = w.pending_half_open - 1 }
    else w
step w reset_runs =
    if ltb 0 w.pending_reset
    then record w { breaker = reset_failures w.breaker; pending_reset = w.pending_reset - 1 }
    else w

unfoldable pub run : World → List Event → World
run w [] = w
run w (e ∷ es) = run (step w e) es

unfoldable pub fresh : ℕ → Duration → Duration → World
unfolding new_circuit_breaker
fresh open_threshold half_open_timeout reset_failures_timeout = record {
  breaker = new_circuit_breaker open_threshold half_open_timeout reset_failures_timeout;
  in_closed = 0;
  entering = 0;
  in_half_opened = 0;
  pending_half_open = 0;
  pending_reset = 0;
}
