-- ===== src/Breaker.antt =====
-- topolib/circuit_breaker.go. A method that changes the breaker returns the new record; a pointer
-- to a timer is an `Option`; the parts of `Do` before and after the callback are functions of
-- their own, so that other goroutines can run between them (Breaker/World).
pub mod World
pub mod Invariant
pub mod Recovery
pub mod Threshold
mod Samples
use topographer.Base.{
  ℕ, ◌+◌, ◌%◌, ◌^◌, Bool, true, false, Option, none, some, ◌&&◌, ltb, ◌==◌, nat_eq, if◌then◌else◌,
}
use topographer.Base.Time.{Duration}
use topographer.Errors.{Err, circuit_breaker_opened, is_ignore}

pub data State : Type 0 where
  closed half_opened opened : State

-- A timer of `time.AfterFunc` that a field points to: it has still to expire, or its callback has
-- been started.
pub data Timer : Type 0 where
  armed : Duration → Timer
  fired : Timer

pub record Breaker : Type 0 where
  pub state : State
  pub half_open_timer : Option Timer
  pub failures_cleanup_timer : Option Timer
  pub half_open_attempts : ℕ
  pub failures_count : ℕ
  pub open_threshold : ℕ
  pub half_open_timeout : Duration
  pub reset_failures_timeout : Duration

-- A response, which may be nil, and an error, as the callback and `Do` return them.
pub record Reply {ℓ} (R : Type ℓ) : Type ℓ where
  pub resp : Option R
  pub err : Option Err

abbrev pub u32 : ℕ → ℕ
u32 n = n % 2 ^ 32

unfoldable pub stop_timer : Option Timer → Option Timer
stop_timer none = none
stop_timer (some t) = none

unfoldable pub ensure_timer : Option Timer → Duration → Option Timer
ensure_timer none timeout = some (armed timeout)
ensure_timer (some t) timeout = some t

-- The `switch` of `switchState`.
unfoldable pub switch_timers : State → Breaker → Breaker
unfolding stop_timer ensure_timer
switch_timers closed c = record c {
  half_open_timer = stop_timer c.half_open_timer;
  failures_cleanup_timer = ensure_timer c.failures_cleanup_timer c.reset_failures_timeout;
}
switch_timers half_opened c = record c {
  failures_cleanup_timer = stop_timer c.failures_cleanup_timer;
  half_open_timer = stop_timer c.half_open_timer;
}
switch_timers opened c = record c {
  failures_cleanup_timer = stop_timer c.failures_cleanup_timer;
  half_open_timer = ensure_timer c.half_open_timer c.half_open_timeout;
}

unfoldable pub switch_state : State → Breaker → Breaker
unfolding switch_timers
switch_state st c = record (switch_timers st c) {
  failures_count = 0;
  half_open_attempts = 0;
  state = st;
}

abbrev pub is_error_ok : Option Err → Bool
is_error_ok none = true
is_error_ok (some e) = is_ignore e

abbrev pub is_closed : State → Bool
is_closed closed = true
is_closed _ = false

abbrev pub is_half_opened : State → Bool
is_half_opened half_opened = true
is_half_opened _ = false

abbrev pub is_opened : State → Bool
is_opened opened = true
is_opened _ = false

-- The critical section of `doClosed`. `ctx` is the error of a context that was done when the
-- `select` looked.
settle_closed : Option Err → Breaker → Breaker
unfolding switch_state
settle_closed err c =
    let counted = record c { failures_count = u32 (c.failures_count + 1) } in
    if is_error_ok err
    then switch_state closed c
    else if is_closed counted.state && ltb counted.open_threshold counted.failures_count
    then switch_state opened counted
    else counted

-- `CompareAndSwapUint32(&halfOpenAttempts, 0, 1)`.
unfoldable pub try_attempt : Breaker → Breaker × Bool
try_attempt c =
    if c.half_open_attempts == 0 then (record c { half_open_attempts = 1 }, true) else (c, false)

-- The critical section of `doHalfOpened`.
settle_half_opened : Option Err → Breaker → Breaker
unfolding switch_state
settle_half_opened err c =
    if is_half_opened c.state
    then (if is_error_ok err then switch_state closed c else switch_state opened c)
    else c

module _ {ℓ} {R : Type ℓ} where
  -- What `doClosed` does when its callback has returned.
  unfoldable pub finish_closed : Option Err → Reply R → Breaker → Breaker × Reply R
  unfolding settle_closed
  finish_closed (some e) r c = (c, record { resp = none; err = some e })
  finish_closed none r c = (settle_closed r.err c, r)

  -- What `doHalfOpened` does when its callback has returned.
  unfoldable pub finish_half_opened : Option Err → Reply R → Breaker → Breaker × Reply R
  unfolding settle_half_opened
  finish_half_opened (some e) r c = (c, record { resp = none; err = some e })
  finish_half_opened none r c = (settle_half_opened r.err c, r)

  abbrev pub rejected : Reply R
  rejected = record { resp = none; err = some circuit_breaker_opened }

  -- `doHalfOpened` with nothing between its parts.
  do_half_opened : Option Err → Reply R → Breaker → Breaker × Reply R
  unfolding try_attempt finish_half_opened
  do_half_opened ctx r c =
      let (c', admitted) = try_attempt c in
      if admitted then finish_half_opened ctx r c' else (c', rejected)

  dispatch : State → Option Err → Reply R → Breaker → Breaker × Reply R
  unfolding finish_closed do_half_opened
  dispatch closed ctx r c = finish_closed ctx r c
  dispatch half_opened ctx r c = do_half_opened ctx r c
  dispatch opened ctx r c = (c, rejected)

  -- `Do` by one goroutine: `r` is what the callback returns if it is called, `ctx` the error of
  -- a context that is done by then.
  unfoldable pub do_call : Option Err → Reply R → Breaker → Breaker × Reply R
  unfolding dispatch
  do_call ctx r c = dispatch c.state ctx r c

-- The two timer callbacks, `stateMutexChan` held.
unfoldable pub reset_failures : Breaker → Breaker
unfolding switch_state
reset_failures c =
    let stopped = record c { failures_cleanup_timer = stop_timer c.failures_cleanup_timer } in
    if is_closed c.state then switch_state closed stopped else stopped

unfoldable pub try_half_open : Breaker → Breaker
unfolding switch_state
try_half_open c = if is_opened c.state then switch_state half_opened c else c

unfoldable pub new_circuit_breaker : ℕ → Duration → Duration → Breaker
unfolding switch_state
new_circuit_breaker open_threshold half_open_timeout reset_failures_timeout =
    switch_state closed (record {
      state = closed;
      half_open_timer = none;
      failures_cleanup_timer = none;
      half_open_attempts = 0;
      failures_count = 0;
      open_threshold = open_threshold;
      half_open_timeout = half_open_timeout;
      reset_failures_timeout = reset_failures_timeout;
    })
