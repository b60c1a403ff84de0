-- ===== src/HttpClient.antt =====
-- topolib/http_client.go: the HTTP client that providers share: user agent, timeout, rate limiter
-- and circuit breaker round the client of net/http. The network and golang.org/x/time/rate are
-- arguments: what `client.Do` replies, and the error of `rateLimiter.Wait`.
pub mod Bodies
mod Samples
use topographer.Base.{
  ℕ, ◌+◌, String, Bool, true, false, Option, none, some, List, [], ◌∷◌, leb, ltb, if◌then◌else◌,
}
use Prim.Native.String.{◌++◌}
use topographer.Base.Time.{Duration, Time, ℤ, pos, ltb_ℤ}
use topographer.Errors.{Err, message, circuit_breaker_ignore}
use topographer.Breaker.{
  Breaker, State, closed, half_opened, opened, Reply, do_call, new_circuit_breaker, try_attempt,
}

-- A body is named by a number, so that closing it can be observed.
pub record Response : Type 0 where
  pub status_code : ℕ
  pub status : String
  pub body : ℕ

pub record Request : Type 0 where
  pub user_agent : String
  pub url : String
  pub timeout : Option Duration

pub record HttpClient : Type 0 where
  pub user_agent : String
  pub timeout : Duration
  pub rate_interval : Duration
  pub rate_burst : ℤ
  pub circuit_breaker : Breaker

-- The request as it is sent: with the client's timeout on its context, if there is one.
unfoldable pub prepare : HttpClient → Request → Request
prepare h req = record req {
  user_agent = h.user_agent;
  timeout = if ltb_ℤ (pos 0) h.timeout then some h.timeout else req.timeout;
}

abbrev close_response : Option Response → List ℕ
close_response none = []
close_response (some r) = r.body ∷ []

-- What `client.Do` of net/http returns: a response, or an error, beside which a response may
-- stand.
pub data Fetched : Type 0 where
  got : Response → Fetched
  failed : Option Response → Err → Fetched

-- The error of the request first, then a status of 400 and up, which counts as an error.
unfoldable pub check : Fetched → Reply Response × List ℕ
check (failed resp e) = (record { resp = none; err = some e }, close_response resp)
check (got r) =
    if leb 400 r.status_code
    then (
      record { resp = none; err = some (message ("netloc has responded with " ++ r.status)) },
      r.body ∷ [],
    )
    else (record { resp = some r; err = none }, [])

-- The function that the circuit breaker calls, with the bodies that it closes: `wait` is the
-- error of the rate limiter, which is asked after the request.
unfoldable pub callback : Option Err → Fetched → Reply Response × List ℕ
unfolding check
callback (some e) r = (record { resp = none; err = some circuit_breaker_ignore }, [])
callback none r = check r

-- Whether `circuitBreaker.Do` calls the function.
abbrev is_called : State → Breaker → Bool
is_called closed c = true
is_called half_opened c = (try_attempt c).1
is_called opened c = false

-- `Do`: the client after it, the reply, and the bodies that were closed.
unfoldable pub do_request :
    HttpClient → (ctx wait : Option Err) → Fetched → HttpClient × Reply Response × List ℕ
unfolding callback
do_request h ctx wait r =
    let (c, reply) = do_call ctx (callback wait r).0 h.circuit_breaker in
    (
      record h { circuit_breaker = c },
      reply,
      if is_called h.circuit_breaker.state h.circuit_breaker then (callback wait r).1 else [],
    )

unfoldable pub new_http_client :
    (timeout : Duration) (user_agent : String) (rate_interval : Duration) (rate_burst : ℤ)
    (threshold : ℕ) (half_open_timeout reset_failures_timeout : Duration)
    → HttpClient
new_http_client timeout user_agent interval burst threshold half_open reset = record {
  user_agent = user_agent;
  timeout = timeout;
  rate_interval = interval;
  rate_burst = burst;
  circuit_breaker = new_circuit_breaker threshold half_open reset;
}
