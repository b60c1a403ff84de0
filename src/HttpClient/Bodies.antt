-- ===== src/HttpClient/Bodies.antt =====
-- What a caller of the HTTP client (topolib/http_client.go) gets, and what becomes of the bodies.
use topographer.Base.{ℕ, ◌<◌, ◌≡◌, ◌≢◌, ◌↔◌, ◌⊎◌, Option, none, some, List, [], arith, All}
use topographer.Errors.{Err}
use topographer.Breaker.{closed, opened, Reply, do_call}
use topographer.HttpClient.{HttpClient, Response, Fetched, got, do_request}

-- A reply with no error and a response comes from a request that the network answered with that
-- response, its status below 400; the limiter and the context were fine, the breaker was not
-- opened, and no body was closed.
pub do_request-success :
    (h : HttpClient) (ctx wait : Option Err) (r : Fetched) (resp : Response)
    → (do_request h ctx wait r).1 ≡ record { resp = some resp; err = none }
    → (resp.status_code < 400)
      × (r ≡ got resp)
      × (ctx ≡ none)
      × (wait ≡ none)
      × (h.circuit_breaker.state ≢ opened)
      × ((do_request h ctx wait r).2 ≡ [])
unfolding do_request do_call
do_request-success h ctx wait r resp e = ground arith

-- The response was neither handed to the caller nor closed.
abbrev pub IsLost : Response → HttpClient × Reply Response × List ℕ → Type 0
IsLost resp (h, reply, bodies) = (reply.resp ≢ some resp) × All (λ b. b ≢ resp.body) bodies

-- A closed breaker lets the request through. When the network answers it, the response is lost
-- (neither returned nor closed) exactly if the rate limiter refuses, or the context is done by
-- then and the status is below 400.
pub IsLost-iff :
    (h : HttpClient) (ctx wait : Option Err) (resp : Response)
    → h.circuit_breaker.state ≡ closed
    → IsLost resp (do_request h ctx wait (got resp))
      ↔ ((wait ≢ none) ⊎ ((ctx ≢ none) × (resp.status_code < 400)))
unfolding do_request do_call
IsLost-iff h ctx wait resp s = (λ l. ground arith, λ w. ground arith)
