-- ===== src/HttpClient/Samples.antt =====
-- Requests through the HTTP client of topolib/http_client.go.
use topographer.Base.{◌<◌, ◌≡◌, ◌≢◌, ◌↔◌, ◌⊎◌, refl, Option, none, some, [], ◌∷◌}
use topographer.Base.Time.{pos}
use topographer.Errors.{Err, message}
use topographer.Breaker.{opened, do_call, new_circuit_breaker}
use topographer.HttpClient.{HttpClient, Response, got, do_request, new_http_client}
use topographer.HttpClient.Bodies.{IsLost, do_request-success, IsLost-iff}

client : HttpClient
unfolding new_http_client
client = new_http_client (pos 10) "topographer/dev" (pos 100) (pos 10) 5 (pos 60) (pos 20)

abbrev fine : Response
fine = record { status_code = 200; status = "200 OK"; body = 7 }

abbrev missing : Response
missing = record { status_code = 404; status = "404 Not Found"; body = 8 }

requests :
    ((do_request client none none (got fine)).1 ≡ record { resp = some fine; err = none })
    × ((do_request client none none (got missing)).1
        ≡ record { resp = none; err = some (message "netloc has responded with 404 Not Found") })
    × ((do_request client none none (got missing)).2 ≡ 8 ∷ [])
unfolding do_request client do_call new_circuit_breaker
requests = (refl, refl, refl)

do_request-success_example :
    (fine.status_code < 400)
    × (got fine ≡ got fine)
    × (◌≡◌ {A = Option Err} none none)
    × (◌≡◌ {A = Option Err} none none)
    × (client.circuit_breaker.state ≢ opened)
    × ((do_request client none none (got fine)).2 ≡ [])
do_request-success_example = do_request-success client none none (got fine) fine requests.0

IsLost-iff_example :
    IsLost fine (do_request client none (some (message "rate: would exceed")) (got fine)) ↔ (
      (some (message "rate: would exceed") ≢ none)
      ⊎ ((◌≢◌ {A = Option Err} none none) × (fine.status_code < 400)))
unfolding client new_circuit_breaker
IsLost-iff_example = IsLost-iff client none (some (message "rate: would exceed")) fine refl
