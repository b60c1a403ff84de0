-- ===== src/Http/Replies.antt =====
-- What the handler of topolib/http.go sends, on every path through it.
use topographer.Base.{
  ℕ, ◌≤◌, ◌<◌, String, ◌≡◌, ◌≢◌, refl, sym, subst, ◌⊎◌, inl, inr, true, false, Bool-cases,
  Option-cases, Option, none, some, List, [], ◌∷◌, arith, All, ◌==◌, string_eq, nat_eq, eq_iff,
}
use topographer.Base.Text.{trim, contains}
use topographer.Errors.{Err, get_status_code, Result, ok, err, Result-cases}
use topographer.Structs.{Ip, ResolveResult, is_ok}
use topographer.Http.{
  Payload, one_result, results, stats, Writer, new_writer, write_header, write, encode_json,
  send_error, Resolver, HttpRequest, PostRequest, Codec, all_ok, answer_ip, handle_get_ip,
  handle_get_resolve, handle_get_stats, answer_all, handle_parsed, handle_body, handle_post,
  handle_post_unique_ips, handle_post_unique_providers, serve_get, serve_http,
}
use topographer.Http.Answers.{
  IsGet, IsAsked, IsPosted, IsComplete, complete_one, complete_all, complete_stats, IsSuccess,
  IsAnswered, serve_http_complete,
}

-- 0 stands for 500.
abbrev IsErrorStatus : ℕ → Type 0
IsErrorStatus n = (n ≡ 0) ⊎ ((400 ≤ n) × (n < 600))

all_ok-All : (rs : List ResolveResult) → all_ok rs ≡ true → All (λ r. is_ok r ≡ true) rs
all_ok-All [] h = tt
all_ok-All (r ∷ rs) h = elim (Bool-cases (is_ok r)) [
  | inl found ↦ (found, all_ok-All rs (rw found at h))
  | inr lacking ↦ cc (rw lacking at h)
]

differs : (a b : String) → (a == b) ≡ false → a ≢ b
differs a b e = ground (arith, eq_iff a b)

module _ (c : Codec) (h : Resolver) (req : HttpRequest) where
  send_error-IsAnswered :
      (e : Option Err) (m : String) (n : ℕ)
      → IsErrorStatus n
      → IsAnswered c h req (some (send_error e m n new_writer))
  unfolding send_error write_header encode_json write get_status_code
  send_error-IsAnswered e m n (inl z) = rw z (inr (_, 500, omega arith, omega arith, refl, refl))
  send_error-IsAnswered e m n (inr (low, high)) = elim (Bool-cases (n == 0)) [
    | inl zero ↦ absurd (ground arith)
    | inr other ↦ inr (_, n, low, high, refl, rw other refl)
  ]

  encode_json-IsSuccess :
      (p : Payload) → IsComplete c h req p → IsSuccess c h req (encode_json p new_writer)
  unfolding encode_json write write_header
  encode_json-IsSuccess p k = (p, k, refl, refl)

  error_answer :
      (o : Option Writer) (e : Option Err) (m : String) (n : ℕ)
      → IsErrorStatus n
      → o ≡ some (send_error e m n new_writer)
      → IsAnswered c h req o
  error_answer o e m n k same =
      subst (λ o. IsAnswered c h req o) (sym same) (send_error-IsAnswered e m n k)

  moved : (o o' : Option Writer) → o ≡ o' → IsAnswered c h req o' → IsAnswered c h req o
  moved o o' same a = subst (λ o. IsAnswered c h req o) (sym same) a

  answer_ip-IsAnswered :
      (ip : Ip) (r : ResolveResult × Option Err)
      → IsAsked c req ip
      → h.resolve ip [] ≡ some r
      → IsAnswered c h req (some (answer_ip c h r new_writer))
  unfolding answer_ip
  answer_ip-IsAnswered ip (r, some e) asked given = send_error-IsAnswered _ _ 0 (inl refl)
  answer_ip-IsAnswered ip (r, none) asked given = elim (Bool-cases (is_ok r)) [
    | inl found ↦
        moved (some (answer_ip c h (r, none) new_writer))
          (some (encode_json (one_result r) new_writer)) (rw found refl)
          (inl (encode_json-IsSuccess _ (complete_one ip r asked given found)))
    | inr lacking ↦
        error_answer (some (answer_ip c h (r, none) new_writer)) none
          "Cannot resolve IP address yet" 503 (inr (omega arith, omega arith)) (rw lacking refl)
  ]

  handle_get_ip-IsAnswered :
      (ip : Ip) → IsAsked c req ip → IsAnswered c h req (handle_get_ip c h ip new_writer)
  unfolding handle_get_ip
  handle_get_ip-IsAnswered ip asked = elim (Option-cases (h.resolve ip [])) [
    | inl e ↦ moved _ none (rw (handle_get_ip, e) refl) (ip, asked, e)
    | inr (r, e) ↦
        moved _ (some (answer_ip c h r new_writer)) (rw (handle_get_ip, e) refl)
          (answer_ip-IsAnswered ip r asked e)
  ]

  handle_get_resolve-IsAnswered :
      IsGet req → trim 47 req.path ≡ "" → IsAnswered c h req (handle_get_resolve c h req new_writer)
  unfolding handle_get_resolve
  handle_get_resolve-IsAnswered get root = elim (Result-cases (c.split_host req.remote_addr)) [
    | inr (x, e) ↦
        error_answer _ (some x) "Cannot detect your IP address" 0 (inl refl)
          (rw (handle_get_resolve, e) refl)
    | inl (host, e) ↦ elim (Option-cases (c.parse_ip host)) [
      | inl f ↦
          error_answer _ none "Address was detected incorrectly" 0 (inl refl)
            (rw (handle_get_resolve, e, f) refl)
      | inr (ip, f) ↦
          moved _ (handle_get_ip c h ip new_writer) (rw (handle_get_resolve, e, f) refl)
            (handle_get_ip-IsAnswered ip (get, inl (root, (host, e, f))))
    ]
  ]

  answer_all-IsAnswered :
      (p : PostRequest) (r : Result (List ResolveResult))
      → IsPosted c req p
      → h.resolve_all (handle_post_unique_ips c p.ips) (handle_post_unique_providers c p.providers)
        ≡ r
      → IsAnswered c h req (some (answer_all c h r new_writer))
  unfolding answer_all
  answer_all-IsAnswered p (err e) posted given =
      send_error-IsAnswered _ _ 500 (inr (omega arith, omega arith))
  answer_all-IsAnswered p (ok rs) posted given = elim (Bool-cases (all_ok rs)) [
    | inl found ↦
        moved (some (answer_all c h (ok rs) new_writer))
          (some (encode_json (results rs) new_writer)) (rw found refl)
          (inl (encode_json-IsSuccess _ (complete_all p rs posted given (all_ok-All rs found))))
    | inr lacking ↦
        error_answer (some (answer_all c h (ok rs) new_writer)) none "Cannot resolve IP address yet"
          503 (inr (omega arith, omega arith)) (rw lacking refl)
  ]

  handle_parsed-IsAnswered :
      (r : Result PostRequest)
      → ((p : PostRequest) → r ≡ ok p → IsPosted c req p)
      → IsAnswered c h req (some (handle_parsed c h r new_writer))
  unfolding handle_parsed
  handle_parsed-IsAnswered (err e) posted =
      send_error-IsAnswered _ _ 400 (inr (omega arith, omega arith))
  handle_parsed-IsAnswered (ok p) posted = answer_all-IsAnswered p _ (posted p refl) refl

  handle_body-IsAnswered :
      (body : String) (r : Result (List Err))
      → ((p : PostRequest) → r ≡ ok [] → c.unmarshal body ≡ ok p → IsPosted c req p)
      → IsAnswered c h req (some (handle_body c h body r new_writer))
  unfolding handle_body
  handle_body-IsAnswered body (err e) posted =
      send_error-IsAnswered _ _ 500 (inr (omega arith, omega arith))
  handle_body-IsAnswered body (ok (e ∷ errs)) posted =
      send_error-IsAnswered _ _ 400 (inr (omega arith, omega arith))
  handle_body-IsAnswered body (ok []) posted =
      handle_parsed-IsAnswered (c.unmarshal body) (λ p e. posted p refl e)

  handle_post-IsAnswered :
      req.method ≡ "POST"
      → trim 47 req.path ≡ ""
      → IsAnswered c h req (some (handle_post c h req new_writer))
  unfolding handle_post
  handle_post-IsAnswered post root =
      elim (Bool-cases (contains req.content_type "application/json")) [
        | inr other ↦
            error_answer (some (handle_post c h req new_writer)) none "Incorrect content type" 415
              (inr (omega arith, omega arith)) (rw (handle_post, other) refl)
        | inl json ↦ elim (Result-cases req.read) [
          | inr (x, e) ↦
              error_answer (some (handle_post c h req new_writer)) (some x)
                "Cannot read request body" 400 (inr (omega arith, omega arith))
                (rw (handle_post, json, e) refl)
          | inl (body, e) ↦
              moved (some (handle_post c h req new_writer))
                (some (handle_body c h body (c.validate body) new_writer))
                (rw (handle_post, json, e) refl)
                (handle_body-IsAnswered body (c.validate body)
                  (λ p valid parsed. (post, root, json, (body, e, valid, parsed))))
        ]
      ]

  serve_get-IsAnswered :
      IsGet req → IsAnswered c h req (serve_get c h (trim 47 req.path) req new_writer)
  unfolding serve_get handle_get_stats
  serve_get-IsAnswered get =
      let path = trim 47 req.path in
      elim (Bool-cases (path == "")) [
        | inl root ↦
            moved _ (handle_get_resolve c h req new_writer) (rw (serve_get, root) refl)
              (handle_get_resolve-IsAnswered get ((eq_iff path "").0 root))
        | inr below ↦ elim (Bool-cases (path == "stats")) [
          | inl counters ↦
              moved _ (some (encode_json (stats h.usage_stats) new_writer))
                (rw (serve_get, below, counters) refl)
                (inl
                  (encode_json-IsSuccess _ (complete_stats get ((eq_iff path "stats").0 counters))))
          | inr other ↦ elim (Option-cases (c.parse_ip path)) [
            | inl e ↦
                error_answer _ none "URL not found" 404 (inr (omega arith, omega arith))
                  (rw (serve_get, below, other, e) refl)
            | inr (ip, e) ↦
                moved _ (handle_get_ip c h ip new_writer) (rw (serve_get, below, other, e) refl) (
                  handle_get_ip-IsAnswered ip
                    (get, inr (differs path "" below, differs path "stats" other, e)))
          ]
        ]
      ]

  pub serve_http-inv : IsAnswered c h req (serve_http c h req new_writer)
  unfolding serve_http
  serve_http-inv = elim (Bool-cases (req.method == "GET")) [
    | inl get ↦ rw get (serve_get-IsAnswered (inl ((eq_iff req.method "GET").0 get)))
    | inr not_get ↦ rw not_get (elim (Bool-cases (req.method == "HEAD")) [
      | inl head ↦ rw head (serve_get-IsAnswered (inr ((eq_iff req.method "HEAD").0 head)))
      | inr not_head ↦ rw not_head (elim (Bool-cases (req.method == "POST")) [
        | inr other ↦ rw other (send_error-IsAnswered _ _ 405 (inr (omega arith, omega arith)))
        | inl post ↦ rw post (elim (Bool-cases (trim 47 req.path == "")) [
          | inl root ↦ rw root (
              handle_post-IsAnswered ((eq_iff req.method "POST").0 post)
                ((eq_iff (trim 47 req.path) "").0 root))
          | inr below ↦ rw below (send_error-IsAnswered _ _ 404 (inr (omega arith, omega arith)))
        ])
      ])
    ])
  ]

  -- A request is answered, unless the call of Resolve for its address waits for ever. For GET and
  -- HEAD the address is the one that the path is, or that of the caller if the path is empty. The answer is exactly one JSON
  -- document. Either it is the statistics, asked for with the path stats, or what the resolver gave for the
  -- address or for the distinct addresses and names of a valid POST request, where each result has a country
  -- and a city; it is sent with status 200 and the content type application/json. Or else it is an error,
  -- sent with a status from 400 to 599 and the content type text/plain that net/http adds. And whenever
  -- the resolver gives such results for the request, they are the answer.
  pub serve_http-IsAnswered :
      IsAnswered c h req (serve_http c h req new_writer)
      × ((p : Payload)
          → IsComplete c h req p
          → serve_http c h req new_writer ≡ some (encode_json p new_writer))
  serve_http-IsAnswered = (serve_http-inv, serve_http_complete c h req)
