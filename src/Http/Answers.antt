-- ===== src/Http/Answers.antt =====
-- What a request to the handler of topolib/http.go asks for, and what it may be answered.
use topographer.Base.{
  ℕ, ◌≤◌, ◌<◌, String, ◌≡◌, ◌≢◌, refl, ◌⊎◌, inl, inr, true, false, Option, none, some, List, [],
  ◌∷◌, arith, All, ◌==◌, string_eq, eq_iff, ◌∙◌,
}
use topographer.Base.Text.{trim, contains}
use topographer.Errors.{JsonHttpError, ok}
use topographer.Structs.{Ip, ResolveResult, is_ok}
use topographer.Http.{
  Payload, one_result, results, stats, failure, Writer, new_writer, content_type, sniffed,
  encode_json, Resolver, HttpRequest, PostRequest, Codec, handle_post_unique_ips,
  handle_post_unique_providers, all_ok, answer_ip, handle_get_ip, handle_get_resolve,
  handle_get_stats, answer_all, handle_parsed, handle_body, handle_post, serve_get, serve_http,
}

abbrev pub IsFailure : Writer → Type 0
IsFailure w =
    (j : JsonHttpError) × (status : ℕ) × (400 ≤ status)
    × (status < 600)
    × (w.body ≡ failure j ∷ [])
    × (w.sent ≡ some (status, sniffed ∷ []))

abbrev pub IsGet : HttpRequest → Type 0
IsGet req = (req.method ≡ "GET") ⊎ (req.method ≡ "HEAD")

module _ (c : Codec) (req : HttpRequest) where
  -- The address to resolve: that of the caller for the root, and else the one that the path is.
  abbrev pub IsAsked : Ip → Type 0
  IsAsked ip =
      IsGet req
      × (((trim 47 req.path ≡ "")
            × ((host : String) × (c.split_host req.remote_addr ≡ ok host)
                × (c.parse_ip host ≡ some ip)))
          ⊎ ((trim 47 req.path ≢ "")
              × (trim 47 req.path ≢ "stats")
              × (c.parse_ip (trim 47 req.path) ≡ some ip)))

  -- A valid POST request.
  abbrev pub IsPosted : PostRequest → Type 0
  IsPosted p =
      (req.method ≡ "POST")
      × (trim 47 req.path ≡ "")
      × (contains req.content_type "application/json" ≡ true)
      × ((body : String) × (req.read ≡ ok body)
          × (c.validate body ≡ ok [])
          × (c.unmarshal body ≡ ok p))

module _ (c : Codec) (h : Resolver) (req : HttpRequest) where
  -- What the resolver gave for this request: the statistics, or results that all have a country and a city.
  pub data IsComplete : Payload → Type 0 where
    complete_one :
        (ip : Ip) (r : ResolveResult)
        → IsAsked c req ip
        → h.resolve ip [] ≡ some (r, none)
        → is_ok r ≡ true
        → IsComplete (one_result r)
    complete_all :
        (p : PostRequest) (rs : List ResolveResult)
        → IsPosted c req p
        → h.resolve_all
            (handle_post_unique_ips c p.ips)
            (handle_post_unique_providers c p.providers)
          ≡ ok rs
        → All (λ r. is_ok r ≡ true) rs
        → IsComplete (results rs)
    complete_stats : IsGet req → trim 47 req.path ≡ "stats" → IsComplete (stats h.usage_stats)

  abbrev pub IsSuccess : Writer → Type 0
  IsSuccess w =
      (p : Payload) × IsComplete p × (w.body ≡ p ∷ []) × (w.sent ≡ some (200, content_type ∷ []))

  -- `none` is a request that waits for the lookup of its address.
  abbrev pub IsAnswered : Option Writer → Type 0
  IsAnswered none = (ip : Ip) × IsAsked c req ip × (h.resolve ip [] ≡ none)
  IsAnswered (some w) = IsSuccess w ⊎ IsFailure w

  All-all_ok : (rs : List ResolveResult) → All (λ r. is_ok r ≡ true) rs → all_ok rs ≡ true
  All-all_ok [] a = refl
  All-all_ok (r ∷ rs) (first, rest) = rw first (All-all_ok rs rest)

  same_test : (a b : String) → a ≡ b → (a == b) ≡ true
  same_test a b e = (eq_iff a b).1 e

  other_test : (a b : String) → a ≢ b → (a == b) ≡ false
  other_test a b e = ground (arith, eq_iff a b)

  get-serve_http :
      IsGet req → serve_http c h req new_writer ≡ serve_get c h (trim 47 req.path) req new_writer
  unfolding serve_http
  get-serve_http (inl e) = rw (same_test req.method "GET" e) refl
  get-serve_http (inr e) = rw e refl

  post-serve_http :
      req.method ≡ "POST"
      → trim 47 req.path ≡ ""
      → serve_http c h req new_writer ≡ some (handle_post c h req new_writer)
  unfolding serve_http
  post-serve_http e p = rw (e, p) refl

  -- The handler answers with what the resolver gave.
  pub serve_http_complete :
      (p : Payload) → IsComplete p → serve_http c h req new_writer ≡ some (encode_json p new_writer)
  unfolding serve_get handle_get_ip answer_ip handle_get_resolve handle_get_stats handle_post
      handle_body handle_parsed answer_all
  serve_http_complete p (complete_one ip r (get, inl (root, (host, found, parsed))) given full) =
      get-serve_http get
      ∙ rw (root, handle_get_resolve, found, parsed, handle_get_ip, given, full) refl
  serve_http_complete p (complete_one ip r (get, inr (below, other, parsed)) given full) =
      get-serve_http get
      ∙ rw (other_test _ _ below, other_test _ _ other, parsed, handle_get_ip, given, full) refl
  serve_http_complete p
        (complete_all q rs (post, root, json, (body, read, valid, parsed)) given full) =
      post-serve_http post root
      ∙ rw
          (
            handle_post,
            json,
            read,
            valid,
            handle_body,
            parsed,
            handle_parsed,
            given,
            answer_all,
            All-all_ok rs full,
          )
          refl
  serve_http_complete p (complete_stats get path) = get-serve_http get ∙ rw path refl
