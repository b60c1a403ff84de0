-- ===== src/Http.antt =====
-- topolib/http.go, topolib/http_handler_get.go and topolib/http_handler_post.go: the HTTP handler.
-- net/http's ResponseWriter is a record: the header may be sent once, with the fields it has then, and the
-- Content-Type that net/http adds where the handler has set none.
-- A handler that waits for ever is `none`.
pub mod Answers
pub mod Replies
pub mod Unique
pub mod Backend
mod Samples
use topographer.Base.{
  ℕ, String, Bool, true, false, Option, none, some, List, [], ◌∷◌, ◌++◌, map, ◌==◌, string_eq, Eq,
  not, ◌||◌, if◌then◌else◌,
}
use topographer.Base.Assoc.{insert}
use topographer.Base.Text.{trim, contains}
use topographer.Errors.{
  Err, HttpError, JsonHttpError, get_status_code, marshal_json, Result, ok, err,
}
use topographer.Structs.{Ip, ip_eq, ResolveResult, is_ok}
use topographer.Stats.{UsageStats}

-- What is encoded as JSON: `{"result": …}`, `{"results": …}` of two kinds, or an error.
pub data Payload : Type 0 where
  one_result : ResolveResult → Payload
  results : List ResolveResult → Payload
  stats : List UsageStats → Payload
  failure : JsonHttpError → Payload

pub record Writer : Type 0 where
  pub headers : List (String × String)
  pub sent : Option (ℕ × List (String × String))
  pub body : List Payload

abbrev pub new_writer : Writer
new_writer = record { headers = []; sent = none; body = [] }

-- `WriteHeader`: only the first call counts.
unfoldable pub write_header : ℕ → Writer → Writer
write_header code w = elim w.sent [ none ↦ record w { sent = some (code, w.headers) } | some _ ↦ w ]

-- What net/http finds a JSON text to be.
abbrev pub sniffed : String × String
sniffed = ("Content-Type", "text/plain; charset=utf-8")

abbrev has_content_type : List (String × String) → Bool
has_content_type [] = false
has_content_type ((name, value) ∷ fields) = name == "Content-Type" || has_content_type fields

-- With the first write of a body, a header that was sent without a Content-Type gets one.
abbrev sniff :
    List Payload → Option (ℕ × List (String × String)) → Option (ℕ × List (String × String))
sniff body none = none
sniff [] (some (code, fields)) =
    some (code, if has_content_type fields then fields else fields ++ sniffed ∷ [])
sniff (p ∷ ps) (some s) = some s

-- `Write`: the header is sent with status 200 if it is not sent.
unfoldable pub write : Payload → Writer → Writer
unfolding write_header
write p w =
    let w' = write_header 200 w in
    record w' { sent = sniff w'.body w'.sent; body = w'.body ++ p ∷ [] }

abbrev pub content_type : String × String
content_type = ("Content-Type", "application/json")

unfoldable pub encode_json : Payload → Writer → Writer
unfolding write
encode_json p w = write p (record w { headers = w.headers ++ content_type ∷ [] })

abbrev pub http_error : Option Err → String → ℕ → HttpError
http_error e message status = record { message = message; err = e; status_code = status }

unfoldable pub send_error : Option Err → String → ℕ → Writer → Writer
unfolding write_header encode_json
send_error e message status w =
    let h = http_error e message status in
    encode_json (failure (marshal_json (some h))) (write_header (get_status_code (some h)) w)

-- What the handler asks of its Topographer.
pub record Resolver : Type 0 where
  pub resolve : Ip → List String → Option (ResolveResult × Option Err)
  pub resolve_all : List Ip → List String → Result (List ResolveResult)
  pub usage_stats : List UsageStats

-- A request. `read` is what reading the body gives.
pub record HttpRequest : Type 0 where
  pub method : String
  pub path : String
  pub remote_addr : String
  pub content_type : String
  pub read : Result String

-- The body of a POST request after `json.Unmarshal`.
pub record PostRequest : Type 0 where
  pub ips : List Ip
  pub providers : List String

-- What other packages do: net.ParseIP, net.SplitHostPort (the host), the validation against the
-- schema, json.Unmarshal, and the orders in which two maps are visited.
pub record Codec : Type 0 where
  pub parse_ip : String → Option Ip
  pub split_host : String → Result String
  pub validate : String → Result (List Err)
  pub unmarshal : String → Result PostRequest
  pub ip_order : List (Ip × Bool) → List (Ip × Bool)
  pub name_order : List (String × Bool) → List (String × Bool)

module _ {ℓ} {K : Type ℓ} ⦃e : Eq K⦄ where
  -- The loop that fills `uniques` in the two functions below.
  unfoldable pub uniques_of : List K → List (K × Bool) → List (K × Bool)
  uniques_of [] uniques = uniques
  uniques_of (v ∷ vs) uniques = uniques_of vs (insert v true uniques)

unfoldable pub handle_post_unique_ips : Codec → List Ip → List Ip
unfolding uniques_of
handle_post_unique_ips c ips = map (λ (e : Ip × Bool). e.0) (c.ip_order (uniques_of ips []))

unfoldable pub handle_post_unique_providers : Codec → List String → List String
unfolding uniques_of
handle_post_unique_providers c names =
    map (λ (e : String × Bool). e.0) (c.name_order (uniques_of names []))

-- The loop that looks for a result that is not complete.
abbrev pub all_ok : List ResolveResult → Bool
all_ok [] = true
all_ok (r ∷ rs) = if not (is_ok r) then false else all_ok rs

module _ (c : Codec) (h : Resolver) where
  -- handleGetIP behind the call of Resolve.
  unfoldable pub answer_ip : ResolveResult × Option Err → Writer → Writer
  answer_ip (r, some e) w = send_error (some e) "Cannot resolve IP address" 0 w
  answer_ip (r, none) w =
      if not (is_ok r)
      then send_error none "Cannot resolve IP address yet" 503 w
      else encode_json (one_result r) w

  unfoldable pub handle_get_ip : Ip → Writer → Option Writer
  handle_get_ip ip w = elim (h.resolve ip []) [ none ↦ none | some r ↦ some (answer_ip r w) ]

  unfoldable pub handle_get_resolve : HttpRequest → Writer → Option Writer
  handle_get_resolve req w = elim (c.split_host req.remote_addr) [
    | err e ↦ some (send_error (some e) "Cannot detect your IP address" 0 w)
    | ok host ↦ elim (c.parse_ip host) [
      | none ↦ some (send_error none "Address was detected incorrectly" 0 w)
      | some ip ↦ handle_get_ip ip w
    ]
  ]

  unfoldable pub handle_get_stats : Writer → Writer
  handle_get_stats w = encode_json (stats h.usage_stats) w

  -- handlePost behind the call of ResolveAll.
  unfoldable pub answer_all : Result (List ResolveResult) → Writer → Writer
  answer_all (err e) w = send_error (some e) "Cannot resolve given IPs" 500 w
  answer_all (ok rs) w =
      if all_ok rs
      then encode_json (results rs) w
      else send_error none "Cannot resolve IP address yet" 503 w

  -- handlePost from json.Unmarshal on.
  unfoldable pub handle_parsed : Result PostRequest → Writer → Writer
  handle_parsed (err e) w = send_error (some e) "Cannot parse request JSON" 400 w
  handle_parsed (ok p) w =
      answer_all
        (h.resolve_all (handle_post_unique_ips c p.ips)
          (handle_post_unique_providers c p.providers))
        w

  -- handlePost from the validation on.
  unfoldable pub handle_body : String → Result (List Err) → Writer → Writer
  handle_body body (err e) w = send_error (some e) "Cannot validate body" 500 w
  handle_body body (ok (e ∷ errs)) w = send_error (some e) "Invalid request body" 400 w
  handle_body body (ok []) w = handle_parsed (c.unmarshal body) w

  unfoldable pub handle_post : HttpRequest → Writer → Writer
  handle_post req w =
      if not (contains req.content_type "application/json")
      then send_error none "Incorrect content type" 415 w
      else elim req.read [
        | err e ↦ send_error (some e) "Cannot read request body" 400 w
        | ok body ↦ handle_body body (c.validate body) w
      ]

  -- The `switch` on the path for GET and HEAD.
  unfoldable pub serve_get : String → HttpRequest → Writer → Option Writer
  serve_get path req w =
      if path == ""
      then handle_get_resolve req w
      else if path == "stats"
      then some (handle_get_stats w)
      else elim (c.parse_ip path) [
        | none ↦ some (send_error none "URL not found" 404 w)
        | some ip ↦ handle_get_ip ip w
      ]

  -- 47 is the slash.
  unfoldable pub serve_http : HttpRequest → Writer → Option Writer
  serve_http req w =
      let path = trim 47 req.path in
      if req.method == "GET"
      then serve_get path req w
      else if req.method == "HEAD"
      then serve_get path req w
      else if req.method == "POST"
      then some (if path == "" then handle_post req w else send_error none "URL not found" 404 w)
      else some (send_error none "Method is not allowed" 405 w)
