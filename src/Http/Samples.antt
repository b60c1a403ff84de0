-- ===== src/Http/Samples.antt =====
-- Requests to the handler of topolib/http.go.
use mathlib.Core.List.Perm
use topographer.Base.{
  ℕ, String, ◌≡◌, refl, false, Option, none, some, List, [], ◌∷◌, ◌==◌, string_eq, if◌then◌else◌,
  map,
}
use topographer.Base.Assoc.{insert}
use topographer.Base.Text.{trim, contains}
use topographer.Errors.{ok, get_status_code, marshal_json}
use topographer.Structs.{Ip, ip_beq, ip_eq, ResolveResult, is_ok, blank_result}
use topographer.Stats.{new_stats}
use topographer.Topographer.{Topographer, shutdown, usage_stats}
use topographer.Http.{
  Payload, one_result, sniffed, Writer, new_writer, write_header, write, content_type, encode_json,
  send_error, Resolver, HttpRequest, Codec, uniques_of, handle_post_unique_ips,
  handle_post_unique_providers, answer_ip, handle_get_ip, handle_get_resolve, handle_get_stats,
  answer_all, handle_parsed, handle_body, handle_post, serve_get, serve_http,
}
use topographer.Http.Answers.{IsComplete, IsAnswered}
use topographer.Http.Replies.{serve_http-IsAnswered}
use topographer.Http.Unique.{IsCodec, occurrences, is_member, handle_post_unique_lem}
use topographer.Http.Backend.{Surroundings, resolver_of, IsListingOrFailure, shutdown-serve_http}

program : Unit {0}
unfolding trim contains insert ip_beq is_ok write_header write encode_json send_error uniques_of
    handle_post_unique_ips handle_post_unique_providers answer_ip handle_get_ip handle_get_resolve
    handle_get_stats answer_all handle_parsed handle_body handle_post serve_get serve_http
    get_status_code marshal_json
program = tt

abbrev address : Ip
address = 1 ∷ 2 ∷ 3 ∷ 4 ∷ []

abbrev resolved : ResolveResult
resolved = record {
  ip = address;
  country = record {
    alpha2_code = "PE";
    alpha3_code = "PER";
    common_name = "Peru";
    official_name = "Republic of Peru";
  };
  city = "Lima";
  details = [];
}

-- One address is known, and any other has no city.
abbrev backend : Resolver
backend = record {
  resolve = λ ip names. some (if ip == address then resolved else blank_result ip, none);
  resolve_all = λ ips names. ok (map (λ ip. record resolved { ip = ip }) ips);
  usage_stats = new_stats "a" ∷ [];
}

abbrev codec : Codec
codec = record {
  parse_ip = λ s. if s == "1.2.3.4" then some address else if s == "9.9.9.9" then some [] else none;
  split_host = λ s. ok s;
  validate = λ s. ok [];
  unmarshal =
      λ s. ok (record { ips = address ∷ [] ∷ address ∷ []; providers = "a" ∷ "b" ∷ "a" ∷ [] });
  ip_order = λ m. m;
  name_order = λ m. m;
}

abbrev request : String → String → HttpRequest
request method path = record {
  method = method;
  path = path;
  remote_addr = "1.2.3.4";
  content_type = "application/json; charset=utf-8";
  read = ok "{}";
}

abbrev status : Option Writer → Option (ℕ × List (String × String))
status none = none
status (some w) = w.sent

requests :
    (serve_http codec backend (request "GET" "/") new_writer
      ≡ some (encode_json (one_result resolved) new_writer))
    × (status (serve_http codec backend (request "GET" "/1.2.3.4/") new_writer)
        ≡ some (200, content_type ∷ []))
    × (status (serve_http codec backend (request "HEAD" "/9.9.9.9") new_writer)
        ≡ some (503, sniffed ∷ []))
    × (status (serve_http codec backend (request "GET" "/there") new_writer)
        ≡ some (404, sniffed ∷ []))
    × (status (serve_http codec backend (request "PUT" "/") new_writer) ≡ some (405, sniffed ∷ []))
    × (status (serve_http codec backend (request "POST" "//") new_writer)
        ≡ some (200, content_type ∷ []))
unfolding program
requests = (refl, refl, refl, refl, refl, refl)

serve_http-IsAnswered_example :
    IsAnswered codec backend
      (request "GET" "/1.2.3.4")
      (serve_http codec backend (request "GET" "/1.2.3.4") new_writer)
    × ((p : Payload)
        → IsComplete codec backend (request "GET" "/1.2.3.4") p
        → serve_http codec backend (request "GET" "/1.2.3.4") new_writer
          ≡ some (encode_json p new_writer))
serve_http-IsAnswered_example = serve_http-IsAnswered codec backend (request "GET" "/1.2.3.4")

codec-IsCodec : IsCodec codec
codec-IsCodec = record { ips = λ m. Perm.refl m; names = λ m. Perm.refl m }

handle_post_unique_lem_example :
    ((ip : Ip)
      → occurrences ip (handle_post_unique_ips codec (address ∷ [] ∷ address ∷ []))
        ≡ (if is_member ip (address ∷ [] ∷ address ∷ []) then 1 else 0))
    × ((name : String)
        → occurrences name (handle_post_unique_providers codec ("a" ∷ "b" ∷ "a" ∷ []))
          ≡ (if is_member name ("a" ∷ "b" ∷ "a" ∷ []) then 1 else 0))
handle_post_unique_lem_example =
    handle_post_unique_lem codec codec-IsCodec (address ∷ [] ∷ address ∷ []) ("a" ∷ "b" ∷ "a" ∷ [])

abbrev instance_up : Topographer
instance_up = record {
  providers = [];
  provider_stats = ("a", new_stats "a") ∷ [];
  closed = false;
  once = false;
  released = 0;
  stopped = [];
}

abbrev surroundings : Surroundings
surroundings = record {
  provider_order = [];
  stats_order = ("a", new_stats "a") ∷ [];
  is_done = λ ip. false;
  refusal = λ ip. none;
  merge = λ ip details. some (blank_result ip);
  task = λ ip ps. record { endings = []; is_sent = false };
  arrive = λ ips ps. [];
}

shutdown-serve_http_example : IsListingOrFailure (usage_stats (("a", new_stats "a") ∷ [])) (
    serve_http codec
      (resolver_of (shutdown instance_up) surroundings)
      (request "GET" "/1.2.3.4")
      new_writer)
shutdown-serve_http_example =
    shutdown-serve_http instance_up surroundings codec (request "GET" "/1.2.3.4")
