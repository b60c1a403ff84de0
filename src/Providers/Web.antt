-- ===== src/Providers/Web.antt =====
-- The web services of providers/ip2c.go, providers/ipinfo.go and providers/ipstack.go: the request of a
-- Lookup, what it makes of the response, and the bodies that it reads to the end and closes
-- (flushResponse). The client, reading and decoding a body, and net/url's text of a URL are arguments.
pub mod Answers
pub mod Chunks
pub mod Lookups
pub mod Address
mod Samples
use Prim.Native.Char.{Char, code}
use Prim.Native.String
use topographer.Base.{
  ℕ, zero, suc, String, Bool, true, false, Option, none, some, List, [], ◌∷◌, ◌++◌, not, ◌==◌,
  nat_eq, nat_beq, string_eq, if◌then◌else◌,
}
use topographer.Base.Time.{ℤ, pos, negsuc}
use topographer.Errors.{Err, message, wrap, Result, ok, err, ◌>>=◌, context}
use topographer.Structs.{Ip, ProviderLookupResult}
use topographer.Country.{CodeTables, alpha2_to_country_code}
use topographer.HttpClient.{Response}
use topographer.Providers.Net.{to4, be_uint32}
use topographer.Providers.Decimal.{itoa}

-- url.URL; the query has the keys in the order they are set in.
pub record Url : Type 0 where
  pub scheme : String
  pub host : String
  pub path : String
  pub query : List (String × String)

-- A GET request: the URL as text, and the fields of the header.
pub record WebRequest : Type 0 where
  pub url : String
  pub headers : List (String × String)

pub record IpinfoResponse : Type 0 where
  pub city : String
  pub country : String

pub record IpstackResponse : Type 0 where
  pub error_code : ℤ
  pub error_type : String
  pub error_info : String
  pub city : String
  pub country : String

-- What other packages do, and the countries. A body is named by a number.
pub record WebCodec : Type 0 where
  pub url_string : Url → String
  pub ip_string : Ip → String
  pub int_string : ℤ → String
  pub read_all : ℕ → Result String
  pub decode_ipinfo : ℕ → Result IpinfoResponse
  pub decode_ipstack : ℕ → Result IpstackResponse
  pub upper : Char → Char
  pub tables : CodeTables

abbrev pub Client : Type 0
Client = WebRequest → Result Response

-- A lookup returns its result, and flushes the bodies of the list.
abbrev pub Looked : Type 0
Looked = Result ProviderLookupResult × List ℕ

abbrev text : List String → String
text [] = ""
text (s ∷ ss) = String.◌++◌ s (text ss)

abbrev pub unexpected_status : Response → Err
unexpected_status r = message (text ("unexpected status code: " ∷ itoa r.status_code ∷ []))

-- After `Do`: the deferred flushResponse, the test of the status, and `parse` of the body.
abbrev pub received : (ℕ → Result ProviderLookupResult) → Result Response → Looked
received parse (err e) = (err (wrap "cannot send a request" e), [])
received parse (ok resp) = (
  if not (resp.status_code == 200) then err (unexpected_status resp) else parse resp.body,
  resp.body ∷ [],
)

abbrev pub exchange : Client → WebRequest → (ℕ → Result ProviderLookupResult) → Looked
exchange client req parse = received parse (client req)

-- The character before the first part.
abbrev pub longer : Char → Option (String × String) → Option (String × String)
longer c none = none
longer c (some parts) = some (String.◌∷◌ c parts.0, parts.1)

-- The text before the first separator, and the text after it.
unfoldable pub cut : ℕ → String → Option (String × String)
cut sep String.[] = none
cut sep (String.◌∷◌ c s) =
    let rest = cut sep s in if nat_beq (code c) sep then some ("", s) else longer c rest

-- strings.SplitN with a separator of one character, given by its code, and a positive limit.
unfoldable pub split_n : ℕ → ℕ → String → List String
split_n zero sep s = []
split_n (suc zero) sep s = s ∷ []
split_n (suc (suc n)) sep s = elim (cut sep s) [
  | none ↦ s ∷ []
  | some parts ↦ parts.0 ∷ split_n (suc n) sep parts.1
]

abbrev pub is_zero : ℤ → Bool
is_zero (pos zero) = true
is_zero _ = false

-- The query of ip2c: the address as a number.
unfoldable pub ip2c_query : Ip → List (String × String)
unfolding itoa be_uint32
ip2c_query ip4 = ("dec", itoa (be_uint32 ip4)) ∷ []

module _ (c : WebCodec) where
  abbrev country_of : String → ℕ
  country_of s = alpha2_to_country_code c.upper c.tables s

  -- The `switch` on the chunks.
  abbrev pub ip2c_chunks : String → List String → Result ProviderLookupResult
  ip2c_chunks body (detected ∷ code ∷ rest ∷ []) =
      if not (detected == "1")
      then err (message (text ("ip2c cannot detect region: " ∷ body ∷ [])))
      else ok (record { country_code = country_of code; city = "" })
  ip2c_chunks body chunks = err (message (text ("incorrect response: " ∷ body ∷ [])))

  unfoldable pub parse_ip2c : ℕ → Result ProviderLookupResult
  unfolding split_n cut
  parse_ip2c b = do
    body ← context "cannot read response body" (c.read_all b)
    ip2c_chunks body (split_n 3 59 body)

  -- `buildURL` of each provider.
  abbrev pub ip2c_url : Ip → String
  ip2c_url ip4 =
      c.url_string
        (record { scheme = "https"; host = "ip2c.org"; path = ""; query = ip2c_query ip4 })

  abbrev pub ip2c_request : Ip → WebRequest
  ip2c_request ip4 = record { url = ip2c_url ip4; headers = [] }

  unfoldable pub lookup_ip2c : Client → Ip → Looked
  unfolding to4 parse_ip2c
  lookup_ip2c client ip = elim (to4 ip) [
    | none ↦ (err (message (text ("incorrect ipv4 " ∷ c.ip_string ip ∷ []))), [])
    | some ip4 ↦ exchange client (ip2c_request ip4) parse_ip2c
  ]

  unfoldable pub parse_ipinfo : ℕ → Result ProviderLookupResult
  parse_ipinfo b = do
    r ← context "cannot parse a response" (c.decode_ipinfo b)
    ok (record { country_code = country_of r.country; city = r.city })

  abbrev pub ipinfo_url : Ip → String
  ipinfo_url ip =
      c.url_string
        (record { scheme = "https"; host = "ipinfo.io"; path = c.ip_string ip; query = [] })

  unfoldable pub ipinfo_request : (auth_token : String) → Ip → WebRequest
  ipinfo_request token ip = record {
    url = ipinfo_url ip;
    headers =
        ("Accept", "application/json")
        ∷ (if not (token == "") then ("Authorization", text ("Bearer " ∷ token ∷ [])) ∷ [] else []);
  }

  unfoldable pub lookup_ipinfo : (auth_token : String) → Client → Ip → Looked
  unfolding parse_ipinfo ipinfo_request
  lookup_ipinfo token client ip = exchange client (ipinfo_request token ip) parse_ipinfo

  abbrev failed_response : IpstackResponse → Err
  failed_response r = message (
      text (
        "failed response: code="
        ∷ c.int_string r.error_code
        ∷ ", type="
        ∷ r.error_type
        ∷ ", info="
        ∷ r.error_info
        ∷ []))

  abbrev pub ipstack_answer : IpstackResponse → Result ProviderLookupResult
  ipstack_answer r =
      if not (is_zero r.error_code)
      then err (failed_response r)
      else ok (record { country_code = country_of r.country; city = r.city })

  unfoldable pub parse_ipstack : ℕ → Result ProviderLookupResult
  parse_ipstack b = do r ← context "cannot parse a response" (c.decode_ipstack b); ipstack_answer r

  abbrev pub ipstack_url : (auth_token http_scheme : String) → Ip → String
  ipstack_url token scheme ip = c.url_string (record {
    scheme = scheme;
    host = "api.ipstack.com";
    path = c.ip_string ip;
    query =
        ("access_key", token)
        ∷ ("output", "json")
        ∷ ("fields", "country_code,city")
        ∷ ("language", "en")
        ∷ ("hostname", "0")
        ∷ ("security", "0")
        ∷ [];
  })

  unfoldable pub ipstack_request : (auth_token http_scheme : String) → Ip → WebRequest
  ipstack_request token scheme ip = record {
    url = ipstack_url token scheme ip;
    headers = ("Accept", "application/json") ∷ [];
  }

  unfoldable pub lookup_ipstack : (auth_token http_scheme : String) → Client → Ip → Looked
  unfolding parse_ipstack ipstack_request
  lookup_ipstack token scheme client ip =
      exchange client (ipstack_request token scheme ip) parse_ipstack
