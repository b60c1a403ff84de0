-- ===== src/Providers/Web/Lookups.antt =====
-- When a Lookup of the web services of providers/ succeeds, and which bodies it reads to the end.
use mathlib.Core.Option
use topographer.Base.{
  ℕ, ◌≡◌, ◌↔◌, refl, sym, ap, inl, inr, String, true, Bool-cases, Option, none, some, Option-cases,
  List, [], ◌∷◌, nat_eq, string_eq,
}
use topographer.Errors.{Result, Result-cases, ok, err, ok-injective}
use topographer.Structs.{Ip, ProviderLookupResult}
use topographer.Country.{alpha2_to_country_code}
use topographer.HttpClient.{Response}
use topographer.Providers.Net.{to4}
use topographer.Providers.Web.{
  WebCodec, WebRequest, Client, IpinfoResponse, IpstackResponse, received, exchange, parse_ip2c,
  ip2c_request, lookup_ip2c, parse_ipinfo, ipinfo_request, lookup_ipinfo, parse_ipstack,
  ipstack_request, lookup_ipstack, is_zero,
}
use topographer.Providers.Web.Answers.{
  IsFetched, IsDetected, not_ok, received-ok_iff, lookup_ip2c-ok_iff,
}

parse_ipinfo-ok_iff :
    (c : WebCodec) (b : ℕ) (r : ProviderLookupResult)
    → (parse_ipinfo c b ≡ ok r) ↔ (
        (x : IpinfoResponse) × (c.decode_ipinfo b ≡ ok x)
        × (r ≡ record {
          country_code = alpha2_to_country_code c.upper c.tables x.country;
          city = x.city;
        }))
unfolding parse_ipinfo
parse_ipinfo-ok_iff c b r = (
  λ h. elim (Result-cases (c.decode_ipinfo b)) [
    | inr (e, f) ↦ absurd (not_ok (rw (parse_ipinfo, f) at h))
    | inl (x, f) ↦ (x, f, sym (ok-injective (rw (parse_ipinfo, f) at h)))
  ],
  λ (x, f, q). rw (parse_ipinfo, f) (ap ok (sym q)),
)

parse_ipstack-ok_iff :
    (c : WebCodec) (b : ℕ) (r : ProviderLookupResult)
    → (parse_ipstack c b ≡ ok r) ↔ (
        (x : IpstackResponse) × (c.decode_ipstack b ≡ ok x)
        × (is_zero x.error_code ≡ true)
        × (r ≡ record {
          country_code = alpha2_to_country_code c.upper c.tables x.country;
          city = x.city;
        }))
unfolding parse_ipstack
parse_ipstack-ok_iff c b r = (
  λ h. elim (Result-cases (c.decode_ipstack b)) [
    | inr (e, f) ↦ absurd (not_ok (rw (parse_ipstack, f) at h))
    | inl (x, f) ↦ elim (Bool-cases (is_zero x.error_code)) [
      | inl z ↦ (x, f, z, sym (ok-injective (rw (parse_ipstack, f, z) at h)))
      | inr z ↦ absurd (not_ok (rw (parse_ipstack, f, z) at h))
    ]
  ],
  λ (x, f, z, q). rw (parse_ipstack, f, z) (ap ok (sym q)),
)

-- Ipinfo and ipstack: the body decodes, and ipstack's has no error.
abbrev pub IsIpinfo : WebCodec → Client → String → Ip → ProviderLookupResult → Type 0
IsIpinfo c client token ip r =
    (resp : Response) × IsFetched client (ipinfo_request c token ip) resp
    × ((x : IpinfoResponse) × (c.decode_ipinfo resp.body ≡ ok x)
        × (r ≡ record {
          country_code = alpha2_to_country_code c.upper c.tables x.country;
          city = x.city;
        }))

abbrev pub IsIpstack :
    WebCodec → Client → (auth_token http_scheme : String) → Ip → ProviderLookupResult → Type 0
IsIpstack c client token scheme ip r =
    (resp : Response) × IsFetched client (ipstack_request c token scheme ip) resp
    × ((x : IpstackResponse) × (c.decode_ipstack resp.body ≡ ok x)
        × (is_zero x.error_code ≡ true)
        × (r ≡ record {
          country_code = alpha2_to_country_code c.upper c.tables x.country;
          city = x.city;
        }))

-- Each web service gives a result exactly when the client has a response with status 200 for its request and
-- the body says so, and then it gives the country of the code in the body, and the city that ipinfo and
-- ipstack have there. For ip2c the address has a 4-byte form, and the body is "1", a code and a rest with
-- semicolons between them, the code having none; for ipinfo the body decodes; for ipstack it does, and the code
-- of its error is zero.
pub lookup-ok_iff :
    (c : WebCodec) (client : Client) (token scheme : String) (ip : Ip) (r : ProviderLookupResult)
    → (((lookup_ip2c c client ip).0 ≡ ok r) ↔ IsDetected c client ip r)
      × (((lookup_ipinfo c token client ip).0 ≡ ok r) ↔ IsIpinfo c client token ip r)
      × (((lookup_ipstack c token scheme client ip).0 ≡ ok r)
          ↔ IsIpstack c client token scheme ip r)
unfolding lookup_ipinfo lookup_ipstack
lookup-ok_iff c client token scheme ip r = (
  lookup_ip2c-ok_iff c client ip r,
  fetched_iff (parse_ipinfo c) _ client (ipinfo_request c token ip) r
      (λ b. parse_ipinfo-ok_iff c b r),
  fetched_iff (parse_ipstack c) _ client (ipstack_request c token scheme ip) r
      (λ b. parse_ipstack-ok_iff c b r),
)
  where
    fetched_iff :
        (parse : ℕ → Result ProviderLookupResult) (P : ℕ → Type 0) (client : Client)
        (req : WebRequest) (r : ProviderLookupResult)
        → ((b : ℕ) → (parse b ≡ ok r) ↔ P b)
        → ((exchange client req parse).0 ≡ ok r)
          ↔ ((resp : Response) × IsFetched client req resp × P resp.body)
    fetched_iff parse P client req r h = (
      λ k.
          let (resp, fetched, q) = (received-ok_iff parse (client req) r).0 k in
          (resp, fetched, (h resp.body).0 q),
      λ (resp, fetched, q).
          (received-ok_iff parse (client req) r).1 (resp, fetched, (h resp.body).1 q),
    )

abbrev of_response : Result Response → List ℕ
of_response (ok resp) = resp.body ∷ []
of_response (err e) = []

-- The bodies of the responses to at most one request.
abbrev bodies : Client → Option WebRequest → List ℕ
bodies client none = []
bodies client (some req) = of_response (client req)

received-bodies :
    (parse : ℕ → Result ProviderLookupResult) (got : Result Response)
    → (received parse got).1 ≡ of_response got
received-bodies parse (ok resp) = refl
received-bodies parse (err e) = refl

-- A lookup of ip2c, ipinfo or ipstack reads to the end and closes the body of its response, whatever the
-- status and whether or not it can be parsed, and no other body; without a response there is nothing to
-- close, and ip2c sends no request for an address without a 4-byte form.
lookup-flushes :
    (c : WebCodec) (client : Client) (token scheme : String) (ip : Ip)
    → ((lookup_ip2c c client ip).1 ≡ bodies client (Option.map (ip2c_request c) (to4 ip)))
      × ((lookup_ipinfo c token client ip).1 ≡ bodies client (some (ipinfo_request c token ip)))
      × ((lookup_ipstack c token scheme client ip).1
          ≡ bodies client (some (ipstack_request c token scheme ip)))
unfolding lookup_ip2c lookup_ipinfo lookup_ipstack
lookup-flushes c client token scheme ip = (
  elim (Option-cases (to4 ip)) [
    | inl e ↦ rw (e, lookup_ip2c) refl
    | inr (ip4, e) ↦
        rw (e, lookup_ip2c) (received-bodies (parse_ip2c c) (client (ip2c_request c ip4)))
  ],
  received-bodies (parse_ipinfo c) (client (ipinfo_request c token ip)),
  received-bodies (parse_ipstack c) (client (ipstack_request c token scheme ip)),
)
