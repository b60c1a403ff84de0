-- ===== src/Providers/Web/Answers.antt =====
-- When a Lookup of providers/ip2c.go, providers/ipinfo.go or providers/ipstack.go succeeds, and which bodies
-- it reads to the end.
use topographer.Base.{
  ℕ, ◌≡◌, ◌↔◌, refl, sym, ap, ◌∙◌, inl, inr, String, false, Bool-cases, none, some, Option-cases,
  List, [], ◌∷◌, ◌==◌, nat_eq, string_eq, arith, eq_iff,
}
use topographer.Errors.{Err, Result, Result-cases, ok, err, ok-injective}
use topographer.Structs.{Ip, ProviderLookupResult}
use topographer.Country.{alpha2_to_country_code}
use topographer.HttpClient.{Response}
use topographer.Providers.Net.{to4}
use topographer.Providers.Web.{
  WebCodec, WebRequest, Client, received, ip2c_chunks, parse_ip2c, split_n, ip2c_request,
  lookup_ip2c,
}
use topographer.Providers.Web.Chunks.{IsChunks, split_n-IsChunks}

-- The client has a response with status 200 for the request.
abbrev pub IsFetched : Client → WebRequest → Response → Type 0
IsFetched client req resp = (client req ≡ ok resp) × (resp.status_code ≡ 200)

pub not_ok : {e : Err} {r : ProviderLookupResult} → err e ≡ ok r → ⊥
not_ok h = cc

pub received-ok_iff :
    (parse : ℕ → Result ProviderLookupResult) (got : Result Response) (r : ProviderLookupResult)
    → ((received parse got).0 ≡ ok r) ↔ (
        (resp : Response) × ((got ≡ ok resp) × (resp.status_code ≡ 200)) × (parse resp.body ≡ ok r))
received-ok_iff parse (err e) r = (λ h. absurd (cc (h)), λ (resp, (g, _), _). absurd (cc (g)))
received-ok_iff parse (ok resp) r = elim (Bool-cases (resp.status_code == 200)) [
  | inl e ↦ (
    λ h. (resp, (refl, ground (arith, e)), rw e at h),
    λ (resp', (g, _), k).
        let same : resp ≡ resp' = ok-injective g in rw e (ap (λ q. parse q.body) same ∙ k),
  )
  | inr e ↦ (
    λ h. absurd (not_ok (rw e at h)),
    λ (resp', (g, s), _).
        let same : resp ≡ resp' = ok-injective g in
        absurd (not_200 e (ap (λ q. q.status_code) same ∙ s)),
  )
]
  where
    not_200 : {n : ℕ} → (n == 200) ≡ false → n ≡ 200 → ⊥
    not_200 e s = ground (arith, e, s)

-- Ip2c: the body has three parts, the first one "1".
abbrev pub IsDetected : WebCodec → Client → Ip → ProviderLookupResult → Type 0
IsDetected c client ip r =
    (ip4 : Ip) × (resp : Response) × (body : String) × (country : String) × (rest : String) × (to4
        ip
      ≡ some ip4)
    × IsFetched client (ip2c_request c ip4) resp
    × (c.read_all resp.body ≡ ok body)
    × IsChunks body "1" country rest
    × (r ≡ record { country_code = alpha2_to_country_code c.upper c.tables country; city = "" })

parse_ip2c-ok_iff :
    (c : WebCodec) (b : ℕ) (r : ProviderLookupResult)
    → (parse_ip2c c b ≡ ok r) ↔ (
        (body : String) × (country : String) × (rest : String) × (c.read_all b ≡ ok body)
        × IsChunks body "1" country rest
        × (r
            ≡ record { country_code = alpha2_to_country_code c.upper c.tables country; city = "" }))
unfolding parse_ip2c
parse_ip2c-ok_iff c b r = (
  forwards c b r,
  λ (body, country, rest, e, chunks, q).
      rw (e, (split_n-IsChunks body "1" country rest).1 chunks) (ap ok (sym q)),
)
  where
    chunks_ok :
        (c : WebCodec) (body : String) (chunks : List String) (r : ProviderLookupResult)
        → ip2c_chunks c body chunks ≡ ok r
        → (country : String) × (rest : String) × (chunks ≡ "1" ∷ country ∷ rest ∷ [])
          × (r ≡ record {
            country_code = alpha2_to_country_code c.upper c.tables country;
            city = "";
          })
    chunks_ok c body [] r h = cc
    chunks_ok c body (a ∷ []) r h = cc
    chunks_ok c body (a ∷ b ∷ []) r h = cc
    chunks_ok c body (a ∷ b ∷ d ∷ []) r h = elim (Bool-cases (a == "1")) [
      | inl e ↦
          (b, d, ap (λ a. a ∷ b ∷ d ∷ []) ((eq_iff a "1").0 e), sym (ok-injective (rw e at h)))
      | inr e ↦ absurd (not_ok (rw e at h))
    ]
    chunks_ok c body (a ∷ b ∷ d ∷ e ∷ es) r h = cc

    forwards :
        (c : WebCodec) (b : ℕ) (r : ProviderLookupResult)
        → parse_ip2c c b ≡ ok r
        → (body : String) × (country : String) × (rest : String) × (c.read_all b ≡ ok body)
          × IsChunks body "1" country rest
          × (r ≡ record {
            country_code = alpha2_to_country_code c.upper c.tables country;
            city = "";
          })
    forwards c b r h = elim (Result-cases (c.read_all b)) [
      | inr (e, f) ↦ absurd (not_ok (rw (parse_ip2c, f) at h))
      | inl (body, f) ↦
          let (country, rest, e, q) =
            chunks_ok c body (split_n 3 59 body) r (rw (parse_ip2c, f) at h) in
          (body, country, rest, f, (split_n-IsChunks body "1" country rest).0 e, q)
    ]

-- A lookup of ip2c gives a result exactly when the address has a 4-byte form, the client has a response
-- with status 200 for its request, and the body is "1", a country code and a rest with semicolons between
-- them, where the code has none; the result is then the country of that code, without a city.
pub lookup_ip2c-ok_iff :
    (c : WebCodec) (client : Client) (ip : Ip) (r : ProviderLookupResult)
    → ((lookup_ip2c c client ip).0 ≡ ok r) ↔ IsDetected c client ip r
unfolding lookup_ip2c
lookup_ip2c-ok_iff c client ip r = elim (Option-cases (to4 ip)) [
  | inl e ↦ (
    λ h. absurd (not_ok (rw (lookup_ip2c, e) at h)),
    λ (ip4, _, _, _, _, f, _, _, _, _). absurd (not_some (sym e ∙ f)),
  )
  | inr (ip4, e) ↦ (
    λ h.
        let (resp, fetched, k) =
          (received-ok_iff (parse_ip2c c) (client (ip2c_request c ip4)) r).0
            (rw (lookup_ip2c, e) at h) in
        let (body, country, rest, read, chunks, q) = (parse_ip2c-ok_iff c resp.body r).0 k in
        (ip4, resp, body, country, rest, e, fetched, read, chunks, q),
    λ (ip4', resp, body, country, rest, f, fetched, read, chunks, q).
        let k = (parse_ip2c-ok_iff c resp.body r).1 (body, country, rest, read, chunks, q) in
        rw (f, lookup_ip2c)
          ((received-ok_iff (parse_ip2c c) (client (ip2c_request c ip4')) r).1 (resp, fetched, k)),
  )
]
  where
    not_some : {x : Ip} → none ≡ some x → ⊥
    not_some h = cc
