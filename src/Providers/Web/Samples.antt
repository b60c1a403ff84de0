-- ===== src/Providers/Web/Samples.antt =====
-- The web services of providers/ip2c.go, providers/ipinfo.go and providers/ipstack.go with a client that
-- answers each request with one body.
use topographer.Base.{String, ◌≡◌, refl, ◌↔◌, [], ◌∷◌, arith}
use topographer.Base.Time.{pos}
use topographer.Errors.{ok}
use topographer.Structs.{Ip, ProviderLookupResult}
use topographer.Base.Assoc.{lookup}
use topographer.Country.{alpha2_to_country_code, normalize_alpha2_code, to_upper, map_alpha2}
use topographer.HttpClient.{Response}
use topographer.Providers.Net.{to4, be_uint32}
use topographer.Providers.Decimal.{itoa}
use topographer.Providers.Web.{
  WebCodec, Client, lookup_ip2c, ip2c_query, lookup_ipinfo, lookup_ipstack, parse_ip2c, split_n,
  cut,
}
use topographer.Providers.Web.Answers.{IsDetected}
use topographer.Providers.Web.Lookups.{IsIpinfo, IsIpstack, lookup-ok_iff}
use topographer.Providers.Web.Address.{IsNumberOf, ip2c_query-IsNumberOf}

abbrev web_codec : WebCodec
web_codec = record {
  url_string = λ u. u.host;
  ip_string = λ ip. "5.0.0.1";
  int_string = λ n. "0";
  read_all = λ b. ok "1;DE;DEU;Germany";
  decode_ipinfo = λ b. ok (record { city = "Berlin"; country = "DE" });
  decode_ipstack = λ b. ok (record {
    error_code = pos 0;
    error_type = "";
    error_info = "";
    city = "Berlin";
    country = "DE";
  });
  upper = λ c. c;
  tables = record { cc2string = "" ∷ "DE" ∷ []; string2cc = ("", 0) ∷ ("DE", 1) ∷ [] };
}

abbrev good : Response
good = record { status_code = 200; status = "200 OK"; body = 7 }

abbrev client : Client
client req = ok good

abbrev here : Ip
here = 5 ∷ 0 ∷ 0 ∷ 1 ∷ []

abbrev germany : ProviderLookupResult
germany = record { country_code = 1; city = "" }

web_runs : lookup_ip2c web_codec client here ≡ (ok germany, 7 ∷ [])
unfolding lookup_ip2c to4 parse_ip2c split_n cut alpha2_to_country_code lookup normalize_alpha2_code
    to_upper map_alpha2
web_runs = refl

number_runs : itoa (be_uint32 here) ≡ "83886081"
unfolding itoa be_uint32
number_runs = refl

lookup-ok_iff_example :
    (((lookup_ip2c web_codec client here).0 ≡ ok germany)
      ↔ IsDetected web_codec client here germany)
    × (((lookup_ipinfo web_codec "token" client here).0 ≡ ok germany)
        ↔ IsIpinfo web_codec client "token" here germany)
    × (((lookup_ipstack web_codec "token" "https" client here).0 ≡ ok germany)
        ↔ IsIpstack web_codec client "token" "https" here germany)
lookup-ok_iff_example = lookup-ok_iff web_codec client "token" "https" here germany

ip2c_query-IsNumberOf_example :
    (s : String) × (ip2c_query here ≡ ("dec", s) ∷ []) × IsNumberOf s here
unfolding to4
ip2c_query-IsNumberOf_example =
    ip2c_query-IsNumberOf here here
      (ground arith, (ground arith, (ground arith, (ground arith, tt)))) refl
