-- ===== src/Wiring/Samples.antt =====
-- Providers of a small configuration, and credentials (utils.go, middleware_basic_auth.go).
use topographer.Base.{◌≡◌, refl, none, List, [], ◌∷◌, map, IsDistinct, string_eq, nat_eq}
use Prim.Native.String
use topographer.Base.Assoc.{lookup}
use topographer.Errors.{message, wrap, ok, err}
use topographer.Config.{ConfigProvider, get_specific_parameters}
use topographer.Config.Samples.{provider, config, codec, parsed, parse_runs}
use topographer.Wiring.{
  ProviderStruct, ip2c, ipinfo, name_of, System, new_ipstack, new_ip2location, new_maxmind_lite,
  new_dbip_lite, ensure_dir, make_new_http_client, make_provider, make_all, make_providers,
  serve_auth,
}
use topographer.Wiring.Factory.{make_providers-names}

abbrev sys : System
sys = record {
  temporary = "/tmp/topographer";
  mkdir_all = λ d. none;
  join = λ a b. String.◌++◌ a (String.◌++◌ "/" b);
  clean = λ s. s;
  to_lower = λ s. s;
  version = "dev";
}

abbrev made : List ProviderStruct
made =
    ipinfo (make_new_http_client sys (provider "ipinfo" "")) "secret"
    ∷ ip2c (make_new_http_client sys (provider "ip2c" "d"))
    ∷ []

program : Unit {0}
unfolding make_providers make_all make_provider ensure_dir new_ipstack new_ip2location
    new_maxmind_lite new_dbip_lite name_of lookup serve_auth get_specific_parameters
program = tt

make_runs : make_providers sys parsed ≡ ok made
unfolding program
make_runs = refl

make_tests :
    make_providers sys (config (provider "maxmind_lite" "" ∷ []))
    ≡ err (wrap "cannot create ipstack provider" (message "auth token is required"))
unfolding program
make_tests = refl

make_providers-names_example :
    (map name_of made ≡ map (λ (v : ConfigProvider). v.name) parsed.providers)
    × IsDistinct (map name_of made)
make_providers-names_example =
    make_providers-names codec (ok "good") parsed sys made parse_runs make_runs
