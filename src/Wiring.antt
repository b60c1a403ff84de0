-- ===== src/Wiring.antt =====
-- utils.go, middleware_basic_auth.go and the constructors of providers/: from the configuration to
-- the providers and the guarded handler.
pub mod Factory
mod Samples
use topographer.Base.{
  ℕ, ◌+◌, String, Bool, true, false, Option, none, some, List, [], ◌∷◌, map, not, ◌||◌, ◌==◌,
  nat_eq, string_eq, if◌then◌else◌,
}
use Prim.Native.String
use topographer.Base.Time.{ℤ, Duration}
use topographer.Base.Assoc.{lookup}
use topographer.Errors.{Err, message, Result, ok, err, ◌>>=◌, context}
use topographer.HttpClient.{HttpClient, new_http_client}
use topographer.Config.{
  Config, ConfigProvider, get_directory, get_root_directory, get_rate_limit_interval,
  get_rate_limit_burst, get_circuit_breaker_open_threshold, get_circuit_breaker_half_open_timeout,
  get_circuit_breaker_reset_failures_timeout, get_update_every, get_http_timeout,
  get_specific_parameters,
}

-- providers/names.go.
abbrev name_dbip_lite : String
name_dbip_lite = "dbip_lite"

abbrev name_ip2c : String
name_ip2c = "ip2c"

abbrev name_ip2location : String
name_ip2location = "ip2location_lite"

abbrev name_ipinfo : String
name_ipinfo = "ipinfo"

abbrev name_ipstack : String
name_ipstack = "ipstack"

abbrev name_maxmind_lite : String
name_maxmind_lite = "maxmind_lite"

abbrev name_software77 : String
name_software77 = "software77"

-- The structs of the providers, as their constructors leave them.
pub data ProviderStruct : Type 0 where
  dbip_lite : HttpClient → (update_every : Duration) → (base_directory : String) → ProviderStruct
  ip2c : HttpClient → ProviderStruct
  ip2location :
      HttpClient
      → (update_every : Duration) (base_directory auth_token db_code : String) → ProviderStruct
  ipinfo : HttpClient → (auth_token : String) → ProviderStruct
  ipstack : HttpClient → (auth_token http_scheme : String) → ProviderStruct
  maxmind_lite :
      HttpClient → (update_every : Duration) (base_directory license_key : String) → ProviderStruct
  software77 : HttpClient → (update_every : Duration) → (base_directory : String) → ProviderStruct

-- The methods `Name`.
unfoldable pub name_of : ProviderStruct → String
name_of (dbip_lite _ _ _) = name_dbip_lite
name_of (ip2c _) = name_ip2c
name_of (ip2location _ _ _ _ _) = name_ip2location
name_of (ipinfo _ _) = name_ipinfo
name_of (ipstack _ _ _) = name_ipstack
name_of (maxmind_lite _ _ _ _) = name_maxmind_lite
name_of (software77 _ _ _) = name_software77

abbrev auth_token_is_required : Err
auth_token_is_required = message "auth token is required"

unfoldable pub new_ip2location :
    HttpClient → Duration → String → String → String → Result ProviderStruct
new_ip2location client every base token code =
    if token == ""
    then err auth_token_is_required
    else ok (ip2location client every base token (if code == "" then "DB3LITEBINIPV6" else code))

unfoldable pub new_ipstack : HttpClient → String → Bool → Result ProviderStruct
new_ipstack client token is_secure =
    if token == ""
    then err auth_token_is_required
    else ok (ipstack client token (if is_secure then "https" else "http"))

-- What other packages do: os.MkdirAll, filepath.Join and filepath.Clean, strings.ToLower, os.TempDir (as
-- in the configuration); and the version of the build.
pub record System : Type 0 where
  pub temporary : String
  pub mkdir_all : String → Option Err
  pub join : String → String → String
  pub clean : String → String
  pub to_lower : String → String
  pub version : String

unfoldable pub new_dbip_lite : System → HttpClient → Duration → String → ProviderStruct
new_dbip_lite sys client every base = dbip_lite client every (sys.clean base)

unfoldable pub new_maxmind_lite :
    System → HttpClient → Duration → String → String → Result ProviderStruct
new_maxmind_lite sys client every base key =
    if key == ""
    then err auth_token_is_required
    else ok (maxmind_lite client every (sys.clean base) key)

unfoldable pub make_new_http_client : System → ConfigProvider → HttpClient
make_new_http_client sys v =
    new_http_client (get_http_timeout v) (String.◌++◌ "topographer/" sys.version)
      (get_rate_limit_interval v) (get_rate_limit_burst v) (get_circuit_breaker_open_threshold v)
      (get_circuit_breaker_half_open_timeout v) (get_circuit_breaker_reset_failures_timeout v)

unfoldable pub bool_param : (String → String) → String → Bool
bool_param to_lower param =
    let s = to_lower param in s == "1" || s == "true" || s == "enabled" || s == "yes"

-- A missing parameter reads as the empty string.
abbrev param : String → ConfigProvider → String
param key v = elim (lookup key (get_specific_parameters v)) [ none ↦ "" | some s ↦ s ]

module _ (sys : System) (conf : Config) where
  unfoldable pub base_directory : ConfigProvider → String
  base_directory v = sys.join (get_root_directory sys.temporary conf) (get_directory v)

  unfoldable pub ensure_dir : ConfigProvider → Result String
  unfolding base_directory
  ensure_dir v = elim (sys.mkdir_all (base_directory v)) [
    | some e ↦ context "cannot create base directory for dbip provider" (err e)
    | none ↦ ok (base_directory v)
  ]

  -- The `switch` of makeProviders.
  unfoldable pub make_provider : ConfigProvider → Result ProviderStruct
  unfolding ensure_dir new_dbip_lite new_ip2location new_ipstack new_maxmind_lite
  make_provider v =
      let client = make_new_http_client sys v in
      if v.name == name_dbip_lite
      then (do
        base ← context "cannot create base directory for dbip provider" (ensure_dir v)
        ok (new_dbip_lite sys client (get_update_every v) base))
      else if v.name == name_ip2c
      then ok (ip2c client)
      else if v.name == name_ip2location
      then (do
        base ← context "cannot create base directory for ip2location provider" (ensure_dir v)
        context "cannot create ip2location provider" (
            new_ip2location client (get_update_every v) base (param "auth_token" v)
              (param "db_code" v)))
      else if v.name == name_ipinfo
      then ok (ipinfo client (param "auth_token" v))
      else if v.name == name_ipstack
      then context "cannot create ipstack provider"
          (new_ipstack client (param "auth_token" v) (bool_param sys.to_lower (param "secure" v)))
      else if v.name == name_maxmind_lite
      then (do
        base ← context "cannot create base directory for maxmind provider" (ensure_dir v)
        context "cannot create ipstack provider"
            (new_maxmind_lite sys client (get_update_every v) base (param "license_key" v)))
      else if v.name == name_software77
      then (do
        base ← context "cannot create base directory for sofware77 provider" (ensure_dir v)
        ok (software77 client (get_update_every v) base))
      else err (message (String.◌++◌ "unsupported provider name: " v.name))

  unfoldable pub make_all : List ConfigProvider → Result (List ProviderStruct)
  make_all [] = ok []
  make_all (v ∷ vs) = do p ← make_provider v; ps ← make_all vs; ok (p ∷ ps)

  unfoldable pub make_providers : Result (List ProviderStruct)
  unfolding make_all
  make_providers = make_all conf.providers

-- basicAuthMiddleware: the request goes to the handler, or the answer is a challenge.
pub record BasicAuth : Type 0 where
  pub user : String
  pub password : String

pub data AuthReply : Type 0 where
  passed_on : AuthReply
  challenged : (www_authenticate text : String) (status : ℕ) → AuthReply

-- subtle.ConstantTimeCompare.
abbrev constant_time_compare : String → String → ℕ
constant_time_compare a b = if a == b then 1 else 0

-- `credentials` is what Request.BasicAuth gives: two empty strings where there are none.
unfoldable pub serve_auth : BasicAuth → (credentials : String × String) → AuthReply
serve_auth b (user, pass) =
    if constant_time_compare b.user user + constant_time_compare b.password pass == 2
    then passed_on
    else challenged "Basic realm=\"Restricted\"" "Authentication is required" 401
