-- ===== src/Config/Samples.antt =====
-- Configurations of config.go, small ones.
use topographer.Base.{String, ◌≡◌, refl, ◌↔◌, some, List, [], ◌∷◌, ◌==◌, string_eq, if◌then◌else◌}
use topographer.Base.Time.{pos, negsuc}
use topographer.Base.Assoc.{lookup, insert}
use topographer.Errors.{message, ok, err}
use topographer.Config.{
  ConfigProvider, Config, to_int, get_directory, get_root_directory, get_http_timeout,
  get_rate_limit_burst, get_worker_pool_size, see, see_all, ConfigCodec, parse_config,
}
use topographer.Config.Duplicates.{IsParsed, parse_config-IsParsed}

abbrev pub provider : String → String → ConfigProvider
provider name directory = record {
  name = name;
  directory = directory;
  rate_limit_interval = pos 0;
  rate_limit_burst = 0;
  circuit_breaker_open_threshold = 0;
  circuit_breaker_half_open_timeout = pos 0;
  circuit_breaker_reset_failures_timeout = pos 0;
  update_every = pos 0;
  http_timeout = pos 7;
  specific_parameters = some (("auth_token", "secret") ∷ []);
}

abbrev pub config : List ConfigProvider → Config
config providers = record {
  listen = ":8000";
  root_directory = "";
  worker_pool_size = 18446744073709551615;
  basic_auth_user = "";
  basic_auth_password = "";
  providers = providers;
}

-- The text "same" stands for two providers with one directory.
abbrev pub codec : ConfigCodec
codec = record {
  temporary = "/tmp/topographer";
  decode = λ s.
      if s == "same"
      then ok (config (provider "ip2c" "d" ∷ provider "ipinfo" "d" ∷ []))
      else ok (config (provider "ipinfo" "" ∷ provider "ip2c" "d" ∷ []));
  split_host_port = λ s. ok tt;
  abs = λ s. ok s;
}

abbrev pub parsed : Config
parsed = record (config (provider "ipinfo" "" ∷ provider "ip2c" "d" ∷ [])) {
  root_directory = "/tmp/topographer";
}

pub program : Unit {0}
unfolding parse_config get_root_directory see_all see get_directory lookup insert to_int
    get_worker_pool_size get_http_timeout get_rate_limit_burst
program = tt

pub parse_runs : parse_config codec (ok "good") ≡ ok parsed
unfolding program
parse_runs = refl

parse_tests :
    (parse_config codec (ok "same") ≡ err (message "Directory d is duplicated"))
    × (get_http_timeout (provider "ip2c" "") ≡ pos 7)
    × (get_rate_limit_burst (provider "ip2c" "") ≡ pos 10)
    × (get_worker_pool_size parsed ≡ negsuc 0)
unfolding program
parse_tests = (refl, refl, refl, refl)

parse_config-IsParsed_example :
    (parse_config codec (ok "good") ≡ ok parsed) ↔ IsParsed codec (ok "good") parsed
parse_config-IsParsed_example = parse_config-IsParsed codec (ok "good") parsed
