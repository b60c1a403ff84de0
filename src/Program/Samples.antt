-- ===== src/Program/Samples.antt =====
-- main.go with a configuration of two web services and a password.
use topographer.Base.{◌≡◌, refl, false, none, List, [], ◌∷◌, map, string_eq, nat_eq}
use topographer.Base.Assoc.{lookup, insert}
use topographer.Errors.{message, Result, ok, err}
use topographer.Config.{
  Config, ConfigCodec, get_directory, get_root_directory, see, see_all, parse_config,
  has_basic_auth, get_specific_parameters,
}
use topographer.Config.Samples.{provider, config, codec}
use topographer.Topographer.{Provider, Topographer, new_topographer, register_all}
use topographer.Wiring.{
  ProviderStruct, name_of, System, make_providers, make_all, make_provider, passed_on, challenged,
  serve_auth,
}
use topographer.Program.{
  Surroundings, Server, new_server, middleware_of, serve_guarded, build, serve_config, main_func,
}
use topographer.Program.Guarded.{IsBuilt, IsGuarded, main_func-IsGuarded}

abbrev guarded_config : Config
guarded_config = record (config (provider "ipinfo" "" ∷ provider "ip2c" "d" ∷ [])) {
  root_directory = "/tmp/topographer";
  basic_auth_user = "admin";
  basic_auth_password = "secret";
}

abbrev guarded_codec : ConfigCodec
guarded_codec = record codec { decode = λ s. ok guarded_config }

abbrev no_system : System
no_system = record {
  temporary = "/tmp/topographer";
  mkdir_all = λ d. none;
  join = λ a b. b;
  clean = λ s. s;
  to_lower = λ s. s;
  version = "dev";
}

abbrev method_table : ProviderStruct → Provider
unfolding name_of
method_table p = record {
  name = name_of p;
  is_offline = false;
  lookup = λ ip. err (message "none");
}

abbrev surroundings : Surroundings
surroundings = record {
  codec = guarded_codec;
  sys = no_system;
  read_file = λ path. ok "good";
  methods = method_table;
  new_fs_updater = λ p stats. (ok p, stats);
  listen = λ address. none;
}

abbrev made_of : Result (List ProviderStruct) → Topographer
unfolding new_topographer
made_of (ok ps) = (new_topographer (λ p stats. (ok p, stats)) (map method_table ps)).0
made_of (err e) = (new_topographer (λ p stats. (ok p, stats)) []).0

abbrev running : Server
unfolding made_of make_providers middleware_of
running = new_server guarded_config (made_of (make_providers no_system guarded_config))

main_runs : main_func surroundings "config.hjson" ≡ ok running
unfolding main_func serve_config build parse_config get_root_directory see_all see get_directory
    insert lookup make_providers make_all make_provider new_topographer register_all name_of
    middleware_of has_basic_auth get_specific_parameters running made_of method_table
main_runs = refl

guard_runs :
    (serve_guarded running ("admin", "secret") ≡ passed_on)
    × (serve_guarded running ("", "")
        ≡ challenged "Basic realm=\"Restricted\"" "Authentication is required" 401)
unfolding running serve_guarded middleware_of has_basic_auth serve_auth
guard_runs = (refl, refl)

main_func-IsGuarded_example :
    (conf : Config) × (parse_config guarded_codec (ok "good") ≡ ok conf)
    × IsBuilt surroundings conf running
    × IsGuarded conf running
main_func-IsGuarded_example = main_func-IsGuarded surroundings "config.hjson" running main_runs
