-- ===== src/Program.antt =====
-- main.go: from the path of a configuration to the server that is run. What the server does until a
-- signal comes, and after it, is that of package net/http.
pub mod Guarded
mod Samples
use Prim.Native.String
use topographer.Base.{String, Option, none, some, List, map, ◌==◌, string_eq, if◌then◌else◌}
use topographer.Base.Time.{Duration, pos}
use topographer.Errors.{Err, message, wrap, Result, ok, err, ◌>>=◌, context}
use topographer.Config.{Config, ConfigCodec, parse_config, get_root_directory, has_basic_auth}
use topographer.Topographer.{Provider, Starter, Topographer, new_topographer}
use topographer.Wiring.{
  ProviderStruct, System, make_providers, BasicAuth, AuthReply, passed_on, serve_auth,
}

-- What surrounds the program: the files, what it uses of other packages, the methods of a provider,
-- newFsUpdater, and the error of net.Listen.
pub record Surroundings : Type 0 where
  pub codec : ConfigCodec
  pub sys : System
  pub read_file : String → Result String
  pub methods : ProviderStruct → Provider
  pub new_fs_updater : Starter
  pub listen : String → Option Err

-- http.Server with its handler: the Topographer, behind the middleware if there is one.
pub record Server : Type 0 where
  pub address : String
  pub read_timeout : Duration
  pub write_timeout : Duration
  pub topographer : Topographer
  pub middleware : Option BasicAuth

abbrev need_config_path : Err
need_config_path = message "need to set a config path"

abbrev pub or_failed : {A : Type 0} → A → Option Err → Result A
or_failed a none = ok a
or_failed a (some e) = err e

-- What the server's handler does first: the middleware lets a request pass or answers it.
unfoldable pub serve_guarded : Server → (credentials : String × String) → AuthReply
unfolding serve_auth
serve_guarded s credentials = elim s.middleware [
  | none ↦ passed_on
  | some b ↦ serve_auth b credentials
]

unfoldable pub middleware_of : Config → Option BasicAuth
unfolding has_basic_auth
middleware_of conf =
    if has_basic_auth conf
    then some (record { user = conf.basic_auth_user; password = conf.basic_auth_password })
    else none

abbrev pub new_server : Config → Topographer → Server
new_server conf topo = record {
  address = conf.listen;
  read_timeout = pos 10000000000;
  write_timeout = pos 10000000000;
  topographer = topo;
  middleware = middleware_of conf;
}

module _ (s : Surroundings) where
  -- The topographer of the configuration.
  unfoldable pub build : Config → Result Topographer
  unfolding get_root_directory make_providers new_topographer
  build conf = do
    let root = get_root_directory s.sys.temporary conf
    _ ←
        context (String.◌++◌ "cannot create root directory " root)
          (or_failed root (s.sys.mkdir_all root))
    providers ← context "cannot initialise a list of providers" (make_providers s.sys conf)
    let made = new_topographer s.new_fs_updater (map s.methods providers)
    context "cannot initialize topographer" (or_failed made.0 made.1)

  -- `mainFunc` after the configuration was read.
  unfoldable pub serve_config : Result Config → Result Server
  unfolding build middleware_of
  serve_config parsed = do
    conf ← context "cannot read config" parsed
    topo ← build conf
    _ ← context "cannot start listener" (or_failed conf (s.listen conf.listen))
    ok (new_server conf topo)

  -- `mainFunc` up to the serving: the server that is run, or the error.
  unfoldable pub main_func : (config_path : String) → Result Server
  unfolding parse_config serve_config
  main_func config_path =
      if config_path == ""
      then err need_config_path
      else serve_config (parse_config s.codec (s.read_file config_path))
