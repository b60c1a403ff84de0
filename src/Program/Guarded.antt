-- ===== src/Program/Guarded.antt =====
-- The server of main.go against the configuration that it is run with.
use topographer.Base.{
  ◌≡◌, ◌≢◌, ◌↔◌, refl, sym, subst, ◌∙◌, ◌⊎◌, inl, inr, String, true, Bool-cases, not, ◌||◌, Option,
  none, some, List, map, IsDistinct, ◌==◌, string_eq, eq_iff, arith,
}
use topographer.Errors.{Err, Result, ok, err, ok-injective, >>=-eq-ok, context}
use topographer.Config.{Config, ConfigProvider, parse_config, has_basic_auth}
use topographer.Topographer.{Topographer, new_topographer}
use topographer.Wiring.{BasicAuth, ProviderStruct, name_of, make_providers, passed_on, serve_auth}
use topographer.Wiring.Factory.{make_providers-names, serve_auth-passes}
use topographer.Program.{
  Surroundings, Server, or_failed, serve_guarded, middleware_of, build, new_server, serve_config,
  main_func,
}

context-eq-ok :
    {A : Type 0} (text : String) (r : Result A) (a : A) → context text r ≡ ok a → r ≡ ok a
context-eq-ok text (ok x) a h = h
context-eq-ok text (err e) a h = cc

or_failed-eq-ok :
    {A : Type 0} (a b : A) (o : Option Err) → or_failed a o ≡ ok b → (a ≡ b) × (o ≡ none)
or_failed-eq-ok a b none h = (ok-injective h, refl)
or_failed-eq-ok a b (some e) h = cc

-- The server is built from the configuration.
abbrev pub IsBuilt : Surroundings → Config → Server → Type 0
IsBuilt s conf server =
    (ps : List ProviderStruct) × (new_topographer s.new_fs_updater (map s.methods ps)
      ≡ (server.topographer, none))
    × (map name_of ps ≡ map (λ (v : ConfigProvider). v.name) conf.providers)
    × IsDistinct (map name_of ps)

-- The server lets every request pass, without a user and a password in the configuration; or else only
-- those with both of them, and none without credentials.
abbrev pub IsGuarded : Config → Server → Type 0
IsGuarded conf server =
    ((conf.basic_auth_user ≡ "")
      × (conf.basic_auth_password ≡ "")
      × ((credentials : String × String) → serve_guarded server credentials ≡ passed_on))
    ⊎ ((serve_guarded server ("", "") ≢ passed_on)
        × ((user pass : String)
            → (serve_guarded server (user, pass) ≡ passed_on)
              ↔ ((conf.basic_auth_user ≡ user) × (conf.basic_auth_password ≡ pass))))

build-IsBuilt :
    (s : Surroundings) (content : Result String) (conf : Config) (topo : Topographer)
    → parse_config s.codec content ≡ ok conf
    → build s conf ≡ ok topo
    → (ps : List ProviderStruct) × (new_topographer s.new_fs_updater (map s.methods ps)
        ≡ (topo, none))
      × (map name_of ps ≡ map (λ (v : ConfigProvider). v.name) conf.providers)
      × IsDistinct (map name_of ps)
unfolding build
build-IsBuilt s content conf topo parsed h =
    let (_, _, h1) = >>=-eq-ok (context _ (or_failed _ (s.sys.mkdir_all _))) _ h in
    let (ps, made, h2) =
      >>=-eq-ok (context "cannot initialise a list of providers" (make_providers s.sys conf)) _
        h1 in
    let listed = context-eq-ok _ (make_providers s.sys conf) ps made in
    let (same, none_failed) =
      or_failed-eq-ok _ topo _ (context-eq-ok "cannot initialize topographer" _ topo h2) in
    let (names, distinct) = make_providers-names s.codec content conf s.sys ps parsed listed in
    (ps, pair_eq _ topo same none_failed, names, distinct)
  where
    pair_eq :
        (x : Topographer × Option Err) (t : Topographer) → x.0 ≡ t → x.1 ≡ none → x ≡ (t, none)
    pair_eq x t e f = λ i. (e i, f i)

middleware-IsGuarded :
    (conf : Config) (server : Server)
    → server.middleware ≡ middleware_of conf
    → IsGuarded conf server
unfolding serve_guarded middleware_of has_basic_auth
middleware-IsGuarded conf server same =
    elim (Bool-cases (not (conf.basic_auth_user == "") || not (conf.basic_auth_password == ""))) [
      | inr e ↦
          let none_there : server.middleware ≡ none = same ∙ rw e refl in
          inl (
            ground (arith, e, eq_iff conf.basic_auth_user ""),
            ground (arith, e, eq_iff conf.basic_auth_password ""),
            λ credentials. rw (none_there, serve_guarded) refl,
          )
      | inl e ↦
          let guard : BasicAuth = record {
            user = conf.basic_auth_user;
            password = conf.basic_auth_password;
          } in
          let there : server.middleware ≡ some guard = same ∙ rw e refl in
          let passes = serve_auth-passes guard in
          let same_reply : (c : String × String) → serve_guarded server c ≡ serve_auth guard c =
            λ c. rw (there, serve_guarded) refl in
          inr (
            λ h.
                let (no_user, no_password) = (passes "" "").0.0 (sym (same_reply ("", "")) ∙ h) in
                not_both conf.basic_auth_user conf.basic_auth_password e no_user no_password,
            λ user pass. (
              λ h. (passes user pass).0.0 (sym (same_reply (user, pass)) ∙ h),
              λ h. same_reply (user, pass) ∙ (passes user pass).0.1 h,
            ),
          )
    ]
  where
    not_both : (a b : String) → (not (a == "") || not (b == "")) ≡ true → a ≡ "" → b ≡ "" → ⊥
    not_both a b e f g = ground (arith, e, f, g, eq_iff a "", eq_iff b "")

serve_config-IsGuarded :
    (s : Surroundings) (content : Result String) (server : Server)
    → serve_config s (parse_config s.codec content) ≡ ok server
    → (conf : Config) × (parse_config s.codec content ≡ ok conf)
      × IsBuilt s conf server
      × IsGuarded conf server
unfolding serve_config
serve_config-IsGuarded s content served h =
    let (conf, read, h1) =
      >>=-eq-ok (context "cannot read config" (parse_config s.codec content)) _ h in
    let parsed = context-eq-ok _ (parse_config s.codec content) conf read in
    let (topo, built, h2) = >>=-eq-ok (build s conf) _ h1 in
    let (_, _, h3) =
      >>=-eq-ok (context "cannot start listener" (or_failed conf (s.listen conf.listen))) _ h2 in
    let same : new_server conf topo ≡ served = ok-injective h3 in
    (
      conf,
      parsed,
      subst (IsBuilt s conf) same (build-IsBuilt s content conf topo parsed built),
      subst (IsGuarded conf) same (middleware-IsGuarded conf (new_server conf topo) refl),
    )

-- If the program gets as far as serving, then its configuration was parsed; the topographer of the server is
-- made without an error from providers that bear the names of the configuration in its order, no two the
-- same; and if neither a user nor a password is configured, every request passes to the topographer, or else
-- exactly those with both of them, and none without credentials.
pub main_func-IsGuarded :
    (s : Surroundings) (config_path : String) (server : Server)
    → main_func s config_path ≡ ok server
    → (conf : Config) × (parse_config s.codec (s.read_file config_path) ≡ ok conf)
      × IsBuilt s conf server
      × IsGuarded conf server
unfolding main_func
main_func-IsGuarded s config_path server h = elim (Bool-cases (config_path == "")) [
  | inl e ↦ absurd (not_ok (rw (main_func, e) at h))
  | inr e ↦ serve_config-IsGuarded s (s.read_file config_path) server (rw (main_func, e) at h)
]
  where
    not_ok : {e : Err} {x : Server} → err e ≡ ok x → ⊥
    not_ok h = cc
