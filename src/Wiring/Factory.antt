-- ===== src/Wiring/Factory.antt =====
-- makeProviders of utils.go: each provider is the one that the configuration names.
use topographer.Base.{
  String, ◌≡◌, ◌≢◌, sym, ap, ap₂, ◌∙◌, ◌↔◌, List, [], ◌∷◌, map, arith, IsDistinct, string_eq,
  eq_iff,
}
use topographer.Errors.{ok-injective, Result, ok, >>=-eq-ok}
use topographer.Config.{Config, ConfigProvider, ConfigCodec, parse_config}
use topographer.Config.Duplicates.{parse_config-IsParsed}
use topographer.Wiring.{
  ProviderStruct, name_of, new_dbip_lite, new_ip2location, new_ipstack, new_maxmind_lite, System,
  ensure_dir, make_provider, make_all, make_providers, BasicAuth, passed_on, challenged, serve_auth,
}

module _ (sys : System) (conf : Config) where
  make_provider-name :
      (v : ConfigProvider) (p : ProviderStruct)
      → make_provider sys conf v ≡ ok p
      → name_of p ≡ v.name
  unfolding make_provider name_of new_dbip_lite new_ip2location new_ipstack new_maxmind_lite
      ensure_dir
  make_provider-name v p h = ground (
    arith,
    eq_iff v.name "dbip_lite",
    eq_iff v.name "ip2c",
    eq_iff v.name "ip2location_lite",
    eq_iff v.name "ipinfo",
    eq_iff v.name "ipstack",
    eq_iff v.name "maxmind_lite",
    eq_iff v.name "software77",
  )

  make_all-names :
      (vs : List ConfigProvider) (ps : List ProviderStruct)
      → make_all sys conf vs ≡ ok ps
      → map name_of ps ≡ map (λ (v : ConfigProvider). v.name) vs
  unfolding make_all
  make_all-names [] ps h = ap (map name_of) (sym (ok-injective h))
  make_all-names (v ∷ vs) ps h =
      let (p, first, h₁) = >>=-eq-ok (make_provider sys conf v) _ h in
      let (qs, rest, same) = >>=-eq-ok (make_all sys conf vs) _ h₁ in
      ap (map name_of) (sym (ok-injective same))
      ∙ ap₂ (λ x xs. x ∷ xs) (make_provider-name v p first) (make_all-names vs qs rest)

-- If the configuration is parsed and the providers are made from it, then they bear the names of the
-- configuration in its order, and no two of them bear the same name.
pub make_providers-names :
    (c : ConfigCodec) (content : Result String) (conf : Config) (sys : System)
    (ps : List ProviderStruct)
    → parse_config c content ≡ ok conf
    → make_providers sys conf ≡ ok ps
    → (map name_of ps ≡ map (λ (v : ConfigProvider). v.name) conf.providers)
      × IsDistinct (map name_of ps)
unfolding make_providers
make_providers-names c content conf sys ps parsed made =
    let names = make_all-names sys conf conf.providers ps made in
    let (_, raw, _, _, _, _, _, distinct, _, same) =
      (parse_config-IsParsed c content conf).0 parsed in
    let here : IsDistinct (map (λ (v : ConfigProvider). v.name) conf.providers) =
      rw same distinct in
    (names, rw names here)

-- The handler behind the middleware gets a request exactly if its user and its password are the
-- configured ones; any other request is answered with status 401 and a challenge.
pub serve_auth-passes :
    (b : BasicAuth) (user pass : String)
    → ((serve_auth b (user, pass) ≡ passed_on) ↔ ((b.user ≡ user) × (b.password ≡ pass)))
      × ((serve_auth b (user, pass) ≢ passed_on)
          → serve_auth b (user, pass)
            ≡ challenged "Basic realm=\"Restricted\"" "Authentication is required" 401)
unfolding serve_auth
serve_auth-passes b user pass = ground (arith, eq_iff b.user user, eq_iff b.password pass)
