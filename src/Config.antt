-- ===== src/Config.antt =====
-- config.go: the configuration with its defaults, and the checks of parseConfig.
pub mod Duplicates
pub mod Samples
use topographer.Base.{
  ℕ, ◌-◌, ◌^◌, String, Bool, true, false, Option, none, some, List, [], ◌∷◌, not, ◌||◌, ◌==◌,
  nat_eq, string_eq, ltb, if◌then◌else◌,
}
use Prim.Native.String
use topographer.Base.Time.{ℤ, pos, negsuc, is_zero, Duration}
use topographer.Base.Assoc.{lookup, insert}
use topographer.Errors.{Err, message, Result, ok, err, ◌>>=◌, context}

abbrev default_http_timeout : Duration
default_http_timeout = pos 10000000000

abbrev default_update_every : Duration
default_update_every = pos 86400000000000

abbrev default_rate_limit_interval : Duration
default_rate_limit_interval = pos 100000000

abbrev default_rate_limit_burst : ℤ
default_rate_limit_burst = pos 10

abbrev default_circuit_breaker_open_threshold : ℕ
default_circuit_breaker_open_threshold = 5

abbrev default_circuit_breaker_half_open_timeout : Duration
default_circuit_breaker_half_open_timeout = pos 60000000000

abbrev default_circuit_breaker_reset_failures_timeout : Duration
default_circuit_breaker_reset_failures_timeout = pos 20000000000

-- The values that `interface{}` holds after json.Unmarshal, as far as they are told apart.
pub data JsonValue : Type 0 where
  json_string : String → JsonValue
  json_other : String → JsonValue

-- `duration.UnmarshalJSON`, behind json.Unmarshal; `parse` is time.ParseDuration.
unfoldable pub unmarshal_duration : (String → Result Duration) → Result JsonValue → Result Duration
unmarshal_duration parse (err e) = context "cannot unmarshal duration" (err e)
unmarshal_duration parse (ok (json_other shown)) =
    err (message (String.◌++◌ "incorrect duration: " shown))
unmarshal_duration parse (ok (json_string s)) = context "cannot parse duration" (parse s)

-- A nil map is `none`.
pub record ConfigProvider : Type 0 where
  pub name : String
  pub directory : String
  pub rate_limit_interval : Duration
  pub rate_limit_burst : ℕ
  pub circuit_breaker_open_threshold : ℕ
  pub circuit_breaker_half_open_timeout : Duration
  pub circuit_breaker_reset_failures_timeout : Duration
  pub update_every : Duration
  pub http_timeout : Duration
  pub specific_parameters : Option (List (String × String))

pub record Config : Type 0 where
  pub listen : String
  pub root_directory : String
  pub worker_pool_size : ℕ
  pub basic_auth_user : String
  pub basic_auth_password : String
  pub providers : List ConfigProvider

-- `int(n)` of a uint, both of 64 bits.
unfoldable pub to_int : ℕ → ℤ
to_int n = if ltb n (2 ^ 63) then pos n else negsuc (2 ^ 64 - n - 1)

-- `temporary` is `filepath.Join(os.TempDir(), "topographer")`.
unfoldable pub get_root_directory : String → Config → String
get_root_directory temporary c =
    if not (c.root_directory == "") then c.root_directory else temporary

unfoldable pub get_worker_pool_size : Config → ℤ
unfolding to_int
get_worker_pool_size c = to_int c.worker_pool_size

unfoldable pub has_basic_auth : Config → Bool
has_basic_auth c = not (c.basic_auth_user == "") || not (c.basic_auth_password == "")

unfoldable pub get_directory : ConfigProvider → String
get_directory c = if not (c.directory == "") then c.directory else c.name

-- The duration, or the default for zero.
abbrev or_default : Duration → Duration → Duration
or_default default d = if is_zero d then default else d

unfoldable pub get_rate_limit_interval : ConfigProvider → Duration
get_rate_limit_interval c = or_default default_rate_limit_interval c.rate_limit_interval

unfoldable pub get_rate_limit_burst : ConfigProvider → ℤ
unfolding to_int
get_rate_limit_burst c =
    if c.rate_limit_burst == 0 then default_rate_limit_burst else to_int c.rate_limit_burst

unfoldable pub get_circuit_breaker_open_threshold : ConfigProvider → ℕ
get_circuit_breaker_open_threshold c =
    if c.circuit_breaker_open_threshold == 0
    then default_circuit_breaker_open_threshold
    else c.circuit_breaker_open_threshold

unfoldable pub get_circuit_breaker_half_open_timeout : ConfigProvider → Duration
get_circuit_breaker_half_open_timeout c =
    or_default default_circuit_breaker_half_open_timeout c.circuit_breaker_half_open_timeout

unfoldable pub get_circuit_breaker_reset_failures_timeout : ConfigProvider → Duration
get_circuit_breaker_reset_failures_timeout c =
    or_default default_circuit_breaker_reset_failures_timeout
      c.circuit_breaker_reset_failures_timeout

unfoldable pub get_update_every : ConfigProvider → Duration
get_update_every c = or_default default_update_every c.update_every

unfoldable pub get_http_timeout : ConfigProvider → Duration
get_http_timeout c = or_default default_http_timeout c.http_timeout

unfoldable pub get_specific_parameters : ConfigProvider → List (String × String)
get_specific_parameters c = elim c.specific_parameters [ none ↦ [] | some m ↦ m ]

-- `seenProviderNames` and `seenDirectories`; `true` stands for the empty struct.
pub record Seen : Type 0 where
  pub names : List (String × Bool)
  pub directories : List (String × Bool)

abbrev pub duplicated : String → String → Err
duplicated kind s = message (String.◌++◌ kind (String.◌++◌ s " is duplicated"))

-- One round of the loop of parseConfig.
unfoldable pub see : ConfigProvider → Seen → Result Seen
unfolding get_directory
see v seen = elim (lookup v.name seen.names) [
  | some _ ↦ err (duplicated "Name " v.name)
  | none ↦ elim (lookup (get_directory v) seen.directories) [
    | some _ ↦ err (duplicated "Directory " (get_directory v))
    | none ↦ ok (record {
      names = insert v.name true seen.names;
      directories = insert (get_directory v) true seen.directories;
    })
  ]
]

unfoldable pub see_all : List ConfigProvider → Seen → Result Seen
see_all [] seen = ok seen
see_all (v ∷ vs) seen = see v seen >>= λ seen'. see_all vs seen'

abbrev pub nothing_seen : Seen
nothing_seen = record { names = []; directories = [] }

-- What other packages do: os.TempDir, hjson.Unmarshal followed by the two JSON steps whose errors are
-- dropped, net.SplitHostPort, and filepath.Abs.
pub record ConfigCodec : Type 0 where
  pub temporary : String
  pub decode : String → Result Config
  pub split_host_port : String → Result (Unit {0})
  pub abs : String → Result String

-- `parseConfig`; `content` is what reading the file gives.
unfoldable pub parse_config : ConfigCodec → Result String → Result Config
unfolding get_root_directory see_all
parse_config c content = do
  text ← context "cannot read file" content
  conf ← context "cannot parse json" (c.decode text)
  _ ← context "incorrect host:port for listen" (c.split_host_port conf.listen)
  root ← context "incorrect root directory" (c.abs (get_root_directory c.temporary conf))
  _ ← see_all conf.providers nothing_seen
  ok (record conf { root_directory = root })
