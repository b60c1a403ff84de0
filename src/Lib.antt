-- ===== src/Lib.antt =====
-- topographer resolves the geolocation of IP addresses with several providers at once and merges
-- what they say into one verdict.
--
-- The program's parts, as modelled here (paths from the repository's root):
--   topolib/topographer.go asks the chosen providers for each address, each in a goroutine of its own
--   (Resolve), and merges the details (Merge); it also starts the providers and shuts them down
--   (Topographer). topolib/pool_group_request.go gives the addresses to a worker pool (Pool), and
--   topolib/usage_stats.go counts the lookups of each provider (Stats). A country is a number of the
--   table of topolib/country_codes.go (Country). Providers use the HTTP client of
--   topolib/http_client.go (HttpClient), which calls the network through the circuit breaker of
--   topolib/circuit_breaker.go (Breaker). Errors are those of topolib/errors.go (Errors), and
--   Structs has topolib/structs.go.
--
-- Base has what the files share: Boolean tests, lists with a native length, association lists for Go's
-- maps (Base/Assoc), and signed times (Base/Time).
--
-- How code corresponds to definitions: a function of the source is a function of the same name in
-- snake case, a struct is a record, a method that changes its receiver returns the new record, a pair
-- of a value and an error is a `Result`, a panic is `none`. The order in which `range` visits a map is
-- an argument, as are the goroutines' order of arrival, clocks, the network, golang.org/x/time/rate,
-- ants, gountries, matchr and unicode.ToUpper. The critical sections of the circuit breaker are
-- single functions, and Breaker/World has a step for each of them, for each goroutine that is inside
-- `Do` and for each timer, so that runs are lists of steps in any interleaving. uint8, uint32 and uint64
-- values wrap around where they are counted up. Every loop of these parts is a recursion on a list,
-- so that there is no fuel, but for Itoa in Providers/Decimal: it is given 20 steps, and a number below 2^63 has
-- at most 19 digits.
--
-- Resolve/Waiting has a call of Resolve with its task, the context and a Shutdown as steps of goroutines
-- that share the lock.
--
-- Http has topolib/http.go and its handlers for GET and POST, on a record of net/http's
-- ResponseWriter, which adds the Content-Type that net/http finds where none was set; Http/Backend puts them on a Topographer. Config has config.go, and Wiring has utils.go,
-- middleware_basic_auth.go and the constructors of providers/ that utils.go calls.
--
-- Fs has topolib/fs.go and, in Fs/Updating, Start and doUpdate of topolib/fs_updater.go, on a directory as a map from names to
-- entries.
--
-- Caching has topolib/caching_providers.go on a cache that only gives what was set.
--
-- Providers has the directory providers/. Providers/Software77 has software77_db.go, and Open and Lookup of
-- software77.go, on two prefix trees; its Rows is the reference that the IPv4 part is compared with.
-- Providers/Database has Open, Shutdown and Lookup of maxminddb_base.go and ip2location.go, with a
-- record of operations and laws that both fill. Providers/Web has ip2c.go, ipinfo.go and ipstack.go, and
-- Providers/Download the downloads of software77.go, dbip_lite.go, maxmind_lite.go and ip2location.go with
-- utils.go: a download is a computation that may fail on a record of the files of the new directory and of the
-- bodies that were flushed, and the one of maxmind_lite.go may never return (`none`): Download/Pipe has its pipe, which takes a body
-- chunk by chunk as long as the other end reads. The two goroutines of
-- software77.go write different files, so that one order of them is enough; the order of their errors is
-- an argument. Providers/Net and Providers/Decimal have what is used of the packages net, encoding/binary
-- and strconv.
--
-- Updater has runBgUpdate and Shutdown of topolib/fs_updater.go as steps of the goroutine, on the database of
-- providers/maxminddb_base.go; an update looks at the context until it has its responses.
--
-- Program has mainFunc of main.go up to the serving: the configuration, the providers, the topographer and the
-- server with its handler.
--
-- Not modelled: makeRootContext, the serving of net/http and the end of the main function; the durations of timers;
-- closing files, which the downloads mostly leave out; locks of the databases, since each method is one critical
-- section; and logging, which has no effect on results.
pub mod Base
pub mod Errors
pub mod Breaker
pub mod HttpClient
pub mod Country
pub mod Structs
pub mod Merge
pub mod Stats
pub mod Pool
pub mod Topographer
pub mod Resolve
pub mod Http
pub mod Config
pub mod Wiring
pub mod Fs
pub mod Providers
pub mod Caching
pub mod Updater
pub mod Program
