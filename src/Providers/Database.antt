-- ===== src/Providers/Database.antt =====
-- The databases of providers/maxminddb_base.go and providers/ip2location.go: Open, Shutdown and Lookup
-- on a reader of a file. A reader is a number; what maxminddb-golang and ip2location-go read from it
-- is an argument.
pub mod Lookups
pub mod Readers
mod Samples
use Prim.Native.Char.{Char}
use topographer.Base.{String, Option, none, some, List, [], ◌∷◌, ◌++◌, ℕ}
use topographer.Errors.{Err, message, wrap, Result, ok, err, context, ◌>>=◌}
use topographer.Structs.{Ip, ProviderLookupResult}
use topographer.Country.{CodeTables, alpha2_to_country_code}

abbrev pub Reader : Type 0
Reader = ℕ

-- maxmindLookupResult, and the two fields that are used of ip2location's record.
pub record LookupRecord : Type 0 where
  pub iso_code : String
  pub city : String

-- What other packages do, and the countries.
pub record ReaderCodec : Type 0 where
  pub maxmind_lookup : Reader → Ip → Result LookupRecord
  pub get_all : Reader → String → Result LookupRecord
  pub ip_string : Ip → String
  pub upper : Char → Char
  pub tables : CodeTables

abbrev pub database_is_not_ready_yet : Err
database_is_not_ready_yet = message "database is not initialized yet"

-- `closed` has the readers that were closed, in order.
pub record MaxmindBase : Type 0 where
  pub db_reader : Option Reader
  pub closed : List Reader

abbrev pub new_maxmind_base : MaxmindBase
new_maxmind_base = record { db_reader = none; closed = [] }

unfoldable pub shutdown_maxmind : MaxmindBase → MaxmindBase
shutdown_maxmind m = elim m.db_reader [
  | none ↦ m
  | some r ↦ record { db_reader = none; closed = m.closed ++ r ∷ [] }
]

-- `if m.dbReader != nil { m.dbReader.Close() }`.
abbrev close_reader : Option Reader → List Reader → List Reader
close_reader none closed = closed
close_reader (some r) closed = closed ++ r ∷ []

-- `file` is what maxminddb.Open returns.
unfoldable pub open_maxmind : (file : Result Reader) → MaxmindBase → MaxmindBase × Option Err
open_maxmind (err e) m = (m, some (wrap "cannot initialize a reader of maxminddb" e))
open_maxmind (ok reader) m =
    (record { db_reader = some reader; closed = close_reader m.db_reader m.closed }, none)

unfoldable pub lookup_maxmind : ReaderCodec → MaxmindBase → Ip → Result ProviderLookupResult
lookup_maxmind c m ip = elim m.db_reader [
  | none ↦ err database_is_not_ready_yet
  | some r ↦ do
    found ← context "cannot lookup this ip address" (c.maxmind_lookup r ip)
    ok (record {
      country_code = alpha2_to_country_code c.upper c.tables found.iso_code;
      city = found.city;
    })
]

pub record Ip2Location : Type 0 where
  pub db : Option Reader
  pub closed_dbs : List Reader

abbrev pub new_ip2location_db : Ip2Location
new_ip2location_db = record { db = none; closed_dbs = [] }

-- `file` is what ip2location.OpenDB returns.
unfoldable pub open_ip2location : (file : Result Reader) → Ip2Location → Ip2Location × Option Err
open_ip2location (err e) i = (i, some (wrap "cannot open a new database" e))
open_ip2location (ok db) i =
    (record { db = some db; closed_dbs = close_reader i.db i.closed_dbs }, none)

unfoldable pub shutdown_ip2location : Ip2Location → Ip2Location
shutdown_ip2location i = elim i.db [
  | none ↦ i
  | some r ↦ record { db = none; closed_dbs = i.closed_dbs ++ r ∷ [] }
]

unfoldable pub lookup_ip2location : ReaderCodec → Ip2Location → Ip → Result ProviderLookupResult
lookup_ip2location c i ip = elim i.db [
  | none ↦ err database_is_not_ready_yet
  | some r ↦ do
    resolved ← context "cannot resolve ip address" (c.get_all r (c.ip_string ip))
    ok (record {
      country_code = alpha2_to_country_code c.upper c.tables resolved.iso_code;
      city = resolved.city;
    })
]

-- A provider's database, as the updater and the callers of Lookup use it.
pub record Database (S : Type 0) : Type 0 where
  pub current : S → Option Reader
  pub closed_readers : S → List Reader
  pub fresh : S
  pub open_db : Result Reader → S → S × Option Err
  pub shutdown_db : S → S
  pub lookup_in : S → Ip → Result ProviderLookupResult

abbrev pub maxmind_database : ReaderCodec → Database MaxmindBase
maxmind_database c = record {
  current = λ m. m.db_reader;
  closed_readers = λ m. m.closed;
  fresh = new_maxmind_base;
  open_db = open_maxmind;
  shutdown_db = shutdown_maxmind;
  lookup_in = lookup_maxmind c;
}

abbrev pub ip2location_database : ReaderCodec → Database Ip2Location
ip2location_database c = record {
  current = λ i. i.db;
  closed_readers = λ i. i.closed_dbs;
  fresh = new_ip2location_db;
  open_db = open_ip2location;
  shutdown_db = shutdown_ip2location;
  lookup_in = lookup_ip2location c;
}
