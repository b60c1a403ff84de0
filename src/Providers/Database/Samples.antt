-- ===== src/Providers/Database/Samples.antt =====
-- The databases of providers/maxminddb_base.go and providers/ip2location.go on a few calls: two files are
-- opened, a third one fails, and Shutdown comes in between.
use topographer.Base.{◌≡◌, refl, some, List, [], ◌∷◌, ◌++◌}
use topographer.Errors.{message, ok, err}
use topographer.Structs.{Ip}
use topographer.Country.{empty_tables}
use topographer.Providers.Database.{
  ReaderCodec, new_maxmind_base, new_ip2location_db, maxmind_database, ip2location_database,
  open_maxmind, shutdown_maxmind, lookup_maxmind, lookup_ip2location,
}
use topographer.Providers.Database.Readers.{DbCall, opens, shuts, opened, run_db, handled}
use topographer.Providers.Database.Lookups.{readers-closed_once, last_opened, served, lookup-Serves}

abbrev sample_codec : ReaderCodec
sample_codec = record {
  maxmind_lookup = λ r ip. ok (record { iso_code = "DE"; city = "Berlin" });
  get_all = λ r s. ok (record { iso_code = "DE"; city = "Berlin" });
  ip_string = λ ip. "5.0.0.1";
  upper = λ c. c;
  tables = empty_tables;
}

abbrev early : List DbCall
early = opens (ok 1) ∷ shuts ∷ []

abbrev late : List DbCall
late = opens (err (message "broken file")) ∷ []

abbrev calls : List DbCall
calls = early ++ opens (ok 2) ∷ late

abbrev address : Ip
address = 5 ∷ 0 ∷ 0 ∷ 1 ∷ []

calls_close : (run_db (maxmind_database sample_codec) calls new_maxmind_base).closed ≡ 1 ∷ []
unfolding open_maxmind shutdown_maxmind
calls_close = refl

readers-closed_once_example :
    (handled
        (maxmind_database sample_codec)
        (run_db (maxmind_database sample_codec) calls new_maxmind_base)
      ≡ opened calls)
    × (handled
          (ip2location_database sample_codec)
          (run_db (ip2location_database sample_codec) calls new_ip2location_db)
        ≡ opened calls)
readers-closed_once_example = readers-closed_once sample_codec calls

lookup-Serves_example :
    (lookup_maxmind sample_codec
        (run_db (maxmind_database sample_codec) calls new_maxmind_base)
        address
      ≡ served sample_codec "cannot lookup this ip address"
          (λ r. sample_codec.maxmind_lookup r address)
          (some 2))
    × (lookup_ip2location sample_codec
          (run_db (ip2location_database sample_codec) calls new_ip2location_db)
          address
        ≡ served sample_codec "cannot resolve ip address"
            (λ r. sample_codec.get_all r (sample_codec.ip_string address))
            (some 2))
lookup-Serves_example =
    lookup-Serves sample_codec calls (some 2) address (last_opened early late 2 tt)
