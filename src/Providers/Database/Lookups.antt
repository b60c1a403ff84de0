-- ===== src/Providers/Database/Lookups.antt =====
-- The databases of providers/maxminddb_base.go and providers/ip2location.go: which readers are closed,
-- and which one a Lookup uses.
use topographer.Base.{
  ◌≡◌, refl, ap, ◌∙◌, inl, inr, Option-cases, String, Option, none, some, List, [], ◌∷◌, ◌++◌,
}
use mathlib.Core.List.{append-nil}
use topographer.Errors.{Result, Result-cases, ok, err}
use topographer.Structs.{Ip, ProviderLookupResult}
use topographer.Providers.Database.{
  Reader, LookupRecord, ReaderCodec, database_is_not_ready_yet, new_maxmind_base,
  new_ip2location_db, MaxmindBase, Ip2Location, Database, maxmind_database, ip2location_database,
  open_maxmind, shutdown_maxmind, lookup_maxmind, open_ip2location, shutdown_ip2location,
  lookup_ip2location,
}
use topographer.Providers.Database.Readers.{
  DbCall, opens, shuts, listed, opened, IsQuiet, answer, run_db, handled, DatabaseLaws,
  run_db-handled, run_db-quiet, run_db-current_opened, run_db-current_shut,
}

pub shutdown_maxmind-current : (m : MaxmindBase) → (shutdown_maxmind m).db_reader ≡ none
unfolding shutdown_maxmind
shutdown_maxmind-current m = elim (Option-cases m.db_reader) [
  | inl e ↦ rw (e, shutdown_maxmind) e
  | inr (r, e) ↦ rw (e, shutdown_maxmind) refl
]

shutdown_maxmind-handled :
    (c : ReaderCodec) (m : MaxmindBase)
    → handled (maxmind_database c) (shutdown_maxmind m) ≡ handled (maxmind_database c) m
unfolding shutdown_maxmind
shutdown_maxmind-handled c m = elim (Option-cases m.db_reader) [
  | inl e ↦ rw (e, shutdown_maxmind) (ap (λ o. m.closed ++ listed o) e)
  | inr (r, e) ↦ rw (e, shutdown_maxmind) (append-nil _)
]

open_maxmind-handled :
    (c : ReaderCodec) (r : Reader) (m : MaxmindBase)
    → handled (maxmind_database c) (open_maxmind (ok r) m).0
      ≡ handled (maxmind_database c) m ++ r ∷ []
unfolding open_maxmind
open_maxmind-handled c r m = elim (Option-cases m.db_reader) [
  | inl e ↦ rw (e, append-nil m.closed) refl
  | inr (r, e) ↦ rw e refl
]

maxmind-DatabaseLaws : (c : ReaderCodec) → DatabaseLaws (maxmind_database c)
unfolding open_maxmind
maxmind-DatabaseLaws c = record {
  fresh-handled = refl;
  open-current = λ r s. refl;
  open-handled = open_maxmind-handled c;
  open-failed = λ e s. refl;
  shutdown-current = shutdown_maxmind-current;
  shutdown-handled = shutdown_maxmind-handled c;
}

shutdown_ip2location-current : (i : Ip2Location) → (shutdown_ip2location i).db ≡ none
unfolding shutdown_ip2location
shutdown_ip2location-current i = elim (Option-cases i.db) [
  | inl e ↦ rw (e, shutdown_ip2location) e
  | inr (r, e) ↦ rw (e, shutdown_ip2location) refl
]

shutdown_ip2location-handled :
    (c : ReaderCodec) (i : Ip2Location)
    → handled (ip2location_database c) (shutdown_ip2location i) ≡ handled (ip2location_database c) i
unfolding shutdown_ip2location
shutdown_ip2location-handled c i = elim (Option-cases i.db) [
  | inl e ↦ rw (e, shutdown_ip2location) (ap (λ o. i.closed_dbs ++ listed o) e)
  | inr (r, e) ↦ rw (e, shutdown_ip2location) (append-nil _)
]

open_ip2location-handled :
    (c : ReaderCodec) (r : Reader) (i : Ip2Location)
    → handled (ip2location_database c) (open_ip2location (ok r) i).0
      ≡ handled (ip2location_database c) i ++ r ∷ []
unfolding open_ip2location
open_ip2location-handled c r i = elim (Option-cases i.db) [
  | inl e ↦ rw (e, append-nil i.closed_dbs) refl
  | inr (r, e) ↦ rw e refl
]

ip2location-DatabaseLaws : (c : ReaderCodec) → DatabaseLaws (ip2location_database c)
unfolding open_ip2location
ip2location-DatabaseLaws c = record {
  fresh-handled = refl;
  open-current = λ r s. refl;
  open-handled = open_ip2location-handled c;
  open-failed = λ e s. refl;
  shutdown-current = shutdown_ip2location-current;
  shutdown-handled = shutdown_ip2location-handled c;
}

-- After any sequence of Open and Shutdown on a new MaxMind or IP2Location database, where any of the
-- files may fail to open, the readers closed so far followed by the current one, if any, are exactly the
-- readers that were opened, in order: each is closed once, but for the current one, which is open.
pub readers-closed_once :
    (c : ReaderCodec) (cs : List DbCall)
    → (handled (maxmind_database c) (run_db (maxmind_database c) cs new_maxmind_base) ≡ opened cs)
      × (handled (ip2location_database c) (run_db (ip2location_database c) cs new_ip2location_db)
          ≡ opened cs)
readers-closed_once c cs = (
  run_db-handled (maxmind_database c) (maxmind-DatabaseLaws c) cs new_maxmind_base,
  run_db-handled (ip2location_database c) (ip2location-DatabaseLaws c) cs new_ip2location_db,
)

-- Which reader serves after some calls: the last one opened, if no Shutdown came later.
pub data Serves : List DbCall → Option Reader → Type 0 where
  never_opened : (cs : List DbCall) → IsQuiet cs → Serves cs none
  last_opened :
      (before after : List DbCall) (r : Reader)
      → IsQuiet after
      → Serves (before ++ opens (ok r) ∷ after) (some r)
  last_shut : (before after : List DbCall) → IsQuiet after → Serves (before ++ shuts ∷ after) none

module _ {S : Type 0} (d : Database S) (l : DatabaseLaws d) where
  current-Serves :
      (cs : List DbCall) (o : Option Reader)
      → Serves cs o
      → d.current (d.fresh) ≡ none
      → d.current (run_db d cs d.fresh) ≡ o
  current-Serves cs o (never_opened _ q) h = ap (d.current) (run_db-quiet d l cs d.fresh q) ∙ h
  current-Serves cs o (last_opened before after r q) h =
      run_db-current_opened d l before after r d.fresh q
  current-Serves cs o (last_shut before after q) h = run_db-current_shut d l before after d.fresh q

-- What a lookup gives for a reader, where `read` is what it finds.
abbrev pub served :
    ReaderCodec
    → String
    → (Reader → Result LookupRecord)
    → Option Reader
    → Result ProviderLookupResult
served c text read none = err database_is_not_ready_yet
served c text read (some r) = answer c text (read r)

lookup_maxmind-served :
    (c : ReaderCodec) (m : MaxmindBase) (ip : Ip)
    → lookup_maxmind c m ip
      ≡ served c "cannot lookup this ip address" (λ r. c.maxmind_lookup r ip) m.db_reader
unfolding lookup_maxmind
lookup_maxmind-served c m ip = elim (Option-cases m.db_reader) [
  | inl e ↦ rw (e, lookup_maxmind) refl
  | inr (r, e) ↦ elim (Result-cases (c.maxmind_lookup r ip)) [
    | inl (x, f) ↦ rw (e, f, lookup_maxmind) refl
    | inr (x, f) ↦ rw (e, f, lookup_maxmind) refl
  ]
]

lookup_ip2location-served :
    (c : ReaderCodec) (i : Ip2Location) (ip : Ip)
    → lookup_ip2location c i ip
      ≡ served c "cannot resolve ip address" (λ r. c.get_all r (c.ip_string ip)) i.db
unfolding lookup_ip2location
lookup_ip2location-served c i ip = elim (Option-cases i.db) [
  | inl e ↦ rw (e, lookup_ip2location) refl
  | inr (r, e) ↦ elim (Result-cases (c.get_all r (c.ip_string ip))) [
    | inl (x, f) ↦ rw (e, f, lookup_ip2location) refl
    | inr (x, f) ↦ rw (e, f, lookup_ip2location) refl
  ]
]

-- After any calls of Open and Shutdown on a new MaxMind or IP2Location database, a lookup asks the
-- reader that was opened last, even if later attempts to open failed, and gives the country of its code
-- and its city, or its error; before the first successful Open, and after a Shutdown that no successful
-- Open follows, it gives the error that the database is not ready.
pub lookup-Serves :
    (c : ReaderCodec) (cs : List DbCall) (o : Option Reader) (ip : Ip)
    → Serves cs o
    → (lookup_maxmind c (run_db (maxmind_database c) cs new_maxmind_base) ip
        ≡ served c "cannot lookup this ip address" (λ r. c.maxmind_lookup r ip) o)
      × (lookup_ip2location c (run_db (ip2location_database c) cs new_ip2location_db) ip
          ≡ served c "cannot resolve ip address" (λ r. c.get_all r (c.ip_string ip)) o)
lookup-Serves c cs o ip h = (
  lookup_maxmind-served c _ ip
      ∙ ap (served c _ (λ r. c.maxmind_lookup r ip))
          (current-Serves (maxmind_database c) (maxmind-DatabaseLaws c) cs o h refl),
  lookup_ip2location-served c _ ip
      ∙ ap (served c _ (λ r. c.get_all r (c.ip_string ip)))
          (current-Serves (ip2location_database c) (ip2location-DatabaseLaws c) cs o h refl),
)
