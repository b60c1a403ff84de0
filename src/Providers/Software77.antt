-- ===== src/Providers/Software77.antt =====
-- providers/software77_db.go, and Open, Lookup and Shutdown of providers/software77.go: the ranges of
-- addresses of the CSV files in two prefix trees. The trees of kentik/patricia, the splitting of a range
-- of go-cidrman, net.ParseCIDR and the reading of CSV are arguments.
pub mod Prefixes
pub mod Rows
pub mod Scan
pub mod Opened
mod Samples
use Prim.Native.Char.{Char}
use Prim.Native.String
use topographer.Base.{
  ℕ, String, Bool, true, false, Option, none, some, List, [], ◌∷◌, get_elem?, not, if◌then◌else◌,
}
use topographer.Base.Time.{ℤ}
use topographer.Errors.{Err, message, wrap, Result, ok, err, ◌>>=◌, context}
use topographer.Structs.{Ip, to16, ProviderLookupResult}
use topographer.Country.{CodeTables, known, alpha2_to_country_code}
use topographer.Providers.Net.{to4, put_uint32, to_uint32, atoi}

-- net.IPNet: the address, and the length of the mask.
pub record IpNet : Type 0 where
  pub ip : Ip
  pub mask : ℕ

-- A tree of kentik/patricia with uint8 tags: `Add`, and `FindDeepestTag`, whose `ok` is an `Option`.
pub record PrefixTree : Type 1 where
  pub Tree : Type 0
  pub new_tree : Tree
  pub add_tag : IpNet → ℕ → Tree → Result Tree
  pub find_deepest_tag : Ip → Tree → Result (Option ℕ)

-- The rest of what other packages do, and the countries.
pub record RangeCodec : Type 0 where
  pub range_to_ip_nets : Ip → Ip → Result (List IpNet)
  pub parse_cidr : String → Result IpNet
  pub upper : Char → Char
  pub tables : CodeTables

abbrev pub not_found : Err
not_found = message "ip has not been found"

module _ (p : PrefixTree) where
  pub record Software77Db : Type 0 where
    pub v4_tree : p.Tree
    pub v6_tree : p.Tree

  abbrev pub new_software77_db : Software77Db
  new_software77_db = record { v4_tree = p.new_tree; v6_tree = p.new_tree }

  -- The `switch` of Lookup.
  abbrev pub found : Result (Option ℕ) → Result ℕ
  found (err e) = err (wrap "cannot resolve ip address" e)
  found (ok none) = err not_found
  found (ok (some value)) = ok value

  unfoldable pub lookup_db : Software77Db → Ip → Result ℕ
  unfolding to4 to16
  lookup_db s addr = elim (to4 addr) [
    | some v4_addr ↦ found (p.find_deepest_tag v4_addr s.v4_tree)
    | none ↦ found (p.find_deepest_tag (to16 addr) s.v6_tree)
  ]

  -- `add`.
  unfoldable pub add_net : IpNet → ℕ → Software77Db → Result Software77Db
  unfolding to4 to16
  add_net net cc s = elim (to4 net.ip) [
    | some v4 ↦ do
      t ← p.add_tag (record { ip = v4; mask = net.mask }) cc s.v4_tree
      ok (record s { v4_tree = t })
    | none ↦ do
      t ← p.add_tag (record { ip = to16 net.ip; mask = net.mask }) cc s.v6_tree
      ok (record s { v6_tree = t })
  ]

  -- The loop of AddIPv4Range.
  unfoldable pub add_nets : List IpNet → ℕ → Software77Db → Result Software77Db
  unfolding add_net
  add_nets [] cc s = ok s
  add_nets (net ∷ nets) cc s = do s' ← add_net net cc s; add_nets nets cc s'

  module _ (c : RangeCodec) where
    unfoldable pub add_ipv4_range : String → String → String → Software77Db → Result Software77Db
    unfolding add_nets
    add_ipv4_range start end country_code s =
        let cc = alpha2_to_country_code c.upper c.tables country_code in
        if not (known cc) then ok s else (do
          start_num ← context "cannot convert a start ip" (atoi start)
          end_num ← context "cannot convert a start ip" (atoi end)
          nets ← context "cannot build a list of ipnets" (
              c.range_to_ip_nets (put_uint32 (to_uint32 start_num))
                (put_uint32 (to_uint32 end_num)))
          add_nets nets cc s)

    unfoldable pub add_ipv6_cidr : String → String → Software77Db → Result Software77Db
    unfolding add_net
    add_ipv6_cidr cidr country_code s =
        let cc = alpha2_to_country_code c.upper c.tables country_code in
        if not (known cc)
        then ok s
        else (do net ← context "cannot parse cidr" (c.parse_cidr cidr); add_net net cc s)

    -- One record of openV4. A record without the field is out of range, a panic (`none`).
    unfoldable pub add_record_v4 : List String → Software77Db → Option (Result Software77Db)
    unfolding add_ipv4_range
    add_record_v4 r s = elim (get_elem? r 0) [
      | none ↦ none
      | some start ↦ elim (get_elem? r 1) [
        | none ↦ none
        | some end ↦ elim (get_elem? r 4) [
          | none ↦ none
          | some cc ↦ some (context "cannot parse a line" (add_ipv4_range start end cc s))
        ]
      ]
    ]

    unfoldable pub add_record_v6 : List String → Software77Db → Option (Result Software77Db)
    unfolding add_ipv6_cidr
    add_record_v6 r s = elim (get_elem? r 0) [
      | none ↦ none
      | some cidr ↦ elim (get_elem? r 1) [
        | none ↦ none
        | some cc ↦ some (context "cannot parse a line" (add_ipv6_cidr cidr cc s))
      ]
    ]

    -- The loops of openV4 and openV6 over what the CSV reader gives until the end of the file.
    unfoldable pub read_records :
        (List String → Software77Db → Option (Result Software77Db))
        → List (Result (List String))
        → Software77Db
        → Option (Result Software77Db)
    read_records add [] s = some (ok s)
    read_records add (err e ∷ rs) s = some (err (wrap "unexpected error" e))
    read_records add (ok r ∷ rs) s = elim (add r s) [
      | none ↦ none
      | some (err e) ↦ some (err e)
      | some (ok s') ↦ read_records add rs s'
    ]

    -- `file` is the error of os.Open, or what the reader gives.
    unfoldable pub open_file :
        (List String → Software77Db → Option (Result Software77Db))
        → Result (List (Result (List String)))
        → Software77Db
        → Option (Result Software77Db)
    unfolding read_records
    open_file add (err e) s = some (err (wrap "cannot open a file" e))
    open_file add (ok records) s = read_records add records s

    unfoldable pub open_v4 :
        Result (List (Result (List String))) → Software77Db → Option (Result Software77Db)
    unfolding open_file add_record_v4
    open_v4 file s = open_file add_record_v4 file s

    unfoldable pub open_v6 :
        Result (List (Result (List String))) → Software77Db → Option (Result Software77Db)
    unfolding open_file add_record_v6
    open_v6 file s = open_file add_record_v6 file s

    -- The two steps of Open; the error text is the same in both.
    abbrev pub open_context : Option (Result Software77Db) → Option (Result Software77Db)
    open_context none = none
    open_context (some r) = some (context "cannot process db with v4 addresses" r)

    -- The database that Open builds from the files.
    unfoldable pub build_db :
        (v4_file v6_file : Result (List (Result (List String)))) → Option (Result Software77Db)
    unfolding open_v4 open_v6
    build_db v4_file v6_file = elim (open_context (open_v4 v4_file new_software77_db)) [
      | none ↦ none
      | some (err e) ↦ some (err e)
      | some (ok s) ↦ open_context (open_v6 v6_file s)
    ]

    -- `Open`: the provider's pointer to its database, and the error. An error keeps the old database.
    unfoldable pub open_software77 :
        (v4_file v6_file : Result (List (Result (List String))))
        → Option Software77Db
        → Option (Option Software77Db × Option Err)
    unfolding build_db
    open_software77 v4_file v6_file db = elim (build_db v4_file v6_file) [
      | none ↦ none
      | some (err e) ↦ some (db, some e)
      | some (ok s) ↦ some (some s, none)
    ]

  abbrev pub shutdown_software77 : Option Software77Db → Option Software77Db
  shutdown_software77 db = none

  unfoldable pub lookup_software77 : Option Software77Db → Ip → Result ProviderLookupResult
  unfolding lookup_db
  lookup_software77 none ip = err (message "database is not initialized yet")
  lookup_software77 (some db) ip = elim (lookup_db db ip) [
    | err e ↦ err (wrap "cannot lookup" e)
    | ok cc ↦ ok (record { country_code = cc; city = "" })
  ]
