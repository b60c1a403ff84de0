-- ===== src/Providers/Software77/Opened.antt =====
-- Open and Lookup of providers/software77.go on both files.
use topographer.Base.{
  ℕ, ◌≤◌, ◌≡◌, refl, sym, ap, ◌∙◌, inl, inr, String, Bool-cases, Option, none, some, List, [], ◌∷◌,
  map, length, All, nat_eq,
}
use topographer.Errors.{wrap, Result, ok, err}
use topographer.Structs.{Ip, to16, ProviderLookupResult}
use topographer.Country.{known, alpha2_to_country_code}
use topographer.Providers.Net.{be_uint32, to4}
use topographer.Providers.Software77.{
  IpNet, PrefixTree, RangeCodec, not_found, Software77Db, new_software77_db, found, lookup_db,
  add_net, add_ipv6_cidr, add_record_v6, read_records, open_file, open_v4, open_v6, build_db,
  open_software77, lookup_software77,
}
use topographer.Providers.Software77.Prefixes.{IsPrefixTree, IsRangeCodec}
use topographer.Providers.Software77.Rows.{Row, fields, IsRow, IsDisjoint, scan}
use topographer.Providers.Software77.Scan.{open_v4-scan, lookup_db-v4}

-- A line of the IPv6 file: a net, a country, and what follows.
pub record CidrRow : Type 0 where
  pub cidr : String
  pub country : String
  pub rest : List String

abbrev pub cidr_fields : CidrRow → Result (List String)
cidr_fields r = ok (r.cidr ∷ r.country ∷ r.rest)

-- The line has an IPv6 net, outside of the addresses that stand for IPv4 ones.
abbrev pub IsCidrRow : RangeCodec → CidrRow → Type 0
IsCidrRow c r =
    (net : IpNet) × (c.parse_cidr r.cidr ≡ ok net)
    × (length net.ip ≡ 16)
    × (net.mask ≤ 128)
    × (to4 net.ip ≡ none)

-- What Lookup gives for what the scan finds.
abbrev pub reply : Option ℕ → Result ProviderLookupResult
reply none = err (wrap "cannot lookup" not_found)
reply (some cc) = ok (record { country_code = cc; city = "" })

module _ (p : PrefixTree) (l : IsPrefixTree p) (c : RangeCodec) where
  add_net-v6 :
      (net : IpNet) (v : ℕ) (s : Software77Db p)
      → length net.ip ≡ 16
      → net.mask ≤ 128
      → to4 net.ip ≡ none
      → (t : p.Tree) × (add_net p net v s ≡ ok (record s { v6_tree = t }))
  unfolding add_net to16
  add_net-v6 net v s long mask outside =
      let (t, added, _) = l.adds net v s.v6_tree (inr (long, mask)) in
      (t, rw (outside, long, add_net, added) refl)

  add_cidr :
      (r : CidrRow) (s : Software77Db p)
      → IsCidrRow c r
      → (t : p.Tree) × (add_ipv6_cidr p c r.cidr r.country s ≡ ok (record s { v6_tree = t }))
  unfolding add_ipv6_cidr
  add_cidr r s (net, parsed, long, mask, outside) =
      elim (Bool-cases (known (alpha2_to_country_code c.upper c.tables r.country))) [
        | inr e ↦ (s.v6_tree, rw e refl)
        | inl e ↦
            let (t, added) =
              add_net-v6 net (alpha2_to_country_code c.upper c.tables r.country) s long mask
                outside in
            (t, rw (e, parsed) added)
      ]

  add_record-cidr :
      (r : CidrRow) (rs : List (Result (List String))) (s s1 : Software77Db p)
      → add_ipv6_cidr p c r.cidr r.country s ≡ ok s1
      → read_records p c (add_record_v6 p c) (cidr_fields r ∷ rs) s
        ≡ read_records p c (add_record_v6 p c) rs s1
  unfolding read_records add_record_v6
  add_record-cidr r rs s s1 added = rw (read_records, added) refl

  -- The IPv6 file leaves the IPv4 tree as it is.
  add_cidrs :
      (rows : List CidrRow) (s : Software77Db p)
      → All (IsCidrRow c) rows
      → (s' : Software77Db p) × (read_records p c (add_record_v6 p c) (map cidr_fields rows) s
          ≡ some (ok s'))
        × (s'.v4_tree ≡ s.v4_tree)
  unfolding read_records
  add_cidrs [] s h = (s, refl, refl)
  add_cidrs (r ∷ rs) s h =
      let (t, added) = add_cidr r s h.0 in
      let (s', read, same) = add_cidrs rs (record s { v6_tree = t }) h.1 in
      (s', add_record-cidr r (map cidr_fields rs) s (record s { v6_tree = t }) added ∙ read, same)

  lookup_software77-found :
      (db : Software77Db p) (ip : Ip) (o : Option ℕ)
      → lookup_db p db ip ≡ found p (ok o)
      → lookup_software77 p (some db) ip ≡ reply o
  unfolding lookup_software77
  lookup_software77-found db ip none h = rw (h, lookup_software77) refl
  lookup_software77-found db ip (some v) h = rw (h, lookup_software77) refl

  opened-with :
      (rows : List (Result (List String))) (cidrs : List (Result (List String)))
      (old : Option (Software77Db p)) (s s' : Software77Db p)
      → open_v4 p c (ok rows) (new_software77_db p) ≡ some (ok s)
      → open_v6 p c (ok cidrs) s ≡ some (ok s')
      → open_software77 p c (ok rows) (ok cidrs) old ≡ some (some s', none)
  unfolding open_software77 build_db
  opened-with rows cidrs old s s' h k = rw (open_software77, build_db, h, k) refl

  -- If each row of the IPv4 file has two numbers in order for its ends and no address is in two rows, and if
  -- each row of the IPv6 file has an IPv6 net that holds no IPv4 addresses, then Open succeeds whatever
  -- database there was, and a lookup of any 4-byte address then gives what a scan of the IPv4 file
  -- finds: the country of the row whose range has the address as a big-endian number, both ends
  -- included, or the error that it has not been found. A row whose country is not known counts as absent.
  pub open_software77-scan :
      (rows : List Row) (cidrs : List CidrRow) (old : Option (Software77Db p))
      → IsRangeCodec c
      → All IsRow rows
      → IsDisjoint rows
      → All (IsCidrRow c) cidrs
      → (db : Software77Db p) × (open_software77 p c
            (ok (map fields rows))
            (ok (map cidr_fields cidrs))
            old
          ≡ some (some db, none))
        × ((ip : Ip)
            → length ip ≡ 4
            → lookup_software77 p (some db) ip ≡ reply (scan c rows (be_uint32 ip)))
  unfolding open_v6 open_file
  open_software77-scan rows cidrs old d ordered apart nets =
      let (s, read, finds) = open_v4-scan p l c d rows ordered apart in
      let (db, read6, same) = add_cidrs cidrs s nets in
      (
        db,
        opened-with (map fields rows) (map cidr_fields cidrs) old s db read read6,
        λ ip four. lookup_software77-found db ip (scan c rows (be_uint32 ip)) (
            lookup_db-v4 p db ip four
            ∙ (ap (λ t. found p (p.find_deepest_tag ip t)) same
                ∙ (sym (lookup_db-v4 p s ip four) ∙ finds ip four))),
      )
