-- ===== src/Providers/Software77/Samples.antt =====
-- The database of providers/software77_db.go on a small file, with a tree that is a list of nets and a
-- splitting of a range into its addresses.
use mathlib.Core.List.{Memᴰ}
use topographer.Base.{
  ℕ, zero, suc, ◌+◌, ◌-◌, ◌^◌, ◌≤◌, ◌<◌, ◌≡◌, refl, ◌∙◌, inl, inr, true, false, Bool-cases, ◌&&◌,
  Option, none, some, List, [], ◌∷◌, ◌++◌, length, All, All-map, ◌==◌, nat_eq, leb, ltb,
  if◌then◌else◌, arith, map,
}
use topographer.Base.Time.{pos}
use topographer.Base.Assoc.{lookup}
use topographer.Country.{known, alpha2_to_country_code, normalize_alpha2_code, to_upper, map_alpha2}
use topographer.Errors.{wrap, message, Result, ok, err}
use topographer.Structs.{Ip}
use topographer.Providers.Net.{to4, be_from, to_uint32, be_uint32, be_uint32-put, put_uint32, atoi}
use topographer.Providers.Software77.{
  IpNet, PrefixTree, RangeCodec, Software77Db, new_software77_db, open_software77,
  lookup_software77, add_record_v4, add_ipv4_range,
}
use topographer.Providers.Software77.Rows.{Row, fields, IsRow, IsDisjoint, scan}
use topographer.Providers.Software77.Opened.{
  CidrRow, cidr_fields, IsCidrRow, reply, open_software77-scan,
}
use topographer.Providers.Software77.Prefixes.{
  covers, IsPrefixTree, IsRangeCodec, IsDeepest, IsV4Net, any_covers,
}

abbrev Tags : Type 0
Tags = List (IpNet × ℕ)

abbrev better : (IpNet × ℕ) → Option (IpNet × ℕ) → Option (IpNet × ℕ)
better e none = some e
better e (some f) = if leb f.0.mask e.0.mask then some e else some f

abbrev deepest : Tags → Ip → Option (IpNet × ℕ)
deepest [] ip = none
deepest (e ∷ es) ip = let rest = deepest es ip in if covers e.0 ip then better e rest else rest

abbrev Deepest : Tags → Ip → Option (IpNet × ℕ) → Type 0
Deepest es ip none = All (λ (e : IpNet × ℕ). covers e.0 ip ≡ false) es
Deepest es ip (some f) =
    Memᴰ f es
    × (covers f.0 ip ≡ true)
    × All (λ (e : IpNet × ℕ). covers e.0 ip ≡ true → e.0.mask ≤ f.0.mask) es

le_trans : (k m n : ℕ) → leb m n ≡ true → k ≤ m → k ≤ n
le_trans k m n q a = ground (arith, q, a)

Deepest-better :
    (es : Tags) (ip : Ip) (e : IpNet × ℕ) (o : Option (IpNet × ℕ))
    → covers e.0 ip ≡ true
    → Deepest es ip o
    → Deepest (e ∷ es) ip (better e o)
Deepest-better es ip e none c h = (
  Memᴰ.head refl,
  c,
  ((λ q. ground arith), All-map _ _ es (λ x a b. absurd (ground (arith, a, b))) h),
)
Deepest-better es ip e (some f) c (m, d, h) = elim (Bool-cases (leb f.0.mask e.0.mask)) [
  | inl q ↦
      rw q (
        Memᴰ.head refl,
        c,
        ((λ b. ground arith), All-map _ _ es (λ x a b. le_trans _ _ _ q (a b)) h),
      )
  | inr q ↦ rw q (Memᴰ.tail m, d, ((λ b. ground (arith, q)), h))
]

deepest-Deepest : (es : Tags) (ip : Ip) → Deepest es ip (deepest es ip)
deepest-Deepest [] ip = tt
deepest-Deepest (e ∷ es) ip = elim (Bool-cases (covers e.0 ip)) [
  | inl c ↦ rw c (Deepest-better es ip e (deepest es ip) c (deepest-Deepest es ip))
  | inr c ↦ rw c (not_covered e es ip (deepest es ip) c (deepest-Deepest es ip))
]
  where
    not_covered :
        (e : IpNet × ℕ) (es : Tags) (ip : Ip) (o : Option (IpNet × ℕ))
        → covers e.0 ip ≡ false
        → Deepest es ip o
        → Deepest (e ∷ es) ip o
    not_covered e es ip none c h = (c, h)
    not_covered e es ip (some f) c (m, d, h) =
        (Memᴰ.tail m, d, ((λ b. absurd (ground (arith, c, b))), h))

abbrev tag_of : Option (IpNet × ℕ) → Result (Option ℕ)
tag_of none = ok none
tag_of (some e) = ok (some e.1)

abbrev list_tree : PrefixTree
list_tree = record {
  Tree = Tags;
  new_tree = [];
  add_tag = λ net v t. ok (t ++ (net, v) ∷ []);
  find_deepest_tag = λ ip t. tag_of (deepest t ip);
}

tag_of-IsDeepest :
    (es : Tags) (ip : Ip) (o : Option (IpNet × ℕ)) → Deepest es ip o → IsDeepest es ip (tag_of o)
tag_of-IsDeepest es ip none h = inl (refl, h)
tag_of-IsDeepest es ip (some (net, v)) (m, c, h) = inr (net, v, refl, m, c, h)

list_tree-IsPrefixTree : IsPrefixTree list_tree
list_tree-IsPrefixTree = record {
  tags = λ t. t;
  new_tags = refl;
  adds = λ net v t h. (t ++ (net, v) ∷ [], refl, refl);
  finds = λ ip t. tag_of-IsDeepest t ip (deepest t ip) (deepest-Deepest t ip);
}

-- The nets of the `n` addresses from `low` on.
abbrev singles : ℕ → ℕ → List IpNet
singles low zero = []
singles low (suc n) = record { ip = put_uint32 low; mask = 32 } ∷ singles (suc low) n

-- 2001:db8::, the net of documentation.
abbrev documentation_ip : Ip
documentation_ip = 32 ∷ 1 ∷ 13 ∷ 184 ∷ 0 ∷ 0 ∷ 0 ∷ 0 ∷ 0 ∷ 0 ∷ 0 ∷ 0 ∷ 0 ∷ 0 ∷ 0 ∷ 0 ∷ []

abbrev single_codec : RangeCodec
single_codec = record {
  range_to_ip_nets = λ a b. ok (singles (be_uint32 a) (suc (be_uint32 b) - be_uint32 a));
  parse_cidr = λ s. ok (record { ip = documentation_ip; mask = 32 });
  upper = λ c. c;
  tables = record {
    cc2string = "" ∷ "DE" ∷ "FR" ∷ [];
    string2cc = ("", 0) ∷ ("DE", 1) ∷ ("FR", 2) ∷ [];
  };
}

singles-v4 : (low n : ℕ) → All IsV4Net (singles low n)
unfolding put_uint32
singles-v4 low zero = tt
singles-v4 low (suc n) = ((refl, omega arith), singles-v4 (suc low) n)

single-covers :
    (low : ℕ) (ip : Ip)
    → low < 2 ^ 32
    → length ip ≡ 4
    → covers (record { ip = put_uint32 low; mask = 32 }) ip ≡ (low == be_uint32 ip)
unfolding put_uint32
single-covers low ip h four = rw (four, be_uint32-put low h) (ground arith)

singles-covers :
    (low n : ℕ) (ip : Ip)
    → low + n ≤ 2 ^ 32
    → length ip ≡ 4
    → any_covers (singles low n) ip ≡ (leb low (be_uint32 ip) && ltb (be_uint32 ip) (low + n))
singles-covers low zero ip h four = ground arith
singles-covers low (suc n) ip h four =
    rw (single-covers low ip (omega arith) four, singles-covers (suc low) n ip (omega arith) four)
      (ground arith)

single_codec-splits :
    (low high : ℕ)
    → low ≤ high
    → high < 2 ^ 32
    → (nets : List IpNet) × (single_codec.range_to_ip_nets (put_uint32 low) (put_uint32 high)
        ≡ ok nets)
      × All IsV4Net nets
      × ((ip : Ip)
          → length ip ≡ 4
          → any_covers nets ip ≡ (leb low (be_uint32 ip) && leb (be_uint32 ip) high))
single_codec-splits low high le lt = (
  singles low (suc high - low),
  rw (be_uint32-put low (omega arith), be_uint32-put high lt) refl,
  singles-v4 low (suc high - low),
  λ ip four. singles-covers low (suc high - low) ip (omega arith) four ∙ (ground arith),
)

single_codec-IsRangeCodec : IsRangeCodec single_codec
single_codec-IsRangeCodec = record { splits = single_codec-splits }

-- 5.0.0.0 to 5.0.0.3 in Germany, and 5.0.0.4 to 5.0.0.5 in France.
abbrev two_rows : List Row
two_rows =
    record {
      start = "83886080";
      end = "83886083";
      registry = "ripencc";
      assigned = "1";
      country = "DE";
      rest = [];
    }
    ∷ record {
      start = "83886084";
      end = "83886085";
      registry = "ripencc";
      assigned = "1";
      country = "FR";
      rest = [];
    }
    ∷ []

two_rows-IsRow : All IsRow two_rows
unfolding atoi to_uint32
two_rows-IsRow = (
  (pos 83886080, pos 83886083, refl, refl, ground arith),
  ((pos 83886084, pos 83886085, refl, refl, ground arith), tt),
)

two_rows-IsDisjoint : IsDisjoint two_rows
unfolding atoi to_uint32
two_rows-IsDisjoint = (((λ n e. ground (arith, e)), tt), (tt, tt))

abbrev one_cidr : List CidrRow
one_cidr = record { cidr = "2001:db8::/32"; country = "FR"; rest = [] } ∷ []

one_cidr-IsCidrRow : All (IsCidrRow single_codec) one_cidr
unfolding to4
one_cidr-IsCidrRow =
    ((record { ip = documentation_ip; mask = 32 }, refl, refl, ground arith, refl), tt)

open_software77-scan_example :
    (db : Software77Db list_tree) × (open_software77 list_tree single_codec
        (ok (map fields two_rows))
        (ok (map cidr_fields one_cidr))
        none
      ≡ some (some db, none))
    × ((ip : Ip)
        → length ip ≡ 4
        → lookup_software77 list_tree (some db) ip
          ≡ reply (scan single_codec two_rows (be_uint32 ip)))
open_software77-scan_example =
    open_software77-scan list_tree list_tree-IsPrefixTree single_codec two_rows one_cidr none
      single_codec-IsRangeCodec two_rows-IsRow two_rows-IsDisjoint one_cidr-IsCidrRow

abbrev no_db : Software77Db list_tree
no_db = new_software77_db list_tree

-- A row with too few fields is a panic; one whose country is not known is passed over; one whose end is no
-- number is an error.
row_tests :
    (add_record_v4 list_tree single_codec ("1" ∷ "2" ∷ []) no_db ≡ none)
    × (add_record_v4 list_tree single_codec ("1" ∷ "2" ∷ "r" ∷ "d" ∷ "XX" ∷ []) no_db
        ≡ some (ok no_db))
    × (add_record_v4 list_tree single_codec ("1" ∷ "x" ∷ "r" ∷ "d" ∷ "DE" ∷ []) no_db
        ≡ some (
            err (
              wrap "cannot parse a line" (
                wrap "cannot convert a start ip"
                  (message "strconv.Atoi: parsing \"x\": invalid syntax")))))
unfolding add_record_v4 add_ipv4_range atoi alpha2_to_country_code normalize_alpha2_code to_upper
    map_alpha2 lookup known
row_tests = (refl, refl, refl)

-- A 4-byte address of each range, and one of none.
lookup_tests :
    (scan single_codec two_rows (be_uint32 (5 ∷ 0 ∷ 0 ∷ 3 ∷ [])) ≡ some 1)
    × (scan single_codec two_rows (be_uint32 (5 ∷ 0 ∷ 0 ∷ 5 ∷ [])) ≡ some 2)
    × (scan single_codec two_rows (be_uint32 (5 ∷ 0 ∷ 0 ∷ 6 ∷ [])) ≡ none)
unfolding be_uint32 be_from to_uint32 atoi alpha2_to_country_code normalize_alpha2_code to_upper
    map_alpha2 lookup known
lookup_tests = (refl, refl, refl)
