-- ===== src/Country.antt =====
-- topolib/country_codes.go: the two tables that `init` fills from the countries of gountries, and
-- the functions on codes. The gountries data, and Go's Unicode table of upper-case letters, are
-- arguments; a `CountryCode` is a uint8. An index out of range panics, which is `none`.
pub mod Normal
pub mod Tables
mod Samples
use Prim.Native.Char.{Char, code}
use Prim.Native.String
use topographer.Base.{
  ℕ, ◌+◌, ◌-◌, ◌%◌, ◌^◌, String, Bool, Option, none, some, List, [], ◌∷◌, ◌++◌, ◌||◌, ◌==◌, nat_eq,
  string_eq, if◌then◌else◌, ltb, length, get_elem?,
}
use topographer.Base.Assoc.{lookup, insert, get_or_zero}

-- gountries.Country, as far as it is used.
pub record Details : Type 0 where
  pub alpha2 : String
  pub alpha3 : String
  pub common_name : String
  pub official_name : String

abbrev pub no_details : Details
no_details = record { alpha2 = ""; alpha3 = ""; common_name = ""; official_name = "" }

-- countryCodeMapCC2String and countryCodeMapString2CC.
pub record CodeTables : Type 0 where
  pub cc2string : List String
  pub string2cc : List (String × ℕ)

abbrev pub empty_tables : CodeTables
empty_tables = record { cc2string = "" ∷ []; string2cc = ("", 0) ∷ [] }

unfoldable pub known : ℕ → Bool
known c = ltb 0 c

unfoldable pub string_of : CodeTables → ℕ → Option String
string_of t c = get_elem? t.cc2string c

-- The bytes of the JSON text: the code between quotes.
unfoldable pub marshal_json : CodeTables → ℕ → Option String
unfolding string_of
marshal_json t c = elim (string_of t c) [
  | none ↦ none
  | some s ↦ some (String.◌++◌ "\"" (String.◌++◌ s "\""))
]

-- `countryCodeQuery.Countries[c.String()]`; a missing key gives the zero value.
unfoldable pub details : List (String × Details) → CodeTables → ℕ → Option Details
unfolding string_of
details countries t c = elim (string_of t c) [
  | none ↦ none
  | some s ↦ some (elim (lookup s countries) [ none ↦ no_details | some d ↦ d ])
]

-- Go's `len` of a string: the bytes of its UTF-8 encoding.
abbrev utf8_len : ℕ → ℕ
utf8_len n = if ltb n 128 then 1 else if ltb n 2048 then 2 else if ltb n 65536 then 3 else 4

abbrev pub byte_len : String → ℕ
byte_len String.[] = 0
byte_len (String.◌∷◌ c s) = utf8_len (code c) + byte_len s

-- The `switch` of NormalizeAlpha2Code.
unfoldable pub map_alpha2 : String → String
map_alpha2 s =
    if s == "ZZ" || s == "AP" || s == "EU"
    then ""
    else if s == "YU"
    then "CS"
    else if s == "FX"
    then "FR"
    else if s == "UK"
    then "GB"
    else s

module _ (upper : Char → Char) where
  -- strings.ToUpper.
  unfoldable pub to_upper : String → String
  to_upper String.[] = String.[]
  to_upper (String.◌∷◌ c s) = String.◌∷◌ (upper c) (to_upper s)

  unfoldable pub normalize_alpha2_code : String → String
  normalize_alpha2_code alpha2 =
      let alpha2 = to_upper alpha2 in if byte_len alpha2 == 2 then map_alpha2 alpha2 else ""

  unfoldable pub alpha2_to_country_code : CodeTables → String → ℕ
  alpha2_to_country_code t alpha2 = get_or_zero (lookup (normalize_alpha2_code alpha2) t.string2cc)

  -- `alpha3_to_alpha2` is the table of gountries.
  unfoldable pub alpha3_to_country_code : List (String × String) → CodeTables → String → ℕ
  unfolding alpha2_to_country_code
  alpha3_to_country_code alpha3_to_alpha2 t alpha3 =
      alpha2_to_country_code t
        (elim (lookup (to_upper alpha3) alpha3_to_alpha2) [ none ↦ "" | some a ↦ a ])

  -- One round of the loop of `init`, for the normalised key.
  unfoldable pub enter_code : CodeTables → String → CodeTables
  enter_code t k = if k == "" then t else elim (lookup k t.string2cc) [
    | some c ↦ t
    | none ↦
        let codes = t.cc2string ++ k ∷ [] in
        record { cc2string = codes; string2cc = insert k ((length codes - 1) % 2 ^ 8) t.string2cc }
  ]

  -- The loop of `init` over the keys of `Countries`, which come in any order.
  unfoldable pub load : CodeTables → List String → CodeTables
  load t [] = t
  load t (k ∷ ks) = load (enter_code t (normalize_alpha2_code k)) ks

  unfoldable pub init : List String → CodeTables
  unfolding load
  init keys = load empty_tables keys
