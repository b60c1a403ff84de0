-- ===== src/Providers/Software77/Rows.antt =====
-- The lines of the IPv4 file of providers/software77.go, and the reference that a database is compared
-- with: a scan over them.
use topographer.Base.{
  ℕ, ◌≤◌, ◌≡◌, String, Bool, true, false, ◌&&◌, Option, none, some, List, [], ◌∷◌, All, nat_eq, leb,
  if◌then◌else◌,
}
use topographer.Base.Time.{ℤ}
use topographer.Errors.{Result, ok}
use topographer.Country.{known, alpha2_to_country_code}
use topographer.Providers.Net.{to_uint32, atoi}
use topographer.Providers.Software77.{RangeCodec}

-- A line of the IPv4 file: from, to, registry, date, country, and what follows.
pub record Row : Type 0 where
  pub start : String
  pub end : String
  pub registry : String
  pub assigned : String
  pub country : String
  pub rest : List String

abbrev pub fields : Row → Result (List String)
fields r = ok (r.start ∷ r.end ∷ r.registry ∷ r.assigned ∷ r.country ∷ r.rest)

-- Both ends are numbers, and as unsigned 32-bit numbers they are in order.
abbrev pub IsRow : Row → Type 0
IsRow r =
    (low : ℤ) × (high : ℤ) × (atoi r.start ≡ ok low)
    × (atoi r.end ≡ ok high)
    × (to_uint32 low ≤ to_uint32 high)

abbrev within : Result ℤ → Result ℤ → ℕ → Bool
within (ok low) (ok high) n = leb (to_uint32 low) n && leb n (to_uint32 high)
within _ _ n = false

-- The address, as a number, is in the row's range.
abbrev pub is_in : Row → ℕ → Bool
is_in r n = within (atoi r.start) (atoi r.end) n

-- No address is in two rows.
abbrev pub IsDisjoint : List Row → Type 0
IsDisjoint [] = Unit
IsDisjoint (r ∷ rs) = All (λ q. (n : ℕ) → is_in r n ≡ true → is_in q n ≡ false) rs × IsDisjoint rs

module _ (c : RangeCodec) where
  abbrev pub code_of : Row → ℕ
  code_of r = alpha2_to_country_code c.upper c.tables r.country

  -- The row gives the address a country.
  abbrev pub applies : Row → ℕ → Bool
  applies r n = known (code_of r) && is_in r n

  -- The reference: the country of the first row that gives one.
  abbrev pub scan : List Row → ℕ → Option ℕ
  scan [] n = none
  scan (r ∷ rs) n = if applies r n then some (code_of r) else scan rs n
