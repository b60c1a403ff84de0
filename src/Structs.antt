-- ===== src/Structs.antt =====
-- topolib/structs.go, and the addresses of package net: a `net.IP` is its bytes, nil the empty one.
use topographer.Base.{
  ℕ, ◌≡◌, refl, ◌↔◌, Eq, nat_beq, true, false, arith, String, Bool, List, [], ◌∷◌, ◌++◌, ◌&&◌, not,
  ◌==◌, nat_eq, string_eq, if◌then◌else◌, length,
}

abbrev pub Ip : Type 0
Ip = List ℕ

unfoldable pub ip_beq : Ip → Ip → Bool
ip_beq [] [] = true
ip_beq (a ∷ as') (b ∷ bs) = nat_beq a b && ip_beq as' bs
ip_beq _ _ = false

eq_of_ip_beq : (a b : Ip) → ip_beq a b ≡ true → a ≡ b
unfolding ip_beq
eq_of_ip_beq [] [] h = refl
eq_of_ip_beq (a ∷ as') (b ∷ bs) h = ground (arith, eq_of_ip_beq as' bs)
eq_of_ip_beq [] (b ∷ bs) h = cc
eq_of_ip_beq (a ∷ as') [] h = cc

ip_beq_refl : (b : Ip) → ip_beq b b ≡ true
unfolding ip_beq
ip_beq_refl [] = refl
ip_beq_refl (b ∷ bs) = ground (arith, ip_beq_refl bs)

pub ip_beq_iff : (a b : Ip) → (ip_beq a b ≡ true) ↔ (a ≡ b)
ip_beq_iff a b = (eq_of_ip_beq a b, λ e. rw e (ip_beq_refl b))

-- `string(ip)` as a key of a map.
instance abbrev pub ip_eq : Eq Ip
ip_eq = record { equal = ip_beq; equal_iff = ip_beq_iff }

-- ::ffff:0:0/96, which holds the IPv4 addresses.
abbrev pub v4_prefix : Ip
v4_prefix = 0 ∷ 0 ∷ 0 ∷ 0 ∷ 0 ∷ 0 ∷ 0 ∷ 0 ∷ 0 ∷ 0 ∷ 255 ∷ 255 ∷ []

-- `IP.To16`.
unfoldable pub to16 : Ip → Ip
to16 ip = if length ip == 4 then v4_prefix ++ ip else if length ip == 16 then ip else []

pub record CountryInfo : Type 0 where
  pub alpha2_code : String
  pub alpha3_code : String
  pub common_name : String
  pub official_name : String

pub record ResolveResultDetail : Type 0 where
  pub provider_name : String
  pub country_code : ℕ
  pub city : String

pub record ResolveResult : Type 0 where
  pub ip : Ip
  pub country : CountryInfo
  pub city : String
  pub details : List ResolveResultDetail

-- `OK`: the country and the city were found.
unfoldable pub is_ok : ResolveResult → Bool
is_ok r = not (r.country.alpha2_code == "") && not (r.city == "")

pub record ProviderLookupResult : Type 0 where
  pub country_code : ℕ
  pub city : String

abbrev pub no_country : CountryInfo
no_country = record { alpha2_code = ""; alpha3_code = ""; common_name = ""; official_name = "" }

-- The result before anything is known of the address.
abbrev pub blank_result : Ip → ResolveResult
blank_result ip = record { ip = ip; country = no_country; city = ""; details = [] }
