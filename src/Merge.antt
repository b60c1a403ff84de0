-- ===== src/Merge.antt =====
-- resolveIPMerge and resolveIPMergeCity of topolib/topographer.go: the vote on the country, and on
-- the city among those who chose that country. The `range` loops take the entries of their map in
-- the order in which they come; DoubleMetaphone of matchr is an argument.
pub mod Groups
pub mod Cities
pub mod Verdict
pub mod Names
pub mod Consensus
mod Samples
use topographer.Base.{
  ℕ, suc, ◌+◌, String, Bool, Option, none, some, List, [], ◌∷◌, ◌++◌, ◌==◌, nat_eq, string_eq, ltb,
  if◌then◌else◌, length,
}
use topographer.Base.Assoc.{lookup, insert, get_or_zero}
use topographer.Structs.{Ip, to16, CountryInfo, no_country, ResolveResultDetail, ResolveResult}
use topographer.Country.{Details, CodeTables, known, details}

abbrev pub get_or_nil {ℓ} : {A : Type ℓ} → Option (List A) → List A
get_or_nil none = []
get_or_nil (some l) = l

abbrev pub get_or_empty : Option String → String
get_or_empty none = ""
get_or_empty (some s) = s

-- One round of the loop that fills `countries`.
unfoldable pub add_result :
    List (ℕ × List ResolveResultDetail) → ResolveResultDetail → List (ℕ × List ResolveResultDetail)
unfolding known
add_result countries current =
    let c = current.country_code in
    if known c
    then insert c (get_or_nil (lookup c countries) ++ current ∷ []) countries
    else countries

unfoldable pub group_from :
    List (ℕ × List ResolveResultDetail)
    → List ResolveResultDetail
    → List (ℕ × List ResolveResultDetail)
group_from countries [] = countries
group_from countries (current ∷ results) = group_from (add_result countries current) results

pub record Selection : Type 0 where
  pub city_results : List ResolveResultDetail
  pub selected_country : ℕ
  pub max_len : ℕ

abbrev pub no_selection : Selection
no_selection = record { city_results = []; selected_country = 0; max_len = 0 }

-- One round of the loop over `countries`.
unfoldable pub choose : Selection → ℕ → List ResolveResultDetail → Selection
choose s country group =
    if ltb s.max_len (length group)
    then record { city_results = group; selected_country = country; max_len = length group }
    else s

unfoldable pub select_country : Selection → List (ℕ × List ResolveResultDetail) → Selection
select_country s [] = s
select_country s ((country, group) ∷ rest) = select_country (choose s country group) rest

pub record CityCounts : Type 0 where
  pub counters : List (String × ℕ)
  pub names : List (String × String)

module _ (double_metaphone : String → String) where
  -- One round of the loop that fills `counters` and `names`.
  unfoldable pub count_city : CityCounts → ResolveResultDetail → CityCounts
  count_city m v =
      let k = double_metaphone v.city in
      if v.city == "" then m else record {
        counters = insert k (get_or_zero (lookup k m.counters) + 1) m.counters;
        names = insert k v.city m.names;
      }

  unfoldable pub count_cities : CityCounts → List ResolveResultDetail → CityCounts
  count_cities m [] = m
  count_cities m (v ∷ results) = count_cities (count_city m v) results

-- One round of the loop over `counters`; the pair is `cityName`, `maxLen`.
unfoldable pub choose_city : List (String × String) → String × ℕ → String → ℕ → String × ℕ
choose_city names best k v = if ltb best.1 v then (get_or_empty (lookup k names), v) else best

unfoldable pub select_city : List (String × String) → String × ℕ → List (String × ℕ) → String × ℕ
select_city names best [] = best
select_city names best ((k, v) ∷ rest) = select_city names (choose_city names best k v) rest

-- The orders in which the two maps are visited.
pub record RangeOrder : Type 0 where
  pub countries : List (ℕ × List ResolveResultDetail) → List (ℕ × List ResolveResultDetail)
  pub counters : List (String × ℕ) → List (String × ℕ)

abbrev pub info_of : Details → CountryInfo
info_of d = record {
  alpha2_code = d.alpha2;
  alpha3_code = d.alpha3;
  common_name = d.common_name;
  official_name = d.official_name;
}

abbrev pub country_info : Option Details → Option CountryInfo
country_info none = none
country_info (some d) = some (info_of d)

abbrev pub result_of : Ip → String → List ResolveResultDetail → CountryInfo → ResolveResult
result_of ip city results c = record { ip = to16 ip; country = c; city = city; details = results }

abbrev pub with_country :
    Ip → String → List ResolveResultDetail → Option CountryInfo → Option ResolveResult
with_country ip city results none = none
with_country ip city results (some c) = some (result_of ip city results c)

module _ (double_metaphone : String → String) (order : RangeOrder) where
  unfoldable pub resolve_ip_merge_city : List ResolveResultDetail → String
  resolve_ip_merge_city results =
      let m = count_cities double_metaphone (record { counters = []; names = [] }) results in
      (select_city m.names ("", 0) (order.counters m.counters)).0

  -- `none` is the panic of a country code outside of the table.
  unfoldable pub resolve_ip_merge :
      List (String × Details) → CodeTables → Ip → List ResolveResultDetail → Option ResolveResult
  resolve_ip_merge countries t ip results =
      let s = select_country no_selection (order.countries (group_from [] results)) in
      with_country ip (resolve_ip_merge_city s.city_results) results (
        if known s.selected_country
        then country_info (details countries t s.selected_country)
        else some no_country)
