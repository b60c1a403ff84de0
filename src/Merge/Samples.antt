-- ===== src/Merge/Samples.antt =====
-- Votes of three providers (resolveIPMerge of topolib/topographer.go). A city sounds as it is
-- spelled here, and the maps are visited in the order of their first keys.
use mathlib.Core.List.Perm
use topographer.Base.{ℕ, String, ◌≡◌, refl, some, List, [], ◌∷◌, arith}
use topographer.Base.Assoc.{lookup, insert}
use topographer.Structs.{Ip, to16, ResolveResultDetail, ResolveResult}
use topographer.Country.{Details, CodeTables, known, string_of, details}
use topographer.Merge.{
  add_result, group_from, choose, select_country, no_selection, count_city, count_cities,
  choose_city, select_city, RangeOrder, resolve_ip_merge_city, resolve_ip_merge,
}
use topographer.Merge.Verdict.{IsVerdict, select_country-IsVerdict}
use topographer.Merge.Names.{IsCityVerdict, resolve_ip_merge_city-IsCityVerdict}
use topographer.Merge.Consensus.{
  IsRange, IsConsensus, resolve_ip_merge-IsConsensus, resolve_ip_merge-total,
}

program : Unit {0}
unfolding add_result group_from choose select_country count_city count_cities choose_city
    select_city resolve_ip_merge_city resolve_ip_merge known string_of details lookup insert to16
program = tt

abbrev detail : String → ℕ → String → ResolveResultDetail
detail name code city = record { provider_name = name; country_code = code; city = city }

abbrev given : List ResolveResultDetail
given =
    detail "a" 1 "Lima"
    ∷ detail "b" 2 "Oslo"
    ∷ detail "c" 0 ""
    ∷ detail "d" 2 "Bergen"
    ∷ detail "e" 2 "Oslo"
    ∷ []

abbrev same : String → String
same s = s

abbrev in_order : RangeOrder
in_order = record { countries = λ m. m; counters = λ m. m }

in_order-IsRange : IsRange in_order
in_order-IsRange = record { countries = λ m. Perm.refl m; counters = λ m. Perm.refl m }

abbrev tables : CodeTables
tables = record {
  cc2string = "" ∷ "PE" ∷ "NO" ∷ [];
  string2cc = ("", 0) ∷ ("PE", 1) ∷ ("NO", 2) ∷ [];
}

abbrev norway : Details
norway = record {
  alpha2 = "NO";
  alpha3 = "NOR";
  common_name = "Norway";
  official_name = "Kingdom of Norway";
}

abbrev countries : List (String × Details)
countries = ("NO", norway) ∷ []

abbrev address : Ip
address = 1 ∷ 2 ∷ 3 ∷ 4 ∷ []

abbrev merged : ResolveResult
merged = record {
  ip = 0 ∷ 0 ∷ 0 ∷ 0 ∷ 0 ∷ 0 ∷ 0 ∷ 0 ∷ 0 ∷ 0 ∷ 255 ∷ 255 ∷ 1 ∷ 2 ∷ 3 ∷ 4 ∷ [];
  country = record {
    alpha2_code = "NO";
    alpha3_code = "NOR";
    common_name = "Norway";
    official_name = "Kingdom of Norway";
  };
  city = "Oslo";
  details = given;
}

merge_runs : resolve_ip_merge same in_order countries tables address given ≡ some merged
unfolding program
merge_runs = refl

select_country-IsVerdict_example :
    IsVerdict given (select_country no_selection (in_order.countries (group_from [] given)))
select_country-IsVerdict_example =
    select_country-IsVerdict given (group_from [] given) (Perm.refl (group_from [] given))

resolve_ip_merge_city-IsCityVerdict_example :
    IsCityVerdict same given (resolve_ip_merge_city same in_order given)
resolve_ip_merge_city-IsCityVerdict_example =
    resolve_ip_merge_city-IsCityVerdict same in_order given (λ m. Perm.refl m)

resolve_ip_merge-IsConsensus_example : IsConsensus same countries tables address given merged
resolve_ip_merge-IsConsensus_example =
    resolve_ip_merge-IsConsensus same in_order in_order-IsRange countries tables address given
      merged merge_runs

resolve_ip_merge-total_example :
    (r : ResolveResult) × (resolve_ip_merge same in_order countries tables address given ≡ some r)
resolve_ip_merge-total_example =
    resolve_ip_merge-total same in_order in_order-IsRange countries tables address given
      (omega arith)
