-- ===== src/Merge/Consensus.antt =====
-- The result of resolveIPMerge (topolib/topographer.go) as a whole.
use mathlib.Core.List.{Perm}
use topographer.Base.{
  ℕ, zero, suc, ◌<◌, String, ◌≡◌, refl, ap, ◌⊎◌, inl, inr, Option, none, some, List, [], ◌∷◌,
  nat_eq, string_eq, length, arith, All, get_elem?, if◌then◌else◌,
}
use topographer.Base.Assoc.{lookup}
use topographer.Structs.{Ip, to16, ResolveResultDetail, ResolveResult, CountryInfo, no_country}
use topographer.Country.{Details, no_details, CodeTables, known, details}
use topographer.Merge.{
  group_from, Selection, no_selection, select_country, RangeOrder, resolve_ip_merge_city,
  country_info, info_of, result_of, with_country, resolve_ip_merge,
}
use topographer.Merge.Groups.{votes}
use topographer.Merge.Verdict.{IsVerdict, select_country-IsVerdict}
use topographer.Merge.Names.{IsCityVerdict, resolve_ip_merge_city-IsCityVerdict}

-- A `range` loop visits each entry of its map once.
pub record IsRange (order : RangeOrder) : Type 0 where
  pub countries : (m : List (ℕ × List ResolveResultDetail)) → Perm (order.countries m) m
  pub counters : (m : List (String × ℕ)) → Perm (order.counters m) m

-- The country's data belong to a country with the most votes (none has a vote if they are empty),
-- the city is the verdict of those who voted for that country.
pub record IsConsensus (dm : String → String) (countries : List (String × Details)) (t : CodeTables)
    (addr : Ip) (ds : List ResolveResultDetail) (r : ResolveResult) : Type 0 where
  pub selection : Selection
  pub verdict : IsVerdict ds selection
  pub city : IsCityVerdict dm selection.city_results r.city
  pub country :
      (selection.selected_country ≡ 0 → r.country ≡ no_country)
      × (0 < selection.selected_country
          → country_info (details countries t selection.selected_country) ≡ some r.country)
  pub ip : r.ip ≡ to16 addr
  pub details : r.details ≡ ds

with_country_inv :
    (ip : Ip) (city : String) (ds : List ResolveResultDetail) (o : Option CountryInfo)
    (r : ResolveResult)
    → with_country ip city ds o ≡ some r
    → (o ≡ some r.country) × (r.ip ≡ to16 ip) × (r.city ≡ city) × (r.details ≡ ds)
with_country_inv ip city ds none r e = cc
with_country_inv ip city ds (some c) r e = ground arith

-- Some result has the code that is selected.
voted_code :
    (c bound : ℕ) (ds : List ResolveResultDetail)
    → All (λ d. d.country_code < bound) ds
    → 0 < length (votes c ds)
    → c < bound
voted_code c bound [] h p = elim p [ ]
voted_code c bound (d ∷ ds) h p = ground (arith, voted_code c bound ds h.1)

get_elem?-some : (l : List String) (i : ℕ) → i < length l → (s : String) × (get_elem? l i ≡ some s)
get_elem?-some [] i h = elim h [ ]
get_elem?-some (s ∷ l) zero h = (s, refl)
get_elem?-some (s ∷ l) (suc i) h = get_elem?-some l i (omega arith)

module _ (dm : String → String) (order : RangeOrder) (visit : IsRange order)
    (countries : List (String × Details)) (t : CodeTables) where
  selection : List ResolveResultDetail → Selection
  selection ds = select_country no_selection (order.countries (group_from [] ds))

  selection-IsVerdict : (ds : List ResolveResultDetail) → IsVerdict ds (selection ds)
  unfolding selection
  selection-IsVerdict ds = select_country-IsVerdict ds _ (visit.countries _)

  country_cases :
      (c : ℕ) (info : CountryInfo)
      → (if known c then country_info (details countries t c) else some no_country) ≡ some info
      → (c ≡ 0 → info ≡ no_country) × (0 < c → country_info (details countries t c) ≡ some info)
  unfolding known
  country_cases c info e = (λ h. ground arith, λ h. ground arith)

  -- If the merge gives a result, whatever the orders in which the maps are visited: either no given
  -- detail names a country, and the result has none; or the result has the data of a country which
  -- no other one beats in votes. If some who voted for it (or nobody, without a country) report a
  -- city, the result's city is one that they report, and no sound has more of their reports than its
  -- sound; else it is empty. The address, in 16 bytes, and the details are those given.
  pub resolve_ip_merge-IsConsensus :
      (ip : Ip) (ds : List ResolveResultDetail) (r : ResolveResult)
      → resolve_ip_merge dm order countries t ip ds ≡ some r
      → IsConsensus dm countries t ip ds r
  unfolding resolve_ip_merge
  resolve_ip_merge-IsConsensus ip ds r e =
      let (info, addr, city, all) = with_country_inv ip _ ds _ r e in
      record {
        selection = selection ds;
        verdict = selection-IsVerdict ds;
        city =
            rw city
              (unfold selection in resolve_ip_merge_city-IsCityVerdict dm order _ visit.counters);
        country = unfold selection in country_cases _ _ info;
        ip = addr;
        details = all;
      }

  details_total :
      (c : ℕ) → c < length t.cc2string → (d : Details) × (details countries t c ≡ some d)
  unfolding details
  details_total c h =
      let (s, e) = get_elem?-some t.cc2string c h in
      (elim (lookup s countries) [ none ↦ no_details | some d ↦ d ], rw (e, details) refl)

  info_total :
      (c : ℕ)
      → c < length t.cc2string
      → (info : CountryInfo) × (country_info (details countries t c) ≡ some info)
  info_total c h = let (d, e) = details_total c h in (info_of d, rw e refl)

  selected_bound :
      (ds : List ResolveResultDetail)
      → All (λ d. d.country_code < length t.cc2string) ds
      → let c =
          (select_country no_selection (order.countries (group_from [] ds))).selected_country in
        (c ≡ 0) ⊎ (c < length t.cc2string)
  selected_bound ds h = elim (select_country-IsVerdict ds _ (visit.countries (group_from [] ds))) [
    | inl (same, _) ↦ inl (ap (λ (s : Selection). s.selected_country) same)
    | inr (positive, mine, some', _) ↦ inr (voted_code _ _ ds h (rw mine at some'))
  ]

  selected_info :
      (c : ℕ)
      → (c ≡ 0) ⊎ (c < length t.cc2string)
      → (info : CountryInfo) × ((if known c
            then country_info (details countries t c)
            else some no_country)
          ≡ some info)
  unfolding known
  selected_info c (inl e) = (no_country, rw e)
  selected_info zero (inr h) = (no_country, refl)
  selected_info (suc c) (inr h) = let (info, e) = info_total (suc c) h in (info, ground arith)

  -- If every result has a code of the table, the merge does not panic: there is a result.
  pub resolve_ip_merge-total :
      (ip : Ip) (ds : List ResolveResultDetail)
      → All (λ d. d.country_code < length t.cc2string) ds
      → (r : ResolveResult) × (resolve_ip_merge dm order countries t ip ds ≡ some r)
  unfolding resolve_ip_merge selection
  resolve_ip_merge-total ip ds h =
      let (info, e) = selected_info _ (selected_bound ds h) in
      (result_of ip (resolve_ip_merge_city dm order (selection ds).city_results) ds info, rw e refl)
