-- ===== src/Merge/Verdict.antt =====
-- The country that resolveIPMerge (topolib/topographer.go) selects has the most votes.
use native.Mathlib.Bridge.{le_prop}
use mathlib.Core.Logic.{∥∥₁_elim}
use mathlib.Core.List.{Memᴰ, Perm}
use topographer.Base.{
  ℕ, zero, suc, ◌≤◌, ◌<◌, ◌≡◌, refl, sym, ap, ◌∙◌, ◌⊎◌, inl, inr, none, some, List, [], ◌∷◌, nat_eq,
  length, arith, Option-cases, String-set,
}
use topographer.Base.Assoc.{lookup}
use topographer.Base.Assoc.Laws.{lookup_of_visit, visit_of_lookup}
use topographer.Structs.{ResolveResultDetail}
use topographer.Merge.{get_or_nil, group_from, Selection, no_selection, select_country}
use topographer.Merge.Groups.{
  votes, group_from-HasDistinctKeys, group_from-votes, group_from-unknown, select_country-most,
  select_country-IsFrom,
}

List-set : IsSet (List ResolveResultDetail)
List-set = hlevel String-set

groups-votes :
    (ds : List ResolveResultDetail) (c : ℕ)
    → 0 < c
    → get_or_nil (lookup c (group_from [] ds)) ≡ votes c ds
unfolding lookup
groups-votes ds c h = group_from-votes [] ds c h

groups-unknown : (ds : List ResolveResultDetail) → lookup 0 (group_from [] ds) ≡ none
unfolding lookup
groups-unknown ds = group_from-unknown [] ds

positive_of :
    (ds : List ResolveResultDetail) (c : ℕ) (g : List ResolveResultDetail)
    → lookup c (group_from [] ds) ≡ some g
    → 0 < c
positive_of ds zero g e = cc (groups-unknown ds)
positive_of ds (suc c) g e = omega arith

nil_of_length : (l : List ResolveResultDetail) → length l ≤ 0 → l ≡ []
nil_of_length [] h = refl
nil_of_length (d ∷ l) h = absurd (omega arith)

-- No result names a country and nothing is selected; or the selection is a known country with
-- those who voted for it, at least one, and no known country has more votes.
abbrev pub IsVerdict : List ResolveResultDetail → Selection → Type 0
IsVerdict ds r =
    ((r ≡ no_selection) × ((c : ℕ) → 0 < c → votes c ds ≡ []))
    ⊎ ((0 < r.selected_country)
        × (r.city_results ≡ votes r.selected_country ds)
        × (0 < length r.city_results)
        × ((c : ℕ) → 0 < c → length (votes c ds) ≤ length r.city_results))

module _ (ds : List ResolveResultDetail) (es : List (ℕ × List ResolveResultDetail))
    (visit : Perm es (group_from [] ds)) where
  votes-most : (c : ℕ) → 0 < c → length (votes c ds) ≤ (select_country no_selection es).max_len
  votes-most c h = elim (Option-cases (lookup c (group_from [] ds))) [
    | inl e ↦ omega (arith, ap length (sym (groups-votes ds c h) ∙ ap get_or_nil e))
    | inr (g, e) ↦ rw (sym (groups-votes ds c h) ∙ ap get_or_nil e) (
        ∥∥₁_elim (visit_of_lookup c g _ es visit e) le_prop
          (select_country-most no_selection es c g))
  ]

  selected_entry :
      (c : ℕ) (g : List ResolveResultDetail) → Memᴰ (c, g) es → (0 < c) × (g ≡ votes c ds)
  selected_entry c g m =
      let e = lookup_of_visit List-set c g _ es (group_from-HasDistinctKeys [] ds tt) visit m in
      let positive = positive_of ds c g e in
      (positive, sym (sym (groups-votes ds c positive) ∙ ap get_or_nil e))

  -- Whatever the order in which the loop visits the countries: nothing is selected if no result names
  -- a known country; otherwise a known country is selected with exactly the results that name it,
  -- and no known country is named by more results.
  pub select_country-IsVerdict : IsVerdict ds (select_country no_selection es)
  select_country-IsVerdict = elim (select_country-IsFrom no_selection es) [
    | inl same ↦ inl (same, λ c h. nil_of_length _ (rw same at (votes-most c h)))
    | inr (m, l, p) ↦
        let (positive, mine) = selected_entry _ _ m in
        inr (positive, mine, omega arith, λ c h. omega (arith, votes-most c h))
  ]
