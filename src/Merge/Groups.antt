-- ===== src/Merge/Groups.antt =====
-- The vote on the country (resolveIPMerge of topolib/topographer.go) against an independent count.
use mathlib.Core.List.{Memᴰ, append_assoc, append-nil}
use topographer.Base.{
  ℕ, ◌≤◌, ◌<◌, ◌≡◌, refl, sym, ap, ◌∙◌, ◌⊎◌, inl, inr, List, [], ◌∷◌, ◌++◌, ◌==◌, nat_eq, ltb,
  if◌then◌else◌, length, arith, Bool-cases,
}
use topographer.Base.Assoc.{lookup, lookup-insert}
use topographer.Base.Assoc.Laws.{HasDistinctKeys, insert-HasDistinctKeys}
use topographer.Structs.{ResolveResultDetail}
use topographer.Merge.{get_or_nil, add_result, choose, group_from, Selection, select_country}

-- The results that name the country `c`, in their order.
abbrev pub votes : ℕ → List ResolveResultDetail → List ResolveResultDetail
votes c [] = []
votes c (d ∷ ds) = if d.country_code == c then d ∷ votes c ds else votes c ds

abbrev pub Groups : Type 0
Groups = List (ℕ × List ResolveResultDetail)

add_result-HasDistinctKeys :
    (m : Groups) (d : ResolveResultDetail) → HasDistinctKeys m → HasDistinctKeys (add_result m d)
unfolding add_result
add_result-HasDistinctKeys m d h = elim (Bool-cases (ltb 0 d.country_code)) [
  | inl more ↦ rw more (insert-HasDistinctKeys _ _ m h)
  | inr none' ↦ rw none' h
]

pub group_from-HasDistinctKeys :
    (m : Groups) (ds : List ResolveResultDetail)
    → HasDistinctKeys m
    → HasDistinctKeys (group_from m ds)
unfolding group_from
group_from-HasDistinctKeys m [] h = h
group_from-HasDistinctKeys m (d ∷ ds) h =
    group_from-HasDistinctKeys (add_result m d) ds (add_result-HasDistinctKeys m d h)

add_result-votes :
    (m : Groups) (d : ResolveResultDetail) (c : ℕ)
    → 0 < c
    → get_or_nil (lookup c (add_result m d)) ≡ get_or_nil (lookup c m) ++ votes c (d ∷ [])
unfolding add_result
add_result-votes m d c h =
    let k = d.country_code in
    let g = get_or_nil (lookup k m) ++ d ∷ [] in
    ground (arith, lookup-insert k c g m, append-nil (get_or_nil (lookup c m)))

votes-cons :
    (c : ℕ) (d : ResolveResultDetail) (ds : List ResolveResultDetail)
    → votes c (d ∷ []) ++ votes c ds ≡ votes c (d ∷ ds)
votes-cons c d ds = ground arith

pub group_from-votes :
    (m : Groups) (ds : List ResolveResultDetail) (c : ℕ)
    → 0 < c
    → get_or_nil (lookup c (group_from m ds)) ≡ get_or_nil (lookup c m) ++ votes c ds
unfolding group_from
group_from-votes m [] c h = sym (append-nil _)
group_from-votes m (d ∷ ds) c h =
    group_from-votes (add_result m d) ds c h
    ∙ (ap (λ g. g ++ votes c ds) (add_result-votes m d c h)
        ∙ (append_assoc (get_or_nil (lookup c m)) (votes c (d ∷ [])) (votes c ds)
            ∙ ap (λ g. get_or_nil (lookup c m) ++ g) (votes-cons c d ds)))

pub group_from-unknown :
    (m : Groups) (ds : List ResolveResultDetail) → lookup 0 (group_from m ds) ≡ lookup 0 m
unfolding group_from add_result
group_from-unknown m [] = refl
group_from-unknown m (d ∷ ds) = ground (
  arith,
  group_from-unknown (add_result m d) ds,
  lookup-insert d.country_code 0 (get_or_nil (lookup d.country_code m) ++ d ∷ []) m,
)

-- What the loop over the groups has found.
choose_cases :
    (s : Selection) (c : ℕ) (g : List ResolveResultDetail)
    → ((choose s c g ≡ s) × (length g ≤ s.max_len))
      ⊎ ((choose s c g ≡ record { city_results = g; selected_country = c; max_len = length g })
          × (s.max_len < length g))
unfolding choose
choose_cases s c g = ground arith

choose-most :
    (s : Selection) (c : ℕ) (g : List ResolveResultDetail)
    → (s.max_len ≤ (choose s c g).max_len) × (length g ≤ (choose s c g).max_len)
unfolding choose
choose-most s c g = ground arith

select_country-grows : (s : Selection) (es : Groups) → s.max_len ≤ (select_country s es).max_len
unfolding select_country
select_country-grows s [] = omega arith
select_country-grows s ((c, g) ∷ es) =
    omega (arith, select_country-grows (choose s c g) es, choose-most s c g)

pub select_country-most :
    (s : Selection) (es : Groups) (c : ℕ) (g : List ResolveResultDetail)
    → Memᴰ (c, g) es
    → length g ≤ (select_country s es).max_len
unfolding select_country
select_country-most s [] c g m = elim m [ ]
select_country-most s ((j, w) ∷ es) c g (Memᴰ.head e) =
    let same = ap (λ (x : ℕ × List ResolveResultDetail). length x.1) e in
    omega (arith, same, select_country-grows (choose s j w) es, choose-most s j w)
select_country-most s ((j, w) ∷ es) c g (Memᴰ.tail m) = select_country-most (choose s j w) es c g m

-- The selection stands for an entry of the map.
abbrev pub IsFrom : Groups → Selection → Type 0
IsFrom es r =
    Memᴰ (r.selected_country, r.city_results) es
    × (r.max_len ≡ length r.city_results)
    × (0 < r.max_len)

IsFrom-cons :
    (e : ℕ × List ResolveResultDetail) (es : Groups) (r : Selection)
    → IsFrom es r
    → IsFrom (e ∷ es) r
IsFrom-cons e es r (m, l, p) = (Memᴰ.tail m, l, p)

IsFrom-choose :
    (s r : Selection) (c : ℕ) (g : List ResolveResultDetail) (es : Groups)
    → r ≡ choose s c g
    → (r ≡ s) ⊎ IsFrom ((c, g) ∷ es) r
IsFrom-choose s r c g es e = elim (choose_cases s c g) [
  | inl (same, _) ↦ inl (e ∙ same)
  | inr (taken, more) ↦ inr (rw (e ∙ taken) (Memᴰ.head refl, refl, omega arith))
]

pub select_country-IsFrom :
    (s : Selection) (es : Groups) → (select_country s es ≡ s) ⊎ IsFrom es (select_country s es)
unfolding select_country
select_country-IsFrom s [] = inl refl
select_country-IsFrom s ((c, g) ∷ es) = elim (select_country-IsFrom (choose s c g) es) [
  | inl same ↦ IsFrom-choose s _ c g es same
  | inr found ↦ inr (IsFrom-cons (c, g) es _ found)
]
