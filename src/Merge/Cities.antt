-- ===== src/Merge/Cities.antt =====
-- The vote on the city (resolveIPMergeCity of topolib/topographer.go) against an independent count.
use mathlib.Core.List.{Memᴰ}
use topographer.Base.{
  ℕ, ◌+◌, ◌≤◌, ◌<◌, String, ◌≡◌, refl, ap, ◌∙◌, ◌⊎◌, inl, inr, List, [], ◌∷◌, ◌==◌, nat_eq,
  string_eq, if◌then◌else◌, arith, eq_iff, not, ◌&&◌,
}
use topographer.Base.Assoc.{lookup, lookup-insert, get_or_zero}
use topographer.Structs.{ResolveResultDetail}
use topographer.Merge.{get_or_empty, CityCounts, count_city, count_cities, choose_city, select_city}

-- The loop over `counters`.
module _ (names : List (String × String)) where
  choose_city_cases :
      (b : String × ℕ) (k : String) (v : ℕ)
      → ((choose_city names b k v ≡ b) × (v ≤ b.1))
        ⊎ ((choose_city names b k v ≡ (get_or_empty (lookup k names), v)) × (b.1 < v))
  unfolding choose_city
  choose_city_cases b k v = ground arith

  choose_city-most :
      (b : String × ℕ) (k : String) (v : ℕ)
      → (b.1 ≤ (choose_city names b k v).1) × (v ≤ (choose_city names b k v).1)
  unfolding choose_city
  choose_city-most b k v = ground arith

  select_city-grows : (b : String × ℕ) (es : List (String × ℕ)) → b.1 ≤ (select_city names b es).1
  unfolding select_city
  select_city-grows b [] = omega arith
  select_city-grows b ((k, v) ∷ es) =
      omega (arith, select_city-grows (choose_city names b k v) es, choose_city-most b k v)

  pub select_city-most :
      (b : String × ℕ) (es : List (String × ℕ)) (k : String) (v : ℕ)
      → Memᴰ (k, v) es
      → v ≤ (select_city names b es).1
  unfolding select_city
  select_city-most b [] k v m = elim m [ ]
  select_city-most b ((j, w) ∷ es) k v (Memᴰ.head e) = omega (
    arith,
    ap (λ (x : String × ℕ). x.1) e,
    select_city-grows (choose_city names b j w) es,
    choose_city-most b j w,
  )
  select_city-most b ((j, w) ∷ es) k v (Memᴰ.tail m) =
      select_city-most (choose_city names b j w) es k v m

  abbrev pub IsPicked : List (String × ℕ) → String × ℕ → Type 0
  IsPicked es r =
      (k : String) × (v : ℕ) × Memᴰ (k, v) es × (r ≡ (get_or_empty (lookup k names), v)) × (0 < v)

  IsPicked-choose :
      (b r : String × ℕ) (k : String) (v : ℕ) (es : List (String × ℕ))
      → r ≡ choose_city names b k v
      → (r ≡ b) ⊎ IsPicked ((k, v) ∷ es) r
  IsPicked-choose b r k v es e = elim (choose_city_cases b k v) [
    | inl (same, _) ↦ inl (e ∙ same)
    | inr (taken, more) ↦ inr (k, v, Memᴰ.head refl, e ∙ taken, omega arith)
  ]

  pub select_city-IsPicked :
      (b : String × ℕ) (es : List (String × ℕ))
      → (select_city names b es ≡ b) ⊎ IsPicked es (select_city names b es)
  unfolding select_city
  select_city-IsPicked b [] = inl refl
  select_city-IsPicked b ((k, v) ∷ es) = elim (select_city-IsPicked (choose_city names b k v) es) [
    | inl same ↦ IsPicked-choose b _ k v es same
    | inr (j, w, m, e, p) ↦ inr (j, w, Memᴰ.tail m, e, p)
  ]

module _ (dm : String → String) where
  -- How many results name a city that sounds like `k`.
  abbrev pub tally : String → List ResolveResultDetail → ℕ
  tally k [] = 0
  tally k (d ∷ ds) = (if not (d.city == "") && dm d.city == k then 1 else 0) + tally k ds

  count_city-tally :
      (m : CityCounts) (d : ResolveResultDetail) (k : String)
      → get_or_zero (lookup k (count_city dm m d).counters)
        ≡ get_or_zero (lookup k m.counters) + tally k (d ∷ [])
  unfolding count_city
  count_city-tally m d k = ground (
    arith,
    lookup-insert (dm d.city) k (get_or_zero (lookup (dm d.city) m.counters) + 1) m.counters,
    eq_iff (dm d.city) k,
  )

  pub count_cities-tally :
      (m : CityCounts) (ds : List ResolveResultDetail) (k : String)
      → get_or_zero (lookup k (count_cities dm m ds).counters)
        ≡ get_or_zero (lookup k m.counters) + tally k ds
  unfolding count_cities
  count_cities-tally m [] k = omega arith
  count_cities-tally m (d ∷ ds) k =
      omega (arith, count_cities-tally (count_city dm m d) ds k, count_city-tally m d k)
