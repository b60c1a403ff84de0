-- ===== src/Caching/Samples.antt =====
-- The providers of topolib/caching_providers.go with a cache that is a list of all that was set.
use topographer.Base.{
  ◌≡◌, refl, sym, subst, ◌⊎◌, inl, inr, String, Bool-cases, Option, none, some, List, [], ◌∷◌, ◌==◌,
  string_eq, eq_iff, if◌then◌else◌,
}
use topographer.Base.Time.{pos}
use topographer.Errors.{Result, ok, ok-injective}
use topographer.Structs.{Ip, ProviderLookupResult}
use topographer.Caching.{
  Ristretto, CachingProvider, CachingOfflineProvider, new_caching_provider,
  new_caching_offline_provider,
}
use topographer.Caching.Transparent.{
  IsRistretto, CacheEvent, looks, passes_by, answers, results, results_offline, results-transparent,
}

abbrev Entries : Type 0
Entries = List (String × ProviderLookupResult)

abbrev get_entry : String → Entries → Option ProviderLookupResult
get_entry k [] = none
get_entry k ((l, v) ∷ es) = let rest = get_entry k es in if k == l then some v else rest

-- The cache loses everything when time passes.
abbrev list_cache : Ristretto
list_cache = record {
  Cache = Entries;
  new_cache = λ config. ok [];
  get = get_entry;
  set_with_ttl = λ k v cost ttl s. (k, v) ∷ s;
  passes = λ n s. [];
}

abbrev HasEntry : Entries → String → ProviderLookupResult → Type 0
HasEntry [] k v = ⊥
HasEntry ((l, w) ∷ es) k v = ((l ≡ k) × (w ≡ v)) ⊎ HasEntry es k v

get_entry-HasEntry :
    (s : Entries) (k : String) (v : ProviderLookupResult) → get_entry k s ≡ some v → HasEntry s k v
get_entry-HasEntry [] k v h = absurd (none-some h)
  where
    none-some : {v : ProviderLookupResult} → none ≡ some v → ⊥
    none-some h = cc
get_entry-HasEntry ((l, w) ∷ es) k v h = elim (Bool-cases (k == l)) [
  | inl e ↦ inl (sym ((eq_iff k l).0 e), some_eq (rw e at h))
  | inr e ↦ inr (get_entry-HasEntry es k v (rw e at h))
]
  where
    some_eq : {x y : ProviderLookupResult} → some x ≡ some y → x ≡ y
    some_eq h = cc

list_cache-IsRistretto : IsRistretto list_cache
list_cache-IsRistretto = record {
  Holds = HasEntry;
  holds_new = λ config s k v e h. subst (λ s. HasEntry s k v) (sym (ok-injective e)) h;
  holds_get = get_entry-HasEntry;
  holds_set = λ s k l v w cost ttl h. h;
  holds_passes = λ s n k v h. absurd h;
}

abbrev germany : ProviderLookupResult
germany = record { country_code = 1; city = "Berlin" }

abbrev always : Ip → Result ProviderLookupResult
always ip = ok germany

abbrev text_of : Ip → String
text_of ip = "5.0.0.1"

abbrev two_looks : List CacheEvent
two_looks = looks (5 ∷ []) ∷ looks (5 ∷ []) ∷ passes_by 1 ∷ looks (5 ∷ []) ∷ []

abbrev new_caching : CachingProvider list_cache text_of
new_caching = record { provider = always; cache = []; ttl = pos 60 }

abbrev new_offline : CachingOfflineProvider list_cache text_of
new_offline = record { offline_provider = always; caching_provider = new_caching }

new_runs : new_caching_provider list_cache text_of always 100 (pos 60) ≡ some new_caching
unfolding new_caching_provider
new_runs = refl

offline_runs :
    new_caching_offline_provider list_cache text_of always 100 (pos 60) ≡ some new_offline
unfolding new_caching_offline_provider new_caching_provider
offline_runs = refl

results-transparent_example :
    (results list_cache text_of two_looks new_caching ≡ answers always two_looks)
    × (results_offline list_cache text_of two_looks new_offline ≡ answers always two_looks)
results-transparent_example =
    results-transparent list_cache text_of list_cache-IsRistretto always (λ ip jp h. refl) 100
      (pos 60) new_caching new_offline two_looks new_runs offline_runs
