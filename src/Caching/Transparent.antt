-- ===== src/Caching/Transparent.antt =====
-- The providers of topolib/caching_providers.go against the providers that they wrap.
use topographer.Base.{
  ℕ, ◌≡◌, refl, sym, subst, ap, ap₂, ◌∙◌, ◌⊎◌, inl, inr, String, none, some, Option-cases, List, [],
  ◌∷◌,
}
use topographer.Base.Time.{ℤ, pos, Duration}
use topographer.Errors.{Result, Result-cases, ok}
use topographer.Structs.{Ip, ProviderLookupResult}
use topographer.Caching.{
  Ristretto, CachingProvider, lookup_caching, cache_config, new_caching_provider,
  CachingOfflineProvider, lookup_caching_offline, new_caching_offline_provider,
}

-- What ristretto documents: Get misses, or gives a value that was set for the key. A value may be dropped,
-- and an older one may survive a Set that is dropped.
pub record IsRistretto (c : Ristretto) : Type 1 where
  pub Holds : c.Cache → String → ProviderLookupResult → Type 0
  pub holds_new :
      (config : _) (s : c.Cache) (k : String) (v : ProviderLookupResult)
      → c.new_cache config ≡ ok s
      → Holds s k v
      → ⊥
  pub holds_get :
      (s : c.Cache) (k : String) (v : ProviderLookupResult) → c.get k s ≡ some v → Holds s k v
  pub holds_set :
      (s : c.Cache) (k l : String) (v w : ProviderLookupResult) (cost : ℤ) (ttl : Duration)
      → Holds (c.set_with_ttl l w cost ttl s) k v
      → ((l ≡ k) × (w ≡ v)) ⊎ Holds s k v
  pub holds_passes :
      (s : c.Cache) (n : ℕ) (k : String) (v : ProviderLookupResult)
      → Holds (c.passes n s) k v
      → Holds s k v

-- A call of Lookup, or what happens to the cache between two calls.
pub data CacheEvent : Type 0 where
  looks : Ip → CacheEvent
  passes_by : ℕ → CacheEvent

-- What the wrapped provider answers to the calls.
abbrev pub answers :
    (Ip → Result ProviderLookupResult) → List CacheEvent → List (Result ProviderLookupResult)
answers provider [] = []
answers provider (looks ip ∷ es) = provider ip ∷ answers provider es
answers provider (passes_by n ∷ es) = answers provider es

module _ (c : Ristretto) (ip_string : Ip → String) where
  -- The results of the calls, in order.
  abbrev pub results :
      List CacheEvent → CachingProvider c ip_string → List (Result ProviderLookupResult)
  results [] p = []
  results (looks ip ∷ es) p =
      (lookup_caching c ip_string p ip).0 ∷ results es (lookup_caching c ip_string p ip).1
  results (passes_by n ∷ es) p = results es (record p { cache = c.passes n p.cache })

  abbrev pub results_offline :
      List CacheEvent → CachingOfflineProvider c ip_string → List (Result ProviderLookupResult)
  results_offline [] p = []
  results_offline (looks ip ∷ es) p =
      (lookup_caching_offline c ip_string p ip).0
      ∷ results_offline es (lookup_caching_offline c ip_string p ip).1
  results_offline (passes_by n ∷ es) p = results_offline es (record p {
    caching_provider = record p.caching_provider { cache = c.passes n p.caching_provider.cache };
  })

  module _ (l : IsRistretto c) (provider : Ip → Result ProviderLookupResult) where
    -- All that the cache holds is what the provider answers.
    abbrev IsTrue : CachingProvider c ip_string → Type 0
    IsTrue p =
        (p.provider ≡ provider)
        × ((k : String) (v : ProviderLookupResult)
            → l.Holds p.cache k v
            → (ip : Ip) × (ip_string ip ≡ k) × (provider ip ≡ ok v))

    module _ (same : (ip jp : Ip) → ip_string ip ≡ ip_string jp → provider ip ≡ provider jp) where
      lookup_caching-IsTrue :
          (p : CachingProvider c ip_string) (ip : Ip)
          → IsTrue p
          → ((lookup_caching c ip_string p ip).0 ≡ provider ip)
            × IsTrue (lookup_caching c ip_string p ip).1
      unfolding lookup_caching
      lookup_caching-IsTrue p ip (e, h) = elim (Option-cases (c.get (ip_string ip) p.cache)) [
        | inr (v, f) ↦
            let (jp, k, q) = h (ip_string ip) v (l.holds_get p.cache (ip_string ip) v f) in
            rw (f, lookup_caching) (sym q ∙ same jp ip k, (e, h))
        | inl f ↦ elim (Result-cases (p.provider ip)) [
          | inr (x, g) ↦ rw (f, g, lookup_caching) (sym g ∙ ap (λ look. look ip) e, (e, h))
          | inl (r, g) ↦
              let asked : ok r ≡ provider ip = sym g ∙ ap (λ look. look ip) e in
              rw (f, g, lookup_caching)
                (
                  asked,
                  (
                    e,
                    λ k v q. elim (l.holds_set p.cache k (ip_string ip) v r (pos 1) p.ttl q) [
                      | inl (key, value) ↦ (ip, key, sym asked ∙ ap ok value)
                      | inr before ↦ h k v before
                    ],
                  ),
                )
        ]
      ]

      results-answers :
          (es : List CacheEvent) (p : CachingProvider c ip_string)
          → IsTrue p
          → results es p ≡ answers provider es
      results-answers [] p h = refl
      results-answers (looks ip ∷ es) p h =
          let (now, true_after) = lookup_caching-IsTrue p ip h in
          ap₂ (λ r rs. r ∷ rs) now
            (results-answers es (lookup_caching c ip_string p ip).1 true_after)
      results-answers (passes_by n ∷ es) p (e, h) =
          results-answers es (record p { cache = c.passes n p.cache })
            (e, λ k v q. h k v (l.holds_passes p.cache n k v q))

      results_offline-results :
          (es : List CacheEvent) (p : CachingOfflineProvider c ip_string)
          → results_offline es p ≡ results es p.caching_provider
      unfolding lookup_caching_offline
      results_offline-results [] p = refl
      results_offline-results (looks ip ∷ es) p =
          ap (λ rs. (lookup_caching c ip_string p.caching_provider ip).0 ∷ rs)
            (results_offline-results es (lookup_caching_offline c ip_string p ip).1)
      results_offline-results (passes_by n ∷ es) p = results_offline-results es _

      new-IsTrue :
          (items : ℕ) (ttl : Duration) (p : CachingProvider c ip_string)
          → new_caching_provider c ip_string provider items ttl ≡ some p
          → IsTrue p
      unfolding new_caching_provider
      new-IsTrue items ttl p h =
          elim (Result-cases (c.new_cache (cache_config c ip_string items))) [
            | inr (x, e) ↦ absurd (cc (rw (e, new_caching_provider) at h))
            | inl (s, e) ↦
                let same_as : record { provider = provider; cache = s; ttl = ttl } ≡ p =
                  some_eq (rw (new_caching_provider, e) at h) in
                subst IsTrue same_as
                  (refl, λ k v q. absurd (l.holds_new (cache_config c ip_string items) s k v e q))
          ]
        where
          some_eq : {A : Type 0} {x y : A} → some x ≡ some y → x ≡ y
          some_eq h = cc

      offline_inner :
          (items : ℕ) (ttl : Duration) (q : CachingOfflineProvider c ip_string)
          → new_caching_offline_provider c ip_string provider items ttl ≡ some q
          → new_caching_provider c ip_string provider items ttl ≡ some q.caching_provider
      unfolding new_caching_offline_provider
      offline_inner items ttl q h =
          elim (Option-cases (new_caching_provider c ip_string provider items ttl)) [
            | inl e ↦ absurd (none-some (rw (new_caching_offline_provider, e) at h))
            | inr (p, e) ↦
                e
                ∙ ap some (
                    ap (λ (q : CachingOfflineProvider c ip_string). q.caching_provider)
                      (some_offline (rw (new_caching_offline_provider, e) at h)))
          ]
        where
          none-some : {A : Type 0} {x : A} → none ≡ some x → ⊥
          none-some h = cc

          some_offline : {A : Type 0} {x y : A} → some x ≡ some y → x ≡ y
          some_offline h = cc

      -- Let the cache give for a key only values that were set for it, and let the wrapped provider answer the
      -- same for addresses with the same text. Then a new caching provider, and a new caching offline
      -- provider, answer any sequence of lookups exactly as the provider that they wrap does, errors
      -- included, whatever the cache drops between the calls.
      pub results-transparent :
          (items : ℕ) (ttl : Duration) (p : CachingProvider c ip_string)
          (q : CachingOfflineProvider c ip_string) (es : List CacheEvent)
          → new_caching_provider c ip_string provider items ttl ≡ some p
          → new_caching_offline_provider c ip_string provider items ttl ≡ some q
          → (results es p ≡ answers provider es) × (results_offline es q ≡ answers provider es)
      results-transparent items ttl p q es h k = (
        results-answers es p (new-IsTrue items ttl p h),
        results_offline-results es q
            ∙ results-answers es q.caching_provider
                (new-IsTrue items ttl q.caching_provider (offline_inner items ttl q k)),
      )
