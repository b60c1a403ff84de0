-- ===== src/Caching.antt =====
-- topolib/caching_providers.go: a provider behind a cache. The cache of dgraph-io/ristretto is an
-- argument; what else happens to it between two calls, such as evictions and the end of a time to live, is
-- `passes`. A panic is `none`.
pub mod Transparent
mod Samples
use topographer.Base.{
  ℕ, ◌+◌, ◌-◌, ◌*◌, ◌%◌, ◌^◌, String, Option, none, some, List, [], ◌∷◌, ltb, if◌then◌else◌,
}
use topographer.Base.Time.{ℤ, pos, negsuc, Duration}
use topographer.Errors.{Err, Result, ok, err}
use topographer.Structs.{Ip, ProviderLookupResult}

-- ristretto.Config.
pub record CacheConfig : Type 0 where
  pub max_cost : ℤ
  pub num_counters : ℤ
  pub buffer_items : ℤ

pub record Ristretto : Type 1 where
  pub Cache : Type 0
  pub new_cache : CacheConfig → Result Cache
  pub get : String → Cache → Option ProviderLookupResult
  pub set_with_ttl : String → ProviderLookupResult → (cost : ℤ) → (ttl : Duration) → Cache → Cache
  pub passes : ℕ → Cache → Cache

-- `int64` of an unsigned number of 64 bits.
unfoldable pub to_int64 : ℕ → ℤ
to_int64 n = if ltb n (2 ^ 63) then pos n else negsuc (2 ^ 64 - 1 - n)

-- `ip_string` is `IP.String` of package net.
module _ (c : Ristretto) (ip_string : Ip → String) where
  pub record CachingProvider : Type 0 where
    pub provider : Ip → Result ProviderLookupResult
    pub cache : c.Cache
    pub ttl : Duration

  -- The result, and the provider as the call leaves it.
  unfoldable pub lookup_caching :
      CachingProvider → Ip → Result ProviderLookupResult × CachingProvider
  lookup_caching p ip = elim (c.get (ip_string ip) p.cache) [
    | some value ↦ (ok value, p)
    | none ↦ elim (p.provider ip) [
      | err e ↦ (err e, p)
      | ok result ↦ (
        ok result,
        record p { cache = c.set_with_ttl (ip_string ip) result (pos 1) p.ttl p.cache },
      )
    ]
  ]

  abbrev pub cache_config : (items_count : ℕ) → CacheConfig
  cache_config n = record {
    max_cost = to_int64 n;
    num_counters = to_int64 (10 * n % 2 ^ 64);
    buffer_items = pos 64;
  }

  unfoldable pub new_caching_provider :
      (Ip → Result ProviderLookupResult)
      → (items_count : ℕ) → (ttl : Duration) → Option CachingProvider
  unfolding to_int64
  new_caching_provider provider n ttl = elim (c.new_cache (cache_config n)) [
    | err e ↦ none
    | ok cache ↦ some (record { provider = provider; cache = cache; ttl = ttl })
  ]

  -- The other methods of an offline provider are those of the provider that it wraps.
  pub record CachingOfflineProvider : Type 0 where
    pub offline_provider : Ip → Result ProviderLookupResult
    pub caching_provider : CachingProvider

  unfoldable pub lookup_caching_offline :
      CachingOfflineProvider → Ip → Result ProviderLookupResult × CachingOfflineProvider
  unfolding lookup_caching
  lookup_caching_offline p ip =
      let (r, p') = lookup_caching p.caching_provider ip in (r, record p { caching_provider = p' })

  unfoldable pub new_caching_offline_provider :
      (Ip → Result ProviderLookupResult)
      → (items_count : ℕ) → (ttl : Duration) → Option CachingOfflineProvider
  unfolding new_caching_provider
  new_caching_offline_provider provider n ttl = elim (new_caching_provider provider n ttl) [
    | none ↦ none
    | some p ↦ some (record { offline_provider = provider; caching_provider = p })
  ]
