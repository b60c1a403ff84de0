-- ===== src/Topographer.antt =====
-- topolib/topographer.go: the instance, its providers and its shutdown.
pub mod Lifecycle
pub mod Registered
pub mod Listing
mod Samples
use topographer.Base.{
  ℕ, String, Bool, true, false, Option, none, some, List, [], ◌∷◌, ◌++◌, map, ◌==◌, string_eq,
  if◌then◌else◌, ltb, not,
}
use Prim.Native.String
use topographer.Base.Time.{Time}
use topographer.Base.Assoc.{lookup, insert}
use topographer.Base.Text.{string_ltb}
use topographer.Errors.{Err, message, wrap, topographer_shutdown, Result, ok, err, ◌>>=◌}
use topographer.Structs.{Ip, ProviderLookupResult}
use topographer.Stats.{UsageStats, new_stats}

-- The interface Provider; `is_offline` says that the value is an OfflineProvider too.
pub record Provider : Type 0 where
  pub name : String
  pub is_offline : Bool
  pub lookup : Ip → Result ProviderLookupResult

-- `released` and `stopped` are what `Shutdown` does to the worker pool and to offline providers.
pub record Topographer : Type 0 where
  pub providers : List (String × Provider)
  pub provider_stats : List (String × UsageStats)
  pub closed : Bool
  pub once : Bool
  pub released : ℕ
  pub stopped : List String

abbrev pub values : List (String × Provider) → List Provider
values m = map (λ (e : String × Provider). e.1) m

pick : List (String × Provider) → List String → Result (List Provider)
pick m [] = ok []
pick m (v ∷ names) = elim (lookup v m) [
  | none ↦ err (message (String.◌++◌ "provider " (String.◌++◌ v " is unknown")))
  | some p ↦ pick m names >>= λ ps. ok (p ∷ ps)
]

-- `order` is the map in the order in which the loop visits it.
unfoldable pub get_providers_to_use :
    List (String × Provider) → List (String × Provider) → List String → Result (List Provider)
unfolding pick
get_providers_to_use order m [] = ok (values order)
get_providers_to_use order m (v ∷ names) = pick m (v ∷ names)

abbrev pub offline_names : List Provider → List String
offline_names [] = []
offline_names (p ∷ ps) = if p.is_offline then p.name ∷ offline_names ps else offline_names ps

unfoldable pub shutdown : Topographer → Topographer
shutdown t = if t.once then record t { closed = true } else record t {
  closed = true;
  once = true;
  released = Prim.Native.Nat.suc t.released;
  stopped = t.stopped ++ offline_names (values t.providers);
}

abbrev pub empty_topographer : Topographer
empty_topographer = record {
  providers = [];
  provider_stats = [];
  closed = false;
  once = false;
  released = 0;
  stopped = [];
}

-- What `newFsUpdater` does with an offline provider and its counters: the provider that it wraps, or an
-- error, and the counters as Start leaves them. What the goroutine that Start begins does to them later is not
-- part of it.
abbrev pub Starter : Type 0
Starter = Provider → UsageStats → Result Provider × UsageStats

updater_of : Starter → Starter
updater_of start v stat = if v.is_offline then start v stat else (ok v, stat)

-- The counters stand in the map before the updater starts, as a pointer to what Start writes to.
abbrev pub put_stat : String → UsageStats → Topographer → Topographer
put_stat name stat t = record t { provider_stats = insert name stat t.provider_stats }

abbrev pub put_provider : Provider → Topographer → Topographer
put_provider v t = record t { providers = insert v.name v t.providers }

abbrev pub add : String → Result Provider × UsageStats → Topographer → Topographer × Option Err
add name (ok v, stat) t = (put_provider v (put_stat name stat t), none)
add name (err e, stat) t = (put_stat name stat t, some e)

-- One provider of the loop of NewTopographer.
register : Starter → Provider → Topographer → Topographer × Option Err
unfolding updater_of
register start v t = add v.name (updater_of start v (new_stats v.name)) t

-- On an error the half-built instance is shut down; it stands beside the error.
unfoldable pub register_all : Starter → Topographer → List Provider → Topographer × Option Err
unfolding register
register_all start t [] = (t, none)
register_all start t (v ∷ vs) =
    let (t', failed) = register start v t in
    elim failed [
      | some e ↦ (shutdown t', some (wrap (String.◌++◌ "cannot start provider " v.name) e))
      | none ↦ register_all start t' vs
    ]

unfoldable pub new_topographer : Starter → List Provider → Topographer × Option Err
unfolding register_all
new_topographer start providers = register_all start empty_topographer providers

-- The size of the worker pool that is asked for; `DefaultWorkerPoolSize` for 0.
unfoldable pub pool_size : ℕ → ℕ
pool_size n = if ltb 0 n then n else 4096

-- `sort.Slice` by name of `UsageStats()`.
insert_stat : UsageStats → List UsageStats → List UsageStats
insert_stat u [] = u ∷ []
insert_stat u (v ∷ vs) = if string_ltb v.name u.name then v ∷ insert_stat u vs else u ∷ v ∷ vs

sort_stats : List UsageStats → List UsageStats
unfolding insert_stat
sort_stats [] = []
sort_stats (u ∷ us) = insert_stat u (sort_stats us)

-- `UsageStats()`: `order` is the map of counters in the order in which the loop visits it.
unfoldable pub usage_stats : List (String × UsageStats) → List UsageStats
unfolding sort_stats
usage_stats order = sort_stats (map (λ (e : String × UsageStats). e.1) order)
