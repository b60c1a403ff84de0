-- ===== src/Topographer/Samples.antt =====
-- An instance of topolib/topographer.go with an online and an offline provider.
use mathlib.Core.List.{Perm}
use mathlib.Core.List.Perm
use topographer.Base.Text.{string_ltb, has_prefix}
use topographer.Stats.{UsageStats, new_stats, notify_updated}
use topographer.Topographer.{usage_stats, sort_stats, insert_stat}
use topographer.Topographer.Listing.{IsSorted, usage_stats-IsSorted}
use topographer.Base.{map}
use topographer.Base.{
  String, ◌≡◌, ◌≢◌, refl, sym, ap, true, false, none, some, List, [], ◌∷◌, arith, All, string_eq,
  eq_iff,
}
use topographer.Base.Assoc.{lookup, insert}
use topographer.Base.Time.{pos, ◌-ℤ◌}
use topographer.Fs.{
  Dir, is_target, find_target, find_targets, get_target_dir, cleanup, remove, remove_all,
}
use topographer.Fs.Updating.{FsUpdater, StartEnv, start, open_or_empty, open_target, start_empty}
use topographer.Updater.{new_fs_updater}
use topographer.Errors.{message, Result, ok, err, ok-injective}
use topographer.Topographer.{
  Provider, Topographer, Starter, pick, get_providers_to_use, shutdown, updater_of, register,
  register_all, new_topographer,
}
use topographer.Topographer.Lifecycle.{IsKeyed}
use topographer.Topographer.Registered.{IsRegistered, new_topographer-IsRegistered}

abbrev online : Provider
online = record {
  name = "ipinfo";
  is_offline = false;
  lookup = λ ip. ok (record { country_code = 1; city = "Lima" });
}

abbrev offline : Provider
offline = record {
  name = "dbip_lite";
  is_offline = true;
  lookup = λ ip. err (message "database is not ready");
}

-- The directory has a target of the time 5, which opens.
abbrev directory : Dir
directory = ("target_a", record { is_dir = true; mod_time = pos 5; files = [] }) ∷ []

abbrev start_env : StartEnv
start_env = record {
  entries = ok directory;
  listed = ok ("target_a" ∷ []);
  listed_again = ok [];
  start_remove_fails = λ name. none;
  open_target_fails = λ name. none;
}

abbrev wrapper : Provider → Result FsUpdater × UsageStats → Result Provider × UsageStats
wrapper p (ok u, stats) = (ok p, stats)
wrapper p (err e, stats) = (err e, stats)

abbrev start_updater : Starter
start_updater p stats = wrapper p (new_fs_updater start_env p.name directory stats)

wrapper-name :
    (v p : Provider) (r : Result FsUpdater × UsageStats) (u : UsageStats)
    → wrapper v r ≡ (ok p, u)
    → p.name ≡ v.name
wrapper-name v p (ok x, s) u h =
    ap (λ (q : Provider). q.name)
      (sym (ok-injective (ap (λ (x : Result Provider × UsageStats). x.0) h)))
wrapper-name v p (err e, s) u h = cc

abbrev started : Topographer
started = (new_topographer start_updater (online ∷ offline ∷ [])).0

program : Unit {0}
unfolding new_topographer register_all register updater_of lookup insert shutdown pick
    get_providers_to_use new_fs_updater start get_target_dir find_targets find_target is_target
    cleanup remove_all remove open_or_empty open_target start_empty has_prefix notify_updated ◌-ℤ◌
program = tt

instance_runs :
    ((new_topographer start_updater (online ∷ offline ∷ [])).1 ≡ none)
    × ((shutdown started).stopped ≡ "dbip_lite" ∷ [])
    × (get_providers_to_use started.providers started.providers ("dbip_lite" ∷ "ipinfo" ∷ [])
        ≡ ok (offline ∷ online ∷ []))
unfolding program
instance_runs = (refl, refl, refl)

started-IsKeyed : IsKeyed started.providers
unfolding program
started-IsKeyed k p h = ground (arith, eq_iff "ipinfo" k, eq_iff "dbip_lite" k)

-- The time of the target is the time of the last update.
counters_start :
    (lookup "ipinfo" started.provider_stats ≡ some (new_stats "ipinfo"))
    × (lookup "dbip_lite" started.provider_stats
        ≡ some (record (new_stats "dbip_lite") { last_updated = pos 5 }))
unfolding program
counters_start = (refl, refl)

new_topographer-IsRegistered_example :
    All (λ (v : Provider). IsRegistered start_updater started v) (online ∷ offline ∷ [])
    × (started.closed ≡ false)
    × ((k : String)
        → All (λ j. k ≢ j) ("ipinfo" ∷ "dbip_lite" ∷ [])
        → (lookup k started.providers ≡ none) × (lookup k started.provider_stats ≡ none))
unfolding program
new_topographer-IsRegistered_example =
    new_topographer-IsRegistered start_updater
      (λ v p s u. wrapper-name v p (new_fs_updater start_env v.name directory s) u)
      (online ∷ offline ∷ []) started
      (((λ e. ground (arith, eq_iff "ipinfo" "dbip_lite")), tt), (tt, tt)) refl

abbrev counters : List (String × UsageStats)
counters = ("ipinfo", new_stats "ipinfo") ∷ ("dbip_lite", new_stats "dbip_lite") ∷ []

listing_runs : usage_stats counters ≡ new_stats "dbip_lite" ∷ new_stats "ipinfo" ∷ []
unfolding usage_stats sort_stats insert_stat string_ltb
listing_runs = refl

usage_stats-IsSorted_example :
    IsSorted (usage_stats counters)
    × Perm (usage_stats counters) (map (λ (e : String × UsageStats). e.1) counters)
usage_stats-IsSorted_example = usage_stats-IsSorted counters counters (Perm.refl counters)
