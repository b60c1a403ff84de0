-- ===== src/Stats/Samples.antt =====
-- The counters of topolib/usage_stats.go on a short history.
use topographer.Base.{◌+◌, ◌≡◌, refl, none, some, List, [], ◌∷◌, arith}
use topographer.Base.Time.{pos}
use topographer.Errors.{message}
use topographer.Stats.{u64, new_stats, StatEvent, used, updated, apply, apply_all, UsageStats}
use topographer.Stats.Counts.{lookups_ok, lookups_failed, last_use, last_update, apply_all-counts}

abbrev history : List StatEvent
history =
    updated (pos 5)
    ∷ used (pos 7) none
    ∷ used (pos 9) (some (message "no data"))
    ∷ used (pos 11) none
    ∷ []

abbrev after_history : UsageStats
after_history = apply_all (new_stats "a") history

history_runs :
    (after_history.success_count ≡ 2)
    × (after_history.failure_count ≡ 1)
    × (after_history.last_used ≡ pos 11)
    × (after_history.last_updated ≡ pos 5)
unfolding apply_all apply
history_runs = (refl, refl, refl, refl)

apply_all-counts_example :
    (after_history.success_count ≡ u64 (0 + lookups_ok history))
    × (after_history.failure_count ≡ u64 (0 + lookups_failed history))
    × (after_history.last_used ≡ last_use (pos 0) history)
    × (after_history.last_updated ≡ last_update (pos 0) history)
    × (after_history.name ≡ "a")
apply_all-counts_example = apply_all-counts (new_stats "a") history (omega arith) (omega arith)
