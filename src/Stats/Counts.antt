-- ===== src/Stats/Counts.antt =====
-- What the counters of topolib/usage_stats.go say of the events.
use topographer.Base.{ℕ, suc, ◌+◌, ◌^◌, ◌<◌, ◌≡◌, none, some, List, [], ◌∷◌, arith}
use topographer.Base.Time.{Time}
use topographer.Stats.{UsageStats, u64, StatEvent, used, updated, apply, apply_all}

-- Independent counts over the events, and the time of the last one of a kind.
abbrev pub lookups_ok : List StatEvent → ℕ
lookups_ok [] = 0
lookups_ok (used t none ∷ es) = suc (lookups_ok es)
lookups_ok (_ ∷ es) = lookups_ok es

abbrev pub lookups_failed : List StatEvent → ℕ
lookups_failed [] = 0
lookups_failed (used t (some e) ∷ es) = suc (lookups_failed es)
lookups_failed (_ ∷ es) = lookups_failed es

abbrev pub last_use : Time → List StatEvent → Time
last_use t [] = t
last_use t (used now err ∷ es) = last_use now es
last_use t (updated now ∷ es) = last_use t es

abbrev pub last_update : Time → List StatEvent → Time
last_update t [] = t
last_update t (used now err ∷ es) = last_update t es
last_update t (updated now ∷ es) = last_update now es

-- After any events, in any interleaving, starting below 2^64: the counters are those of the start
-- plus the numbers of successful and failed lookups, modulo 2^64, and the times are those of the
-- last use and the last update.
pub apply_all-counts :
    (u : UsageStats) (es : List StatEvent)
    → u.success_count < 2 ^ 64
    → u.failure_count < 2 ^ 64
    → let w = apply_all u es in
      (w.success_count ≡ u64 (u.success_count + lookups_ok es))
      × (w.failure_count ≡ u64 (u.failure_count + lookups_failed es))
      × (w.last_used ≡ last_use u.last_used es)
      × (w.last_updated ≡ last_update u.last_updated es)
      × (w.name ≡ u.name)
unfolding apply_all apply
apply_all-counts u [] h k = ground arith
apply_all-counts u (used now none ∷ es) h k =
    ground (arith, apply_all-counts (apply u (used now none)) es)
apply_all-counts u (used now (some e) ∷ es) h k =
    ground (arith, apply_all-counts (apply u (used now (some e))) es)
apply_all-counts u (updated now ∷ es) h k = apply_all-counts (apply u (updated now)) es h k
