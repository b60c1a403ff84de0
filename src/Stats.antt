-- ===== src/Stats.antt =====
-- topolib/usage_stats.go: the counters of a provider. The mutex makes each method one step; the
-- clock is an argument. The counters are uint64.
pub mod Counts
mod Samples
use topographer.Base.{ℕ, ◌+◌, ◌%◌, ◌^◌, String, Option, none, some, List, [], ◌∷◌, if◌then◌else◌}
use topographer.Base.Time.{Time, ℤ, pos, is_zero}
use topographer.Errors.{Err}

pub record UsageStats : Type 0 where
  pub name : String
  pub last_updated : Time
  pub last_used : Time
  pub success_count : ℕ
  pub failure_count : ℕ

abbrev pub u64 : ℕ → ℕ
u64 n = n % 2 ^ 64

abbrev pub new_stats : String → UsageStats
new_stats name = record {
  name = name;
  last_updated = pos 0;
  last_used = pos 0;
  success_count = 0;
  failure_count = 0;
}

abbrev pub count : Option Err → UsageStats → UsageStats
count none u = record u { success_count = u64 (u.success_count + 1) }
count (some e) u = record u { failure_count = u64 (u.failure_count + 1) }

unfoldable pub notify_used : Time → Option Err → UsageStats → UsageStats
notify_used now err u = count err (record u { last_used = now })

unfoldable pub notify_updated : Time → UsageStats → UsageStats
notify_updated now u = record u { last_updated = now }

-- The struct that MarshalJSON hands to encoding/json.
pub record RawStats : Type 0 where
  pub name : String
  pub last_updated : ℤ
  pub last_used : ℤ
  pub success_count : ℕ
  pub failure_count : ℕ

-- `unix` is `Time.Unix`: seconds since 1970.
unfoldable pub marshal_stats : (Time → ℤ) → UsageStats → RawStats
marshal_stats unix u = record {
  name = u.name;
  last_updated = if is_zero u.last_updated then pos 0 else unix u.last_updated;
  last_used = if is_zero u.last_used then pos 0 else unix u.last_used;
  success_count = u.success_count;
  failure_count = u.failure_count;
}

-- What one goroutine does to the counters.
pub data StatEvent : Type 0 where
  used : Time → Option Err → StatEvent
  updated : Time → StatEvent

unfoldable pub apply : UsageStats → StatEvent → UsageStats
unfolding notify_used notify_updated
apply u (used now err) = notify_used now err u
apply u (updated now) = notify_updated now u

unfoldable pub apply_all : UsageStats → List StatEvent → UsageStats
apply_all u [] = u
apply_all u (e ∷ es) = apply_all (apply u e) es
