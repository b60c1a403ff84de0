-- ===== src/Updater.antt =====
-- The goroutine runBgUpdate and Shutdown of topolib/fs_updater.go, on the database of
-- providers/maxminddb_base.go. A step is what happens between two places where other goroutines may come
-- in: the two `select`s, and in the download of doUpdate, whose parts Fs has, the last look at the
-- context and the end. The logger has no effect.
pub mod Reopened
mod Samples
use Prim.Native.String
use topographer.Base.{String, [], Bool, true, false, Option, none, some, if◌then◌else◌}
use topographer.Base.Time.{Time, Duration, pos, ltb_ℤ, ◌-ℤ◌}
use topographer.Stats.{UsageStats}
use topographer.Fs.{Dir}
use topographer.Fs.Updating.{FsUpdater, StartEnv, start}
use topographer.Errors.{wrap, Err, Result, ok, err}
use topographer.Providers.Database.{
  Reader, MaxmindBase, new_maxmind_base, open_maxmind, shutdown_maxmind,
}

-- Where the goroutine is: at the timer; in an update with a request or a part of a response that
-- needs the context still to come; in the rest of the download, which extracts and copies files and does not
-- look at the context; after the download; at the ticker; or at its end.
pub data Place : Type 0 where
  timer : Place
  fetching : Place
  unpacking : Place
  downloaded : Place
  ticker : Place
  finished : Place

-- `is_done`: the context of the updater is cancelled.
pub record Updater : Type 0 where
  pub place : Place
  pub is_done : Bool
  pub database : MaxmindBase

-- The timer is set if the target is younger than the time between updates.
unfoldable pub first_place : (update_every : Duration) → (mod_time now : Time) → Place
unfolding ◌-ℤ◌
first_place every mod_time now =
    if ltb_ℤ (pos 0) (every -ℤ (now -ℤ mod_time)) then timer else fetching

abbrev pub go_background : Place → MaxmindBase → Updater
go_background place database = record { place = place; is_done = false; database = database }

abbrev new_updater : Dir → UsageStats → FsUpdater
new_updater dir stats = record { dir = dir; opened = []; running = false; stats = stats }

-- The counters are a pointer that the caller has too.
abbrev started : (name : String) → FsUpdater × Option Err → Result FsUpdater × UsageStats
started name (u, none) = (ok u, u.stats)
started name (u, some e) =
    (err (wrap (String.◌++◌ "cannot start fs updater for provider " name) e), u.stats)

-- `newFsUpdater`.
unfoldable pub new_fs_updater :
    StartEnv → (name : String) → Dir → UsageStats → Result FsUpdater × UsageStats
unfolding start
new_fs_updater env name dir stats = started name (start env (new_updater dir stats))

-- `Shutdown`.
unfoldable pub shutdown_updater : Updater → Updater
unfolding shutdown_maxmind
shutdown_updater u = record u { is_done = true; database = shutdown_maxmind u.database }

-- A step of the goroutine. A `select` with two ready cases takes either one.
pub data Background : Updater → Updater → Type 0 where
  timer_fires :
      (d : Bool) (m : MaxmindBase)
      → Background
          (record { place = timer; is_done = d; database = m })
          (record { place = fetching; is_done = d; database = m })
  timer_stops :
      (m : MaxmindBase)
      → Background
          (record { place = timer; is_done = true; database = m })
          (record { place = finished; is_done = true; database = m })
  fetch_fails :
      (d : Bool) (m : MaxmindBase)
      → Background
          (record { place = fetching; is_done = d; database = m })
          (record { place = ticker; is_done = d; database = m })
  -- What has the context gives an error once it is done.
  fetch_ends :
      (m : MaxmindBase)
      → Background
          (record { place = fetching; is_done = false; database = m })
          (record { place = unpacking; is_done = false; database = m })
  unpack_fails :
      (d : Bool) (m : MaxmindBase)
      → Background
          (record { place = unpacking; is_done = d; database = m })
          (record { place = ticker; is_done = d; database = m })
  unpack_ends :
      (d : Bool) (m : MaxmindBase)
      → Background
          (record { place = unpacking; is_done = d; database = m })
          (record { place = downloaded; is_done = d; database = m })
  -- The promotion fails, or there is nothing new.
  keeps :
      (d : Bool) (m : MaxmindBase)
      → Background
          (record { place = downloaded; is_done = d; database = m })
          (record { place = ticker; is_done = d; database = m })
  opens :
      (file : Result Reader) (d : Bool) (m : MaxmindBase)
      → Background
          (record { place = downloaded; is_done = d; database = m })
          (record { place = ticker; is_done = d; database = (open_maxmind file m).0 })
  ticks :
      (d : Bool) (m : MaxmindBase)
      → Background
          (record { place = ticker; is_done = d; database = m })
          (record { place = fetching; is_done = d; database = m })
  ticker_stops :
      (m : MaxmindBase)
      → Background
          (record { place = ticker; is_done = true; database = m })
          (record { place = finished; is_done = true; database = m })

-- Any number of steps.
pub data Backgrounds : Updater → Updater → Type 0 where
  stays : (u : Updater) → Backgrounds u u
  then : (u v w : Updater) → Background u v → Backgrounds v w → Backgrounds u w
