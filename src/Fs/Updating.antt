-- ===== src/Fs/Updating.antt =====
-- Start and doUpdate of topolib/fs_updater.go on the directory of topolib/fs.go.
use topographer.Base.{
  ℕ, String, Bool, true, false, Option, none, some, List, [], ◌∷◌, ◌==◌, string_eq, if◌then◌else◌,
}
use topographer.Base.Time.{Time}
use topographer.Stats.{UsageStats, notify_updated}
use topographer.Base.Assoc.{insert}
use topographer.Errors.{Err, Result, ok, err, wrap}
use topographer.Fs.{Entry, Dir, cleanup, get_target_dir, UpdateEnv, new_dir, discard, promote}

-- The directory of the provider, the directories that it has opened, its counters, and whether the
-- goroutine of runBgUpdate was started.
pub record FsUpdater : Type 0 where
  pub dir : Dir
  pub opened : List String
  pub running : Bool
  pub stats : UsageStats

-- The end of doUpdate. The error of Cleanup is dropped.
unfoldable pub finish_update : UpdateEnv → String → FsUpdater → FsUpdater × Option Err
unfolding cleanup
finish_update env name s = (
  record s {
    dir = (cleanup env.remove_fails (env.listing s.dir) (name ∷ []) s.dir).0;
    stats = notify_updated env.now s.stats;
  },
  none,
)

unfoldable pub reopen : UpdateEnv → String × Bool → FsUpdater → FsUpdater × Option Err
unfolding finish_update
reopen env (name, false) s = finish_update env name s
reopen env (name, true) s = elim env.open_fails [
  | some e ↦
      (record s { dir = discard env name s.dir }, some (wrap "cannot open a new target dir" e))
  | none ↦ finish_update env name (record s { opened = name ∷ s.opened })
]

-- doUpdate from the promotion on.
unfoldable pub promote_and_open :
    UpdateEnv → String → List (List ℕ × List ℕ) → FsUpdater → FsUpdater × Option Err
unfolding promote reopen
promote_and_open env tmp files s = elim (promote env tmp files s.dir) [
  | err e ↦ (s, some (wrap "cannot promote tmp dir" e))
  | ok (d, name, is_new) ↦ reopen env (name, is_new) (record s { dir = d })
]

-- doUpdate with the temporary directory `tmp` made.
unfoldable pub update_in : UpdateEnv → String → FsUpdater → FsUpdater × Option Err
unfolding promote_and_open
update_in env tmp s = elim env.download [
  | err e ↦ (s, some (wrap "cannot download databases" e))
  | ok files ↦
      promote_and_open env tmp files (record s { dir = insert tmp (new_dir env files) s.dir })
]

-- `doUpdate`; the temporary directory is removed in the end.
unfoldable pub do_update : UpdateEnv → FsUpdater → FsUpdater × Option Err
unfolding update_in
do_update env s = elim env.temp [
  | err e ↦ (s, some (wrap "cannot make a temporary dir" e))
  | ok tmp ↦
      let (s', e) = update_in env tmp (record s { dir = insert tmp (new_dir env []) s.dir }) in
      (record s' { dir = discard env tmp s'.dir }, e)
]

-- What surrounds a start: the entries and, for the two cleanups, the names as they are listed; and
-- the errors of os.RemoveAll and of `Open`.
pub record StartEnv : Type 0 where
  pub entries : Result (List (String × Entry))
  pub listed : Result (List String)
  pub listed_again : Result (List String)
  pub start_remove_fails : String → Option Err
  pub open_target_fails : String → Option Err

-- `Open` of the target succeeds.
unfoldable pub open_target : String × Time → FsUpdater → FsUpdater
unfolding notify_updated
open_target (name, time) s = record s {
  opened = name ∷ s.opened;
  running = true;
  stats = notify_updated time s.stats;
}

-- Without a target that opens.
unfoldable pub start_empty : StartEnv → FsUpdater → FsUpdater × Option Err
unfolding cleanup
start_empty env s =
    let (d, failed) = cleanup env.start_remove_fails env.listed_again [] s.dir in
    elim failed [
      | some e ↦ (record s { dir = d }, some (wrap "cannot make full cleanup" e))
      | none ↦ (record s { dir = d; running = true }, none)
    ]

-- `Start` from the opening on.
unfoldable pub open_or_empty : StartEnv → String × Time → FsUpdater → FsUpdater × Option Err
unfolding open_target start_empty
open_or_empty env (name, time) s =
    if name == "" then start_empty env s else elim (env.open_target_fails name) [
      | some e ↦ start_empty env s
      | none ↦ (open_target (name, time) s, none)
    ]

-- `Start`.
unfoldable pub start : StartEnv → FsUpdater → FsUpdater × Option Err
unfolding get_target_dir cleanup open_or_empty
start env s = elim (get_target_dir env.entries) [
  | err e ↦ (s, some (wrap "cannot get target dir" e))
  | ok (name, time) ↦
      let (d, failed) = cleanup env.start_remove_fails env.listed (name ∷ []) s.dir in
      elim failed [
        | some e ↦ (record s { dir = d }, some (wrap "cannot do startup cleanup" e))
        | none ↦ open_or_empty env (name, time) (record s { dir = d })
      ]
]
