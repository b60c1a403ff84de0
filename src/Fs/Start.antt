-- ===== src/Fs/Start.antt =====
-- The start of an updater (Start of topolib/fs_updater.go).
use topographer.Base.{
  String, ◌≡◌, ◌≢◌, refl, ap, ◌∙◌, ◌⊎◌, inl, inr, true, Bool-cases, Option, Option-cases, none,
  some, List, [], ◌∷◌, ◌==◌, string_eq, eq_iff, arith, All, All-map,
}
use topographer.Base.Assoc.{lookup}
use topographer.Base.Time.{Time}
use topographer.Errors.{Err, ok, Result-cases}
use topographer.Stats.{notify_updated}
use topographer.Fs.{Dir, get_target_dir, cleanup}
use topographer.Fs.Updating.{FsUpdater, StartEnv, open_target, start_empty, open_or_empty, start}
use topographer.Fs.Cleanup.{IsCleaned, Shrinks, cleanup-IsCleaned, cleanup_full}

-- The target could be opened: it was, its time is noted, and it is in the directory as before.
abbrev pub IsStarted : StartEnv → String × Time → FsUpdater → FsUpdater → Type 0
IsStarted env (name, time) s s' =
    (name ≢ "")
    × (env.open_target_fails name ≡ none)
    × (s'.opened ≡ name ∷ s.opened)
    × (s'.stats ≡ notify_updated time s.stats)
    × (lookup name s'.dir ≡ lookup name s.dir)

-- There is no target, or it cannot be opened.
abbrev pub IsUnusable : StartEnv → String → Type 0
IsUnusable env name = (name ≡ "") ⊎ ((e : Err) × (env.open_target_fails name ≡ some e))

-- Nothing was opened, the counters are as before, and every name that the second cleanup listed is gone.
abbrev pub IsEmptied : StartEnv → String → FsUpdater → FsUpdater → Type 0
IsEmptied env name s s' =
    IsUnusable env name
    × (s'.opened ≡ s.opened)
    × (s'.stats ≡ s.stats)
    × (names : List String) × (env.listed_again ≡ ok names)
    × All (λ (k : String). lookup k s'.dir ≡ none) names

start_empty-keeps :
    (env : StartEnv) (s s' : FsUpdater)
    → start_empty env s ≡ (s', none)
    → (s'.running ≡ true)
      × (s'.opened ≡ s.opened)
      × (s'.stats ≡ s.stats)
      × (cleanup env.start_remove_fails env.listed_again [] s.dir ≡ (s'.dir, none))
unfolding start_empty
start_empty-keeps env s s' h = ground arith

start_empty-IsEmptied :
    (env : StartEnv) (name : String) (s s' : FsUpdater)
    → IsUnusable env name
    → start_empty env s ≡ (s', none)
    → (s'.running ≡ true) × Shrinks s.dir s'.dir × IsEmptied env name s s'
start_empty-IsEmptied env name s s' unusable h =
    let (up, opened, stats, all) = start_empty-keeps env s s' h in
    let (names, listed, gone, shrinks) =
      cleanup_full env.start_remove_fails env.listed_again s.dir s'.dir all in
    (up, shrinks, (unusable, opened, stats, names, listed, gone))

open_or_empty_cases :
    (env : StartEnv) (name : String) (time : Time) (s s' : FsUpdater)
    → open_or_empty env (name, time) s ≡ (s', none)
    → (s'.running ≡ true)
      × Shrinks s.dir s'.dir
      × (IsStarted env (name, time) s s' ⊎ IsEmptied env name s s')
unfolding open_or_empty open_target
open_or_empty_cases env name time s s' h = elim (Bool-cases (name == "")) [
  | inl blank ↦
      let (up, shrinks, rest) =
        start_empty-IsEmptied env name s s' (inl (ground (arith, eq_iff name "")))
          (rw blank at h) in
      (up, shrinks, inr rest)
  | inr given ↦ elim (Option-cases (env.open_target_fails name)) [
    | inr (e, f) ↦
        let (up, shrinks, rest) =
          start_empty-IsEmptied env name s s' (inr (e, f)) (rw (given, f) at h) in
        (up, shrinks, inr rest)
    | inl f ↦
        let same : open_target (name, time) s ≡ s' =
          ap (λ (r : FsUpdater × Option Err). r.0) (rw (given, f) at h) in
        rw (← same) (
          refl,
          λ k absent. absent,
          inl ((λ q. ground (arith, eq_iff name "")), f, refl, refl, refl),
        )
  ]
]

-- A start without an error has found what GetTargetDir picks, leaves the background updates running,
-- and every name that was listed, but that of the picked directory, is gone. If a directory was picked
-- and its Open succeeds, then it was opened, its time is the time of the last update, and it is in the
-- provider's directory as before. If none was picked, or its Open fails, then nothing was opened, the
-- counters are as before, and every name that was listed again is gone.
pub start_cases :
    (env : StartEnv) (s s' : FsUpdater)
    → start env s ≡ (s', none)
    → (target : String × Time) × (names : List String) × (get_target_dir env.entries ≡ ok target)
      × (env.listed ≡ ok names)
      × (s'.running ≡ true)
      × IsCleaned names target.0 s'.dir
      × (IsStarted env target s s' ⊎ IsEmptied env target.0 s s')
unfolding start
start_cases env s s' h = elim (Result-cases (get_target_dir env.entries)) [
  | inr (e, g) ↦ cc (rw (g, start) at h)
  | inl ((name, time), g) ↦
      let d = (cleanup env.start_remove_fails env.listed (name ∷ []) s.dir).0 in
      let failed = (cleanup env.start_remove_fails env.listed (name ∷ []) s.dir).1 in
      let h' = rw (g, start) at h in
      elim (Option-cases failed) [
        | inr (e, f) ↦ cc (rw f at h')
        | inl f ↦
            let (names, listed, cleaned, spared) =
              cleanup-IsCleaned env name s.dir d (ap (λ o. (d, o)) f) in
            let (up, shrinks, outcome) =
              open_or_empty_cases env name time (record s { dir = d }) s' (rw f at h') in
            (
              (name, time),
              names,
              g,
              listed,
              up,
              All-map (λ k. (k ≡ name) ⊎ (lookup k d ≡ none))
                  (λ k. (k ≡ name) ⊎ (lookup k s'.dir ≡ none)) names
                  (λ k g. still name d s'.dir k g shrinks) cleaned,
              of_first name time d spared outcome,
            )
      ]
]
  where
    still :
        (name : String) (d d' : Dir) (k : String)
        → (k ≡ name) ⊎ (lookup k d ≡ none)
        → Shrinks d d'
        → (k ≡ name) ⊎ (lookup k d' ≡ none)
    still name d d' k (inl g) f = inl g
    still name d d' k (inr g) f = inr (f k g)

    of_first :
        (name : String) (time : Time) (d : Dir)
        → lookup name d ≡ lookup name s.dir
        → IsStarted env (name, time) (record s { dir = d }) s'
          ⊎ IsEmptied env name (record s { dir = d }) s'
        → IsStarted env (name, time) s s' ⊎ IsEmptied env name s s'
    of_first name time d spared (inl (given, opens, opened, stats, same)) =
        inl (given, opens, opened, stats, same ∙ spared)
    of_first name time d spared (inr rest) = inr rest
