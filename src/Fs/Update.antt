-- ===== src/Fs/Update.antt =====
-- What an update (doUpdate of topolib/fs_updater.go) does to the provider's directory.
use topographer.Base.{
  ℕ, String, ◌≡◌, refl, sym, ap, ◌∙◌, ◌⊎◌, inl, inr, Bool, true, false, Option, Option-cases, none,
  some, List, [], ◌∷◌, ◌==◌, string_eq, eq_iff, arith, if◌then◌else◌,
}
use topographer.Base.Assoc.{lookup, insert, lookup-insert}
use topographer.Errors.{Err, wrap, ok, err, Result-cases}
use topographer.Fs.{Entry, Dir, remove, make_checksum, UpdateEnv, new_dir, discard, promote}
use topographer.Fs.Updating.{
  FsUpdater, finish_update, reopen, promote_and_open, update_in, do_update,
}

pub lookup-remove :
    (name k : String) (d : Dir)
    → lookup k (remove name d) ≡ (if name == k then none else lookup k d)
unfolding remove lookup
lookup-remove name k [] = ground arith
lookup-remove name k ((j, e) ∷ d) =
    ground (arith, lookup-remove name k d, eq_iff j name, eq_iff j k, eq_iff name k)

-- The entries of the first directory are in the second one.
abbrev pub IsKept : Dir → Dir → Type 0
IsKept d d' = (k : String) (e : Entry) → lookup k d ≡ some e → lookup k d' ≡ some e

-- A name that is not there is written, or dropped again.
insert-IsKept :
    (d : Dir) (name : String) (x : Entry) → lookup name d ≡ none → IsKept d (insert name x d)
insert-IsKept d name x new k e h = ground (arith, lookup-insert name k x d, eq_iff name k)

discard-IsKept :
    (env : UpdateEnv) (name : String) (d d' : Dir)
    → lookup name d ≡ none
    → IsKept d d'
    → IsKept d (discard env name d')
discard-IsKept env name d d' new keep k e h =
    ground (arith, lookup-remove name k d', keep k e h, eq_iff name k)

module _ (env : UpdateEnv) (tmp : String) (files : List (List ℕ × List ℕ)) where
  promote_cases :
      (d d' : Dir) (name : String) (is_new : Bool)
      → promote env tmp files d ≡ ok (d', name, is_new)
      → ((is_new ≡ false) × (d' ≡ d))
        ⊎ ((is_new ≡ true)
            × (lookup name d ≡ none)
            × (d' ≡ insert name (new_dir env files) (remove tmp d)))
  unfolding promote make_checksum
  promote_cases d d' name is_new h = ground arith

  -- The entries but that of the temporary directory are in the promoted one.
  rename-IsKept :
      (d filled : Dir) (name : String)
      → lookup tmp d ≡ none
      → lookup name filled ≡ none
      → IsKept d filled
      → IsKept d (insert name (new_dir env files) (remove tmp filled))
  rename-IsKept d filled name fresh new keep k e h = ground (
    arith,
    lookup-insert name k (new_dir env files) (remove tmp filled),
    lookup-remove tmp k filled,
    keep k e h,
    eq_iff name k,
    eq_iff tmp k,
  )

new_of_kept :
    (d filled : Dir) (name : String)
    → lookup name filled ≡ none
    → IsKept d filled
    → lookup name d ≡ none
new_of_kept d filled name new keep = elim (Option-cases (lookup name d)) [
  | inl e ↦ e
  | inr (x, e) ↦ ground (arith, keep name x e)
]

reopen-IsKept :
    (env : UpdateEnv) (d : Dir) (name : String) (is_new : Bool) (s s' : FsUpdater) (e : Err)
    → (is_new ≡ true → (lookup name d ≡ none) × IsKept d s.dir)
    → reopen env (name, is_new) s ≡ (s', some e)
    → IsKept d s'.dir × (s'.stats ≡ s.stats) × (s'.opened ≡ s.opened)
unfolding reopen finish_update
reopen-IsKept env d name false s s' e keep h = cc
reopen-IsKept env d name true s s' e keep h = elim (Option-cases env.open_fails) [
  | inl f ↦ cc (rw f at h)
  | inr (x, f) ↦
      let same : (record s { dir = discard env name s.dir }) ≡ s' =
        ap (λ (r : FsUpdater × Option Err). r.0) (rw f at h) in
      rw (← same) (discard-IsKept env name d s.dir (keep refl).0 (keep refl).1, refl, refl)
]

after_download :
    (env : UpdateEnv) (tmp : String) (files : List (List ℕ × List ℕ)) (s : FsUpdater)
    → env.download ≡ ok files
    → update_in env tmp s
      ≡ promote_and_open env tmp files (record s { dir = insert tmp (new_dir env files) s.dir })
unfolding update_in
after_download env tmp files s f =
    ap
      (λ o. elim o as (λ o. FsUpdater × Option Err) [
        | err e ↦ (s, some (wrap "cannot download databases" e))
        | ok files ↦
            promote_and_open env tmp files (record s { dir = insert tmp (new_dir env files) s.dir })
      ])
      f

module _ (env : UpdateEnv) (tmp : String) (d : Dir) (fresh : lookup tmp d ≡ none) where
  -- The temporary directory may be written to.
  filled-IsKept : (d₁ : Dir) (x : Entry) → IsKept d d₁ → IsKept d (insert tmp x d₁)
  filled-IsKept d₁ x keep k e h = ground (arith, lookup-insert tmp k x d₁, keep k e h, eq_iff tmp k)

  promote_and_open-IsKept :
      (files : List (List ℕ × List ℕ)) (s s' : FsUpdater) (e : Err)
      → IsKept d s.dir
      → promote_and_open env tmp files s ≡ (s', some e)
      → IsKept d s'.dir × (s'.stats ≡ s.stats) × (s'.opened ≡ s.opened)
  unfolding promote_and_open
  promote_and_open-IsKept files s s' e keep h = elim (Result-cases (promote env tmp files s.dir)) [
    | inr (x, g) ↦
        let same : s ≡ s' =
          ap (λ (r : FsUpdater × Option Err). r.0) (rw (g, promote_and_open) at h) in
        rw (← same) (keep, refl, refl)
    | inl ((d', name, is_new), g) ↦
        reopen-IsKept env d name is_new (record s { dir = d' }) s' e
          (λ new. elim (promote_cases env tmp files s.dir d' name is_new g) [
            | inl (old, _) ↦ cc
            | inr (_, absent, renamed) ↦ (
              new_of_kept d s.dir name absent keep,
              rw renamed (rename-IsKept env tmp files d s.dir name fresh absent keep),
            )
          ])
          (rw (g, promote_and_open) at h)
  ]

  update_in-IsKept :
      (s s' : FsUpdater) (e : Err)
      → IsKept d s.dir
      → update_in env tmp s ≡ (s', some e)
      → IsKept d s'.dir × (s'.stats ≡ s.stats) × (s'.opened ≡ s.opened)
  unfolding update_in
  update_in-IsKept s s' e keep h = elim (Result-cases env.download) [
    | inr (x, f) ↦
        let same : s ≡ s' = ap (λ (r : FsUpdater × Option Err). r.0) (rw f at h) in
        rw (← same) (keep, refl, refl)
    | inl (files, f) ↦
        let filled = record s { dir = insert tmp (new_dir env files) s.dir } in
        let failed : promote_and_open env tmp files filled ≡ (s', some e) =
          sym (after_download env tmp files s f) ∙ h in
        promote_and_open-IsKept files filled s' e (filled-IsKept s.dir (new_dir env files) keep)
          failed
  ]

-- ioutil.TempDir finds a name that is not in the directory.
abbrev pub IsFreshTemp : UpdateEnv → Dir → Type 0
IsFreshTemp env d = (tmp : String) → env.temp ≡ ok tmp → lookup tmp d ≡ none

-- An update that fails, wherever it fails, loses nothing, if the name of the temporary directory is
-- new: every entry of the directory is there with the same contents, the counters are the same, and
-- nothing was opened.
pub do_update-keeps :
    (env : UpdateEnv) (s s' : FsUpdater) (e : Err)
    → IsFreshTemp env s.dir
    → do_update env s ≡ (s', some e)
    → IsKept s.dir s'.dir × (s'.stats ≡ s.stats) × (s'.opened ≡ s.opened)
unfolding do_update
do_update-keeps env s s' e fresh h = elim (Result-cases env.temp) [
  | inr (x, f) ↦
      let same : s ≡ s' = ap (λ (r : FsUpdater × Option Err). r.0) (rw f at h) in
      rw (← same) ((λ k e h. h), refl, refl)
  | inl (tmp, f) ↦
      let started = record s { dir = insert tmp (new_dir env []) s.dir } in
      let (s₁, r) = update_in env tmp started in
      let h' = rw f at h in
      let (kept, stats, opened) =
        update_in-IsKept env tmp s.dir (fresh tmp f) started s₁ e
          (insert-IsKept s.dir tmp (new_dir env []) (fresh tmp f))
          (ap (λ o. (s₁, o)) (ap (λ (r : FsUpdater × Option Err). r.1) h')) in
      let same : (record s₁ { dir = discard env tmp s₁.dir }) ≡ s' =
        ap (λ (r : FsUpdater × Option Err). r.0) h' in
      rw (← same) (discard-IsKept env tmp s.dir s₁.dir (fresh tmp f) kept, stats, opened)
]
