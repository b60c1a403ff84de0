-- ===== src/Fs.antt =====
-- topolib/fs.go: the directory of an offline provider's databases. A directory is a map from the names of its entries; the file system's errors are
-- arguments. A removal that fails leaves the entry where it is.
pub mod Target
pub mod Updating
pub mod Update
pub mod Cleanup
pub mod Start
mod Samples
use topographer.Base.{
  ℕ, String, Bool, true, false, Option, none, some, List, [], ◌∷◌, ◌++◌, map, not, ◌&&◌, ◌||◌, ◌==◌,
  string_eq, if◌then◌else◌,
}
use Prim.Native.String
use topographer.Base.Time.{ℤ, pos, Time, ltb_ℤ, is_zero, ◌-ℤ◌}
use topographer.Base.Text.{has_prefix}
use topographer.Stats.{UsageStats, notify_updated}
use topographer.Base.Assoc.{lookup, insert}
use topographer.Errors.{Err, Result, ok, err, wrap, context}

-- An entry: `files` are the relative paths and the contents of a directory's files, as bytes, in the
-- order of the walk.
pub record Entry : Type 0 where
  pub is_dir : Bool
  pub mod_time : Time
  pub files : List (List ℕ × List ℕ)

abbrev pub Dir : Type 0
Dir = List (String × Entry)

abbrev target_dir_prefix : String
target_dir_prefix = "target_"

unfoldable pub is_target : String × Entry → Bool
is_target (name, info) = info.is_dir && has_prefix name target_dir_prefix

-- One round of the loop of GetTargetDir; the pair is `target`, `targetTime`.
unfoldable pub find_target : String × Time → String × Entry → String × Time
unfolding is_target
find_target best (name, info) =
    if is_target (name, info) && (is_zero best.1 || ltb_ℤ (info.mod_time -ℤ best.1) (pos 0))
    then (name, info.mod_time)
    else best

unfoldable pub find_targets : String × Time → List (String × Entry) → String × Time
find_targets best [] = best
find_targets best (e ∷ es) = find_targets (find_target best e) es

-- `GetTargetDir`: `entries` are those of the directory in the order in which they are visited.
unfoldable pub get_target_dir : Result (List (String × Entry)) → Result (String × Time)
unfolding find_targets
get_target_dir (err e) = err (wrap "cannot find target dir" e)
get_target_dir (ok entries) = ok (find_targets ("", pos 0) entries)

abbrev pub is_one_of : String → List String → Bool
is_one_of name [] = false
is_one_of name (k ∷ ks) = k == name || is_one_of name ks

-- An entry less.
unfoldable pub remove : String → Dir → Dir
remove name [] = []
remove name ((k, e) ∷ es) = let rest = remove name es in if k == name then rest else (k, e) ∷ rest

-- The loop of Cleanup over the names; `fails` is the error of os.RemoveAll.
unfoldable pub remove_all : (String → Option Err) → List String → Dir → Dir × Option Err
unfolding remove
remove_all fails [] d = (d, none)
remove_all fails (name ∷ names) d = elim (fails name) [
  | some e ↦ (d, some (wrap (String.◌++◌ "cannot remove " name) e))
  | none ↦ remove_all fails names (remove name d)
]

-- The names to remove.
abbrev pub others : List String → List String → List String
others saved [] = []
others saved (k ∷ ks) = if is_one_of k saved then others saved ks else k ∷ others saved ks

-- `Cleanup`: `listed` are the names in the order in which they are visited.
unfoldable pub cleanup :
    (String → Option Err) → Result (List String) → List String → Dir → Dir × Option Err
unfolding remove_all
cleanup fails (err e) saved d = (d, some (wrap "cannot read current directory" e))
cleanup fails (ok listed) saved d = remove_all fails (others saved listed) d

-- What makeChecksum writes to the hash.
unfoldable pub hash_input : List (List ℕ × List ℕ) → List ℕ
hash_input [] = []
hash_input ((path, contents) ∷ files) = 0 ∷ path ++ 1 ∷ contents ++ hash_input files

unfoldable pub make_checksum :
    (List ℕ → String) → Option Err → List (List ℕ × List ℕ) → Result String
unfolding hash_input
make_checksum sha256 (some e) files = err (wrap "cannot traverse directory" e)
make_checksum sha256 none files = ok (sha256 (hash_input files))

-- What surrounds an update: the name that ioutil.TempDir finds, the files that the provider downloads,
-- an error of the walk and of os.Rename, sha256 in hexadecimal, the errors of `Open` and of
-- os.RemoveAll, how Cleanup lists the directory, and the clock.
pub record UpdateEnv : Type 0 where
  pub temp : Result String
  pub download : Result (List (List ℕ × List ℕ))
  pub walk_fails : Option Err
  pub rename_fails : Option Err
  pub sha256 : List ℕ → String
  pub open_fails : Option Err
  pub remove_fails : String → Option Err
  pub listing : Dir → Result (List String)
  pub now : Time

abbrev pub new_dir : UpdateEnv → List (List ℕ × List ℕ) → Entry
new_dir env files = record { is_dir = true; mod_time = env.now; files = files }

-- `os.RemoveAll`, its error dropped.
abbrev pub discard : UpdateEnv → String → Dir → Dir
discard env name d = elim (env.remove_fails name) [ some _ ↦ d | none ↦ remove name d ]

-- `Promote`: the directory, the target's name, and whether it is a new one.
unfoldable pub promote :
    UpdateEnv → String → List (List ℕ × List ℕ) → Dir → Result (Dir × String × Bool)
unfolding make_checksum remove
promote env tmp files d = elim (make_checksum env.sha256 env.walk_fails files) [
  | err e ↦ err (wrap "cannot make a checksum" e)
  | ok checksum ↦
      let name = String.◌++◌ target_dir_prefix checksum in
      elim (lookup name d) [
        | some _ ↦ ok (d, name, false)
        | none ↦ elim env.rename_fails [
          | some e ↦
              err
                (wrap (String.◌++◌ "cannot rename " (String.◌++◌ tmp (String.◌++◌ " to " name))) e)
          | none ↦ ok (insert name (new_dir env files) (remove tmp d), name, true)
        ]
      ]
]
