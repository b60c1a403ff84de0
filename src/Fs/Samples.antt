-- ===== src/Fs/Samples.antt =====
-- A provider's directory (topolib/fs.go, topolib/fs_updater.go) with two targets and a stray entry.
use topographer.Base.{
  ℕ, String, ◌≡◌, refl, subst, ◌⊎◌, true, false, Option, none, some, List, [], ◌∷◌, All, string_eq,
}
use topographer.Base.Text.{has_prefix}
use topographer.Base.Time.{Time, pos, ◌-ℤ◌, ◌≤ℤ◌}
use topographer.Base.Assoc.{lookup, insert}
use topographer.Errors.{ok-injective, Err, message, wrap, ok}
use topographer.Stats.{new_stats, notify_updated}
use topographer.Fs.{
  Entry, Dir, is_target, find_target, find_targets, get_target_dir, remove, remove_all, cleanup,
  hash_input, make_checksum, UpdateEnv, promote,
}
use topographer.Fs.Updating.{
  FsUpdater, finish_update, reopen, promote_and_open, update_in, do_update,
}
use topographer.Fs.Updating.{StartEnv, start, open_or_empty, open_target, start_empty}
use topographer.Fs.Cleanup.{IsCleaned}
use topographer.Fs.Start.{IsStarted, IsEmptied, start_cases}
use topographer.Fs.Target.{IsFound, get_target_dir-oldest}
use topographer.Fs.Update.{IsKept, do_update-keeps}

program : Unit {0}
unfolding is_target find_target find_targets get_target_dir remove remove_all cleanup hash_input
    make_checksum promote finish_update reopen promote_and_open update_in do_update lookup insert
    has_prefix ◌-ℤ◌ notify_updated
program = tt

abbrev target_at : ℕ → Entry
target_at n = record { is_dir = true; mod_time = pos n; files = [] }

abbrev directory : Dir
directory = ("target_b", target_at 9) ∷ ("tmp_1", target_at 2) ∷ ("target_a", target_at 5) ∷ []

oldest : get_target_dir (ok directory) ≡ ok ("target_a", pos 5)
unfolding program
oldest = refl

get_target_dir-oldest_example :
    ((◌≡◌ {A = String} "target_a" "") × All (λ (e : String × Entry). is_target e ≡ false) directory)
    ⊎ (IsFound directory ("target_a", pos 5)
        × All (λ (e : String × Entry). is_target e ≡ true → pos 5 ≤ℤ e.1.mod_time) directory)
get_target_dir-oldest_example =
    get_target_dir-oldest directory ("target_a", pos 5) (refl, (refl, (refl, tt))) oldest

-- Every checksum is "c".
abbrev env : Option Err → UpdateEnv
env failure = record {
  temp = ok "tmp_2";
  download = ok ((65 ∷ [], 66 ∷ []) ∷ []);
  walk_fails = none;
  rename_fails = none;
  sha256 = λ bytes. "c";
  open_fails = failure;
  remove_fails = λ name. none;
  listing = λ d. ok ("target_b" ∷ "tmp_1" ∷ "target_a" ∷ "target_c" ∷ []);
  now = pos 20;
}

abbrev updater : FsUpdater
updater = record { dir = directory; opened = []; running = false; stats = new_stats "a" }

abbrev broken : Option Err
broken = some (message "bad database")

update_runs :
    ((do_update (env none) updater).0.dir
      ≡ ("target_c", record { is_dir = true; mod_time = pos 20; files = (65 ∷ [], 66 ∷ []) ∷ [] })
        ∷ [])
    × ((do_update (env none) updater).0.opened ≡ "target_c" ∷ [])
    × (do_update (env broken) updater
        ≡ (updater, some (wrap "cannot open a new target dir" (message "bad database"))))
unfolding program
update_runs = (refl, refl, refl)

do_update-keeps_example :
    IsKept directory directory × (updater.stats ≡ updater.stats) × (updater.opened ≡ updater.opened)
unfolding program
do_update-keeps_example =
    do_update-keeps (env broken) updater updater
      (wrap "cannot open a new target dir" (message "bad database"))
      (λ tmp e. subst (λ x. lookup x directory ≡ none) (ok-injective e) refl) update_runs.2

abbrev start_env : StartEnv
start_env = record {
  entries = ok directory;
  listed = ok ("tmp_1" ∷ "target_b" ∷ "target_a" ∷ []);
  listed_again = ok [];
  start_remove_fails = λ name. none;
  open_target_fails = λ name. none;
}

abbrev started : FsUpdater
started = record {
  dir = ("target_a", target_at 5) ∷ [];
  opened = "target_a" ∷ [];
  running = true;
  stats = record (new_stats "a") { last_updated = pos 5 };
}

start_runs : start start_env updater ≡ (started, none)
unfolding program start open_or_empty open_target start_empty
start_runs = refl

start_cases_example :
    (target : String × Time) × (names : List String) × (get_target_dir start_env.entries
      ≡ ok target)
    × (start_env.listed ≡ ok names)
    × (started.running ≡ true)
    × IsCleaned names target.0 started.dir
    × (IsStarted start_env target updater started ⊎ IsEmptied start_env target.0 updater started)
start_cases_example = start_cases start_env updater started start_runs
