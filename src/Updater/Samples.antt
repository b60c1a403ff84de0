-- ===== src/Updater/Samples.antt =====
-- The updater of topolib/fs_updater.go that is shut down while it extracts a download, and where updates begin.
use topographer.Base.{◌≡◌, ◌⊎◌, refl, true, false, none, some, []}
use topographer.Base.Time.{pos, ◌-ℤ◌}
use topographer.Providers.Database.{MaxmindBase}
use topographer.Updater.{
  timer, fetching, unpacking, finished, Updater, first_place, go_background, shutdown_updater,
  Backgrounds,
}
use topographer.Updater.Reopened.{is_fetched, shutdown_updater_cases}

abbrev opened_before : MaxmindBase
opened_before = record { db_reader = some 1; closed = [] }

abbrev in_extraction : Updater
in_extraction = go_background unpacking opened_before

-- A target of an hour, and updates each day; and one of two days.
places :
    (first_place (pos 24) (pos 9) (pos 10) ≡ timer)
    × (first_place (pos 24) (pos 9) (pos 57) ≡ fetching)
unfolding first_place ◌-ℤ◌
places = (refl, refl)

shutdown_updater_cases_example :
    ((is_fetched in_extraction.place ≡ false)
      × ((v : Updater)
          → Backgrounds (shutdown_updater in_extraction) v
          → v.database.db_reader ≡ none))
    ⊎ ((is_fetched in_extraction.place ≡ true)
        × ((v : Updater) × Backgrounds (shutdown_updater in_extraction) v
            × (v.place ≡ finished)
            × (v.database.db_reader ≡ some 2)))
shutdown_updater_cases_example = shutdown_updater_cases in_extraction 2
