-- ===== src/Updater/Reopened.antt =====
-- The database after Shutdown of topolib/fs_updater.go.
use topographer.Base.{◌≡◌, refl, ◌⊎◌, inl, inr, Bool, true, false, none, some, Bool-cases}
use topographer.Errors.{ok}
use topographer.Providers.Database.{Reader, MaxmindBase, open_maxmind, shutdown_maxmind}
use topographer.Providers.Database.Lookups.{shutdown_maxmind-current}
use topographer.Updater.{
  Place, timer, fetching, unpacking, downloaded, ticker, finished, Updater, shutdown_updater,
  Background, Backgrounds, timer_fires, timer_stops, fetch_fails, fetch_ends, unpack_fails,
  unpack_ends, keeps, opens, ticks, ticker_stops, stays, then,
}

-- The goroutine is past the last look of an update at the context, and may open what it has.
abbrev pub is_fetched : Place → Bool
is_fetched unpacking = true
is_fetched downloaded = true
is_fetched _ = false

-- Shut down, and not about to open.
abbrev IsShut : Updater → Type 0
IsShut u = (u.is_done ≡ true) × (is_fetched u.place ≡ false) × (u.database.db_reader ≡ none)

Background-IsShut : (u v : Updater) → Background u v → IsShut u → IsShut v
Background-IsShut u v (timer_fires d m) (a, b, c) = (a, refl, c)
Background-IsShut u v (timer_stops m) (a, b, c) = (a, refl, c)
Background-IsShut u v (fetch_fails d m) (a, b, c) = (a, refl, c)
Background-IsShut u v (fetch_ends m) (a, b, c) = absurd (cc (a))
Background-IsShut u v (unpack_fails d m) (a, b, c) = absurd (cc (b))
Background-IsShut u v (unpack_ends d m) (a, b, c) = absurd (cc (b))
Background-IsShut u v (keeps d m) (a, b, c) = absurd (cc (b))
Background-IsShut u v (opens file d m) (a, b, c) = absurd (cc (b))
Background-IsShut u v (ticks d m) (a, b, c) = (a, refl, c)
Background-IsShut u v (ticker_stops m) (a, b, c) = (a, refl, c)

Backgrounds-IsShut : (u v : Updater) → Backgrounds u v → IsShut u → IsShut v
Backgrounds-IsShut u v (stays _) h = h
Backgrounds-IsShut u w (then _ v _ s r) h = Backgrounds-IsShut v w r (Background-IsShut u v s h)

module _ (m : MaxmindBase) (r : Reader) where
  abbrev reopened : Updater
  reopened = record { place = finished; is_done = true; database = (open_maxmind (ok r) m).0 }

  from_downloaded :
      Backgrounds (record { place = downloaded; is_done = true; database = m }) reopened
  from_downloaded = then _ _ _ (opens (ok r) true m) (then _ _ _ (ticker_stops _) (stays _))

  reopens :
      (p : Place)
      → is_fetched p ≡ true
      → Backgrounds (record { place = p; is_done = true; database = m }) reopened
  reopens timer h = cc
  reopens fetching h = cc
  reopens unpacking h = then _ _ _ (unpack_ends true m) from_downloaded
  reopens downloaded h = from_downloaded
  reopens ticker h = cc
  reopens finished h = cc

-- If a Shutdown does not come between the last look of an update at the context and the opening in
-- doUpdate, then the database is closed whatever the goroutine does afterwards. If it does come there,
-- in the rest of the download or after it, then there is a run of the goroutine that opens any reader in the
-- database and ends, so that the database is open after the Shutdown.
pub shutdown_updater_cases :
    (u : Updater) (r : Reader)
    → ((is_fetched u.place ≡ false)
        × ((v : Updater) → Backgrounds (shutdown_updater u) v → v.database.db_reader ≡ none))
      ⊎ ((is_fetched u.place ≡ true)
          × ((v : Updater) × Backgrounds (shutdown_updater u) v
              × (v.place ≡ finished)
              × (v.database.db_reader ≡ some r)))
unfolding shutdown_updater open_maxmind
shutdown_updater_cases u r = elim (Bool-cases (is_fetched u.place)) [
  | inr e ↦ inl (
    e,
    λ v run.
        (Backgrounds-IsShut (shutdown_updater u) v run
          (refl, e, shutdown_maxmind-current u.database)).2,
  )
  | inl e ↦ inr (
    e,
    (
      reopened (shutdown_maxmind u.database) r,
      reopens (shutdown_maxmind u.database) r u.place e,
      refl,
      refl,
    ),
  )
]
