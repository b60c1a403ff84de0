-- ===== src/Resolve/Lookups.antt =====
-- What the lookups of one address (resolveIP of topolib/topographer.go) leave behind.
use mathlib.Core.List.{append-nil, append_assoc}
use topographer.Base.{
  String, ◌≡◌, ◌≢◌, refl, ap, ◌∙◌, inl, inr, Option, none, some, List, [], ◌∷◌, ◌++◌, arith, All,
  Option-cases, ◌==◌, string_eq, eq_iff, if◌then◌else◌,
}
use topographer.Base.Assoc.{lookup, insert, lookup-insert}
use topographer.Structs.{Ip, ResolveResultDetail}
use topographer.Stats.{UsageStats, notify_used, StatEvent, used, apply, apply_all}
use topographer.Resolve.{Stats, error_of, detail_of, Ending, resolve_ip_lookup, collect}

-- The details that get through, in the order in which the goroutines end.
abbrev pub sent : Ip → List Ending → List ResolveResultDetail
sent ip [] = []
sent ip (g ∷ gs) = if g.delivered then detail_of ip g.provider ∷ sent ip gs else sent ip gs

-- What happens to the counters of the name.
abbrev pub events : Ip → String → List Ending → List StatEvent
events ip name [] = []
events ip name (g ∷ gs) =
    if g.provider.name == name
    then used g.now (error_of (g.provider.lookup ip)) ∷ events ip name gs
    else events ip name gs

abbrev pub map_stats : List StatEvent → Option UsageStats → Option UsageStats
map_stats es none = none
map_stats es (some u) = some (apply_all u es)

abbrev pub HasStats : Stats → Ending → Type 0
HasStats stats g = lookup g.provider.name stats ≢ none

module _ (ip : Ip) where
  -- The counters after one lookup.
  after : Ending → UsageStats → Stats → Stats
  after g u stats =
      insert g.provider.name (notify_used g.now (error_of (g.provider.lookup ip)) u) stats

  resolve_ip_lookup-after :
      (g : Ending) (stats : Stats) (rv : List ResolveResultDetail) (u : UsageStats)
      → lookup g.provider.name stats ≡ some u
      → resolve_ip_lookup ip g (stats, rv) ≡ some (after g u stats, rv ++ sent ip (g ∷ []))
  unfolding resolve_ip_lookup after
  resolve_ip_lookup-after g stats rv u e = rw (e, resolve_ip_lookup) (ground (arith, append-nil rv))

  lookup-after :
      (g : Ending) (u : UsageStats) (stats : Stats) (name : String)
      → lookup g.provider.name stats ≡ some u
      → lookup name (after g u stats) ≡ map_stats (events ip name (g ∷ [])) (lookup name stats)
  unfolding after apply_all apply
  lookup-after g u stats name e = ground (
    arith,
    lookup-insert g.provider.name name (notify_used g.now (error_of (g.provider.lookup ip)) u)
        stats,
    eq_iff g.provider.name name,
  )

  after-HasStats :
      (g h : Ending) (u : UsageStats) (stats : Stats)
      → HasStats stats h
      → HasStats (after g u stats) h
  unfolding after
  after-HasStats g h u stats k = ground (
    arith,
    lookup-insert g.provider.name h.provider.name
        (notify_used g.now (error_of (g.provider.lookup ip)) u) stats,
  )

  after-All :
      (g : Ending) (u : UsageStats) (stats : Stats) (gs : List Ending)
      → All (HasStats stats) gs
      → All (HasStats (after g u stats)) gs
  after-All g u stats [] h = tt
  after-All g u stats (x ∷ gs) h = (after-HasStats g x u stats h.0, after-All g u stats gs h.1)

  sent-cons : (g : Ending) (gs : List Ending) → sent ip (g ∷ []) ++ sent ip gs ≡ sent ip (g ∷ gs)
  sent-cons g gs = ground arith

  map_stats-cons :
      (g : Ending) (gs : List Ending) (name : String) (o : Option UsageStats)
      → map_stats (events ip name gs) (map_stats (events ip name (g ∷ [])) o)
        ≡ map_stats (events ip name (g ∷ gs)) o
  unfolding apply_all
  map_stats-cons g gs name o = ground arith

  -- If each provider has counters, the lookups of an address do not panic. The details to merge are
  -- those that got through, one of each such goroutine, in the order of arrival (an empty one where
  -- the lookup failed); and each name's counters have seen exactly the lookups of its providers.
  pub collect-accounts :
      (gs : List Ending) (stats : Stats) (rv : List ResolveResultDetail)
      → All (HasStats stats) gs
      → (stats' : Stats) × (collect ip gs (stats, rv) ≡ some (stats', rv ++ sent ip gs))
        × ((name : String) → lookup name stats' ≡ map_stats (events ip name gs) (lookup name stats))
  unfolding collect apply_all
  collect-accounts [] stats rv h = (stats, rw (append-nil rv) refl, λ name. ground arith)
  collect-accounts (g ∷ gs) stats rv h = elim (Option-cases (lookup g.provider.name stats)) [
    | inl missing ↦ absurd (h.0 missing)
    | inr (u, e) ↦
        let (final, done, counted) =
          collect-accounts gs (after g u stats) (rv ++ sent ip (g ∷ []))
            (after-All g u stats gs h.1) in
        (
          final,
          rw (resolve_ip_lookup-after g stats rv u e, collect)
              (done
                ∙ ap (λ l. some (final, l))
                    (append_assoc rv _ _ ∙ ap (λ l. rv ++ l) (sent-cons g gs))),
          λ name.
              counted name
              ∙ (ap (map_stats (events ip name gs)) (lookup-after g u stats name e)
                  ∙ map_stats-cons g gs name (lookup name stats)),
        )
  ]
