-- ===== src/Topographer/Listing.antt =====
-- UsageStats() of topolib/topographer.go.
use mathlib.Core.List.{Perm, Permᴰ}
use mathlib.Core.List.Perm
use mathlib.Core.List.Permᴰ
use topographer.Base.{inl, inr, String, ◌≡◌, refl, true, false, Bool-cases, List, [], ◌∷◌, map}
use topographer.Base.Text.{string_ltb, string_ltb_asymm}
use topographer.Stats.{UsageStats}
use topographer.Topographer.{insert_stat, sort_stats, usage_stats}

-- No name is before that of the neighbour to its left.
abbrev pub IsSorted : List UsageStats → Type 0
IsSorted [] = Unit
IsSorted (u ∷ []) = Unit
IsSorted (u ∷ v ∷ us) = (string_ltb v.name u.name ≡ false) × IsSorted (v ∷ us)

insert_stat-IsSorted_cons :
    (v u : UsageStats) (us : List UsageStats)
    → string_ltb v.name u.name ≡ true
    → IsSorted (v ∷ us)
    → IsSorted (insert_stat u us)
    → IsSorted (v ∷ insert_stat u us)
unfolding insert_stat
insert_stat-IsSorted_cons v u [] lt h k = (string_ltb_asymm v.name u.name lt, tt)
insert_stat-IsSorted_cons v u (w ∷ us) lt h k = elim (Bool-cases (string_ltb w.name u.name)) [
  | inl less ↦ rw less (h.0, rw less at k)
  | inr other ↦ rw other (string_ltb_asymm v.name u.name lt, rw other at k)
]

IsSorted-tail : (v : UsageStats) (us : List UsageStats) → IsSorted (v ∷ us) → IsSorted us
IsSorted-tail v [] h = tt
IsSorted-tail v (w ∷ us) h = h.1

insert_stat-IsSorted :
    (u : UsageStats) (us : List UsageStats) → IsSorted us → IsSorted (insert_stat u us)
unfolding insert_stat
insert_stat-IsSorted u [] h = tt
insert_stat-IsSorted u (v ∷ us) h = elim (Bool-cases (string_ltb v.name u.name)) [
  | inl less ↦
      rw less
        (insert_stat-IsSorted_cons v u us less h (insert_stat-IsSorted u us (IsSorted-tail v us h)))
  | inr other ↦ rw other (other, h)
]

insert_stat-perm : (u : UsageStats) (us : List UsageStats) → Permᴰ (insert_stat u us) (u ∷ us)
unfolding insert_stat
insert_stat-perm u [] = Permᴰ.cons refl Permᴰ.nil
insert_stat-perm u (v ∷ us) = elim (Bool-cases (string_ltb v.name u.name)) [
  | inl less ↦
      rw less (Permᴰ.trans (Permᴰ.cons refl (insert_stat-perm u us)) (Permᴰ.swap refl refl))
  | inr other ↦ rw other (Permᴰ.refl (u ∷ v ∷ us))
]

sort_stats-perm : (us : List UsageStats) → Permᴰ (sort_stats us) us
unfolding sort_stats
sort_stats-perm [] = Permᴰ.nil
sort_stats-perm (u ∷ us) =
    Permᴰ.trans (insert_stat-perm u (sort_stats us)) (Permᴰ.cons refl (sort_stats-perm us))

sort_stats-IsSorted : (us : List UsageStats) → IsSorted (sort_stats us)
unfolding sort_stats
sort_stats-IsSorted [] = tt
sort_stats-IsSorted (u ∷ us) = insert_stat-IsSorted u (sort_stats us) (sort_stats-IsSorted us)

-- The listing has the counters of every provider exactly once, sorted by name, in whichever order
-- the map is visited.
pub usage_stats-IsSorted :
    (order m : List (String × UsageStats))
    → Perm order m
    → IsSorted (usage_stats order)
      × Perm (usage_stats order) (map (λ (e : String × UsageStats). e.1) m)
unfolding usage_stats
usage_stats-IsSorted order m p = (
  sort_stats-IsSorted (map (λ (e : String × UsageStats). e.1) order),
  Perm.trans ∣ sort_stats-perm (map (λ (e : String × UsageStats). e.1) order) ∣₁
      (Perm.map (λ (e : String × UsageStats). e.1) p),
)
