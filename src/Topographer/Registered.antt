-- ===== src/Topographer/Registered.antt =====
-- What a new instance (NewTopographer of topolib/topographer.go) has for each provider.
use topographer.Base.{
  String, Bool, if◌then◌else◌, ◌≡◌, ◌≢◌, refl, sym, IsDistinct, ap, ◌∙◌, ◌⊎◌, inl, inr, true, false,
  Option, none, some, List, [], ◌∷◌, map, arith, All, Option-cases, Bool-cases, string_eq, eq_iff,
}
use topographer.Base.Assoc.{lookup, lookup-insert}
use topographer.Errors.{Err, Result, ok, err, ok-injective}
use topographer.Stats.{UsageStats, new_stats}
use topographer.Topographer.{
  Provider, Topographer, Starter, updater_of, put_stat, put_provider, add, register, register_all,
  empty_topographer, new_topographer,
}

-- An online provider stands under its name with new counters; of an offline one the wrapped provider, with
-- the counters that its updater was given as new ones and has left.
abbrev pub IsRegistered : Starter → Topographer → Provider → Type 0
IsRegistered start t v =
    ((v.is_offline ≡ false)
      × (lookup v.name t.providers ≡ some v)
      × (lookup v.name t.provider_stats ≡ some (new_stats v.name)))
    ⊎ ((v.is_offline ≡ true)
        × ((p : Provider) × (u : UsageStats) × (start v (new_stats v.name) ≡ (ok p, u))
            × (lookup v.name t.providers ≡ some p)
            × (lookup v.name t.provider_stats ≡ some u)))

abbrev name_of : Provider → String
name_of v = v.name

-- The entries of both maps at a name.
abbrev SameAt : String → Topographer → Topographer → Type 0
SameAt k t t' =
    (lookup k t'.providers ≡ lookup k t.providers)
    × (lookup k t'.provider_stats ≡ lookup k t.provider_stats)

add_inv :
    (name : String) (r : Result Provider × UsageStats) (t t' : Topographer)
    → add name r t ≡ (t', none)
    → (p : Provider) × (u : UsageStats) × (r ≡ (ok p, u))
      × (t' ≡ put_provider p (put_stat name u t))
add_inv name (ok p, u) t t' h = (p, u, refl, sym (ap (λ (x : Topographer × Option Err). x.0) h))
add_inv name (err e, u) t t' h = cc

added_here :
    (name : String) (p : Provider) (u : UsageStats) (t : Topographer)
    → p.name ≡ name
    → let t' = put_provider p (put_stat name u t) in
      (lookup name t'.providers ≡ some p) × (lookup name t'.provider_stats ≡ some u)
added_here name p u t h = (
  ground (arith, lookup-insert p.name name p t.providers, eq_iff p.name name),
  ground (arith, lookup-insert name name u t.provider_stats, eq_iff name name),
)

added_elsewhere :
    (name k : String) (p : Provider) (u : UsageStats) (t : Topographer)
    → p.name ≡ name
    → k ≢ name
    → SameAt k t (put_provider p (put_stat name u t))
added_elsewhere name k p u t h other = (
  ground (arith, lookup-insert p.name k p t.providers, eq_iff p.name k),
  ground (arith, lookup-insert name k u t.provider_stats, eq_iff name k),
)

module _ (start : Starter)
    (keeps : (v p : Provider) (s u : UsageStats) → start v s ≡ (ok p, u) → p.name ≡ v.name) where
  updater_of_offline :
      (v : Provider) (s : UsageStats) → v.is_offline ≡ true → updater_of start v s ≡ start v s
  unfolding updater_of
  updater_of_offline v s e = ap (λ (b : Bool). if b then start v s else (ok v, s)) e

  updater_of_online :
      (v : Provider) (s : UsageStats) → v.is_offline ≡ false → updater_of start v s ≡ (ok v, s)
  unfolding updater_of
  updater_of_online v s e = ap (λ (b : Bool). if b then start v s else (ok v, s)) e

  same_pair :
      (v p : Provider) (s u : UsageStats)
      → (◌≡◌ {A = Result Provider × UsageStats} (ok v, s) (ok p, u))
      → (v ≡ p) × (s ≡ u)
  same_pair v p s u h = (
    ok-injective (ap (λ (x : Result Provider × UsageStats). x.0) h),
    ap (λ (x : Result Provider × UsageStats). x.1) h,
  )

  updater_of-name :
      (v p : Provider) (s u : UsageStats) → updater_of start v s ≡ (ok p, u) → p.name ≡ v.name
  updater_of-name v p s u h = elim (Bool-cases v.is_offline) [
    | inl off ↦ keeps v p s u (sym (updater_of_offline v s off) ∙ h)
    | inr on ↦
        ap (λ (q : Provider). q.name)
          (sym (same_pair v p s u (sym (updater_of_online v s on) ∙ h)).0)
  ]

  register_inv :
      (v : Provider) (t t' : Topographer)
      → register start v t ≡ (t', none)
      → (p : Provider) × (u : UsageStats) × (p.name ≡ v.name)
        × (updater_of start v (new_stats v.name) ≡ (ok p, u))
        × (t' ≡ put_provider p (put_stat v.name u t))
  unfolding register
  register_inv v t t' h =
      let (p, u, made, same) = add_inv v.name (updater_of start v (new_stats v.name)) t t' h in
      (p, u, updater_of-name v p (new_stats v.name) u made, made, same)

  register-IsRegistered :
      (v : Provider) (t t' : Topographer)
      → register start v t ≡ (t', none)
      → IsRegistered start t' v
  register-IsRegistered v t t' h =
      let (p, u, same, made, added) = register_inv v t t' h in
      let new = new_stats v.name in
      let (found, counted) = added_here v.name p u t same in
      rw added (elim (Bool-cases v.is_offline) [
        | inl off ↦ inr (off, (p, u, sym (updater_of_offline v new off) ∙ made, found, counted))
        | inr on ↦
            let (v_eq, s_eq) = same_pair v p new u (sym (updater_of_online v new on) ∙ made) in
            inl (on, found ∙ sym (ap some v_eq), counted ∙ sym (ap some s_eq))
      ])

  register-SameAt :
      (v : Provider) (t t' : Topographer)
      → register start v t ≡ (t', none)
      → (t'.closed ≡ t.closed) × ((k : String) → k ≢ v.name → SameAt k t t')
  register-SameAt v t t' h =
      let (p, u, same, _, added) = register_inv v t t' h in
      rw added (refl, λ k other. added_elsewhere v.name k p u t same other)

  -- The rest of the loop leaves the other names alone.
  register_all-SameAt :
      (t t' : Topographer) (vs : List Provider)
      → register_all start t vs ≡ (t', none)
      → (t'.closed ≡ t.closed) × ((k : String) → All (λ j. k ≢ j) (map name_of vs) → SameAt k t t')
  unfolding register_all
  register_all-SameAt t t' [] h =
      rw (ap (λ (x : Topographer × Option Err). x.0) h) (refl, λ k none_of. (refl, refl))
  register_all-SameAt t t' (v ∷ vs) h = elim (Option-cases (register start v t).1) [
    | inr (e, f) ↦ cc (rw (f, register_all) at h)
    | inl f ↦
        let t1 = (register start v t).0 in
        let (open_first, first) = register-SameAt v t t1 (ap (λ o. (t1, o)) f) in
        let (open_rest, rest) = register_all-SameAt t1 t' vs (rw (f, register_all) at h) in
        (
          open_rest ∙ open_first,
          λ k (here, there).
              ((rest k there).0 ∙ (first k here).0, (rest k there).1 ∙ (first k here).1),
        )
  ]

  still-IsRegistered :
      (t t' : Topographer) (v : Provider)
      → SameAt v.name t t'
      → IsRegistered start t v
      → IsRegistered start t' v
  still-IsRegistered t t' v (p, s) (inl (on, found, counted)) = inl (on, p ∙ found, s ∙ counted)
  still-IsRegistered t t' v (p, s) (inr (off, (q, u, made, found, counted))) =
      inr (off, (q, u, made, p ∙ found, s ∙ counted))

  register_all-IsRegistered :
      (t t' : Topographer) (vs : List Provider)
      → IsDistinct (map name_of vs)
      → register_all start t vs ≡ (t', none)
      → All (λ (v : Provider). IsRegistered start t' v) vs
  unfolding register_all
  register_all-IsRegistered t t' [] distinct h = tt
  register_all-IsRegistered t t' (v ∷ vs) (apart, distinct) h =
      elim (Option-cases (register start v t).1) [
        | inr (e, f) ↦ cc (rw (f, register_all) at h)
        | inl f ↦
            let t1 = (register start v t).0 in
            let h' = rw (f, register_all) at h in
            (
              still-IsRegistered t1 t' v ((register_all-SameAt t1 t' vs h').1 v.name apart)
                  (register-IsRegistered v t t1 (ap (λ o. (t1, o)) f)),
              register_all-IsRegistered t1 t' vs distinct h',
            )
      ]

  -- If the names of the providers are distinct, and the updater of an offline provider keeps its name: a new
  -- instance that comes without an error is open. Each online provider stands under its name, with new
  -- counters. Each offline provider was started with new counters, and the wrapped provider stands under its
  -- name with the counters as the start left them, which may have the time of the last update. The
  -- instance has no other providers and counters.
  pub new_topographer-IsRegistered :
      (providers : List Provider) (t : Topographer)
      → IsDistinct (map (λ (v : Provider). v.name) providers)
      → new_topographer start providers ≡ (t, none)
      → All (λ (v : Provider). IsRegistered start t v) providers
        × (t.closed ≡ false)
        × ((k : String)
            → All (λ j. k ≢ j) (map (λ (v : Provider). v.name) providers)
            → (lookup k t.providers ≡ none) × (lookup k t.provider_stats ≡ none))
  unfolding new_topographer lookup
  new_topographer-IsRegistered providers t distinct h =
      let (opens, elsewhere) = register_all-SameAt empty_topographer t providers h in
      (register_all-IsRegistered empty_topographer t providers distinct h, opens, elsewhere)
